-- ===== src/Server/App/Static.antt =====
-- kuard/pkg/sitedata/sitedata.go: the static files of the page.
use kubernetes_up_running.Base.{
  is_empty, ℕ, ◌≡◌, All-at, ◌≢◌, refl, ap, ◌∙◌, inl, inr, Option, some, none, List, [], ◌∷◌, ◌++◌,
  ◌∈◌, arith, ◌==◌, if◌then◌else◌, Option-cases,
}
use kubernetes_up_running.Js.Text.{Text, codes}
use kubernetes_up_running.Server.App.{get, static, Router, routes, prefixes, find_route}

-- `strings.TrimPrefix(prefix, "/")`
unfoldable pub trim_slash : Text → Text
trim_slash [] = []
trim_slash (c ∷ s) = if c == b'/' then s else c ∷ s

-- `strip_prefix p s` is what follows `p` in `s`.
unfoldable pub strip_prefix : Text → Text → Option Text
strip_prefix [] s = some s
strip_prefix (c ∷ p) [] = none
strip_prefix (c ∷ p) (d ∷ s) = let rest = strip_prefix p s in if c == d then rest else none

module _ {File : Type 0} (assets : Text → Option File) where
  abbrev pub under : Text → Option Text → Option File
  under dir none = none
  under dir (some rest) = assets (dir ++ codes "/" ++ rest)

  -- `GetStaticHandler` when not in debug mode, for a path that names a file: the file that is served,
  -- or `none` for status 404. `fs.Sub(Assets, dir)` has the files whose names start with the directory.
  unfoldable pub static_handler : (prefix path : Text) → Option File
  unfolding trim_slash strip_prefix
  static_handler prefix path =
      under (trim_slash prefix) (strip_prefix (codes "/" ++ trim_slash prefix ++ codes "/") path)

-- `//go:embed templates/* built/* static/*`
abbrev pub embedded_dirs : List Text
embedded_dirs = codes "templates" ∷ codes "built" ∷ codes "static" ∷ []

abbrev pub Embeds : {File : Type 0} → (Text → Option File) → Type 0
Embeds assets =
    (path : Text)
    → assets path ≢ none
    → (dir : Text) × (rest : Text) × (dir ∈ embedded_dirs) × (path ≡ dir ++ codes "/" ++ rest)

pub strip_prefix-append : (p s : Text) → strip_prefix p (p ++ s) ≡ some s
unfolding strip_prefix
strip_prefix-append [] s = refl
strip_prefix-append (c ∷ p) s = ground (arith, strip_prefix-append p s)

-- At its own prefix the handler looks up the path under the prefix without its slash.
static_handler-append :
    {File : Type 0} (assets : Text → Option File) (dir rest : Text)
    → static_handler assets (codes "/" ++ dir) (codes "/" ++ dir ++ codes "/" ++ rest)
      ≡ assets (dir ++ codes "/" ++ rest)
unfolding static_handler trim_slash
static_handler-append assets dir rest =
    ap (under assets dir) (strip_prefix-append (codes "/" ++ dir ++ codes "/") rest)

found :
    (prefix rest : Text)
    → prefix ∈ prefixes
    → find_route get (prefix ++ codes "/built" ++ codes "/" ++ rest) routes
      ≡ some (static (prefix ++ codes "/built"))
unfolding routes find_route
found prefix rest h =
    All-at
      (λ p.
        find_route get (p ++ codes "/built" ++ codes "/" ++ rest) routes
        ≡ some (static (p ++ codes "/built")))
      prefixes (refl, (refl, (refl, (refl, tt)))) prefix h

-- A name that starts with no embedded directory is no file.
not_embedded :
    {File : Type 0} (assets : Text → Option File) (path : Text)
    → Embeds assets
    → ((dir rest : Text) → dir ∈ embedded_dirs → path ≢ dir ++ codes "/" ++ rest)
    → assets path ≡ none
not_embedded assets path embeds apart = elim (Option-cases (assets path)) [
  | inl e ↦ e
  | inr (file, e) ↦
      let (dir, rest, known, same) = embeds path (λ n. cc) in absurd (apart dir rest known same)
]

-- Two texts with different second characters.
second_differs : (c d x y : ℕ) (s t : Text) → x ≢ y → c ∷ x ∷ s ≢ d ∷ y ∷ t
second_differs c d x y s t n e = n (cc)

-- Under a prefix that is not empty the handler looks where nothing is embedded.
prefixed_file :
    {File : Type 0} (assets : Text → Option File) (c : ℕ) (rest : Text)
    → Embeds assets
    → static_handler assets
        (codes "/" ++ (c ∷ codes "/built"))
        (codes "/" ++ (c ∷ codes "/built") ++ codes "/" ++ rest)
      ≡ none
prefixed_file assets c rest embeds =
    static_handler-append assets (c ∷ codes "/built") rest
    ∙ not_embedded assets (c ∷ codes "/built/" ++ rest) embeds (λ dir r known same. elim known [
      | inl e ↦
          second_differs c b't' b'/' b'e' _ _ (omega arith) (same ∙ ap (λ d. d ++ codes "/" ++ r) e)
      | inr (inl e) ↦
          second_differs c b'b' b'/' b'u' _ _ (omega arith) (same ∙ ap (λ d. d ++ codes "/" ++ r) e)
      | inr (inr (inl e)) ↦
          second_differs c b's' b'/' b't' _ _ (omega arith) (same ∙ ap (λ d. d ++ codes "/" ++ r) e)
      | inr (inr (inr e)) ↦ e
    ])

pub served :
    {File : Type 0} (assets : Text → Option File) (prefix rest : Text)
    → Embeds assets
    → prefix ∈ prefixes
    → static_handler assets
        (prefix ++ codes "/built")
        (prefix ++ codes "/built" ++ codes "/" ++ rest)
      ≡ (if is_empty prefix then assets (codes "built/" ++ rest) else none)
served assets prefix rest embeds (inl e) = rw e (static_handler-append assets (codes "built") rest)
served assets prefix rest embeds (inr (inl e)) = rw e (prefixed_file assets b'a' rest embeds)
served assets prefix rest embeds (inr (inr (inl e))) = rw e (prefixed_file assets b'b' rest embeds)
served assets prefix rest embeds (inr (inr (inr (inl e)))) =
    rw e (prefixed_file assets b'c' rest embeds)
served assets prefix rest embeds (inr (inr (inr (inr e)))) = absurd e

-- The dispatched request for a file of the page's bundle, and the file that it gets. The assets are
-- the embedded ones. Under the empty prefix it is the file of the directory "built"; under each other
-- prefix the request has status 404, since the handler looks for the file under the prefix.
pub built_file :
    {File : Type 0} (router : Router) (assets : Text → Option File) (prefix rest : Text)
    → Embeds assets
    → prefix ∈ prefixes
    → let path = prefix ++ codes "/built" ++ codes "/" ++ rest in
      (router.dispatch routes get path ≡ some (static (prefix ++ codes "/built")))
      × (static_handler assets (prefix ++ codes "/built") path
          ≡ (if is_empty prefix then assets (codes "built/" ++ rest) else none))
built_file router assets prefix rest embeds h = (
  router.matching get (prefix ++ codes "/built" ++ codes "/" ++ rest)
      (static (prefix ++ codes "/built")) (found prefix rest h),
  served assets prefix rest embeds h,
)
