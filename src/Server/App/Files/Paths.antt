-- ===== src/Server/App/Files/Paths.antt =====
-- Paths that are made of names, when they are cleaned and joined.
use kubernetes_up_running.Base.{
  is_empty, ◌≡◌, refl, sym, ap, ◌∙◌, Bool, true, false, List, [], ◌∷◌, ◌++◌, All, ◌==◌,
}
use mathlib.Core.List.{append_assoc, append-nil}
use kubernetes_up_running.Js.Text.{Text, text_eq, codes}
use kubernetes_up_running.Server.App.Files.{
  split, segments, step, resolve, unwind, slashed, clean, root_or, slash_if,
}

-- A name of a file: not empty, without a slash, neither "." nor "..".
pub record IsName (s : Text) : Type 0 where
  pub not_empty : is_empty s ≡ false
  pub no_slash : All (λ c. (c == b'/') ≡ false) s
  pub not_dot : text_eq s (codes ".") ≡ false
  pub not_up : text_eq s (codes "..") ≡ false

split-name : (s : Text) → All (λ c. (c == b'/') ≡ false) s → split s ≡ (s, [])
unfolding split
split-name [] h = refl
split-name (c ∷ s) (h, rest) = rw (h, split-name s rest) refl

split-slash :
    (s t : Text) → All (λ c. (c == b'/') ≡ false) s → split (s ++ (b'/' ∷ t)) ≡ (s, segments t)
unfolding split
split-slash [] t h = refl
split-slash (c ∷ s) t (h, rest) = rw (h, split-slash s t rest) refl

step-name :
    (rooted : Bool) (before : List Text) (s : Text) → IsName s → step rooted before s ≡ s ∷ before
unfolding step
step-name rooted before s n = rw (n.not_empty, n.not_dot, n.not_up) refl

-- The end of a path, or a slash.
abbrev pub IsEnd : Text → Type 0
IsEnd [] = Unit
IsEnd (c ∷ s) = c ≡ b'/'

abbrev walk : List Text → Text → List Text
walk before s = resolve true before (segments s)

walk-name :
    (before : List Text) (s end : Text)
    → IsName s
    → IsEnd end
    → walk before (s ++ end) ≡ walk (s ∷ before) end
unfolding resolve split step
walk-name before s [] n h = rw (append-nil s, split-name s n.no_slash) (step-name true before s n)
walk-name before s (c ∷ end) n h =
    rw (h, split-slash s end n.no_slash)
      (ap (λ b. resolve true b (segments end)) (step-name true before s n))

-- The names, the last one first, on those before them.
abbrev pushed : List Text → List Text → List Text
pushed [] before = before
pushed (s ∷ names) before = pushed names (s ∷ before)

unwind-pushed :
    (names before after : List Text)
    → unwind (pushed names before) after ≡ unwind before (names ++ after)
unwind-pushed [] before after = refl
unwind-pushed (s ∷ names) before after = unwind-pushed names (s ∷ before) after

slashed-IsEnd : (names : List Text) (end : Text) → IsEnd end → IsEnd (slashed names ++ end)
slashed-IsEnd [] end h = h
slashed-IsEnd (s ∷ names) end h = refl

walk-slash : (before : List Text) (s : Text) → walk before (codes "/" ++ s) ≡ walk before s
unfolding resolve split step
walk-slash before s = refl

walk-names :
    (before names : List Text) (end : Text)
    → All IsName names
    → IsEnd end
    → walk before (slashed names ++ end) ≡ walk (pushed names before) end
walk-names before [] end h e = refl
walk-names before (s ∷ names) end (n, h) e =
    walk-slash before (s ++ slashed names ++ end)
    ∙ ap (walk before) (append_assoc s (slashed names) end)
    ∙ walk-name before s (slashed names ++ end) n (slashed-IsEnd names end e)
    ∙ walk-names (s ∷ before) names end h e

walk-last :
    (before : List Text) (b : Bool) (name : Text)
    → IsName name
    → walk before (slash_if b ++ (codes "/" ++ name)) ≡ name ∷ before
unfolding resolve split step
walk-last before true name n =
    ap (walk before) (sym (append-nil name)) ∙ walk-name before name [] n tt
walk-last before false name n =
    ap (walk before) (sym (append-nil name)) ∙ walk-name before name [] n tt

append-slash_if-IsEnd : (b : Bool) (s : Text) → IsEnd (slash_if b ++ (codes "/" ++ s))
append-slash_if-IsEnd true s = refl
append-slash_if-IsEnd false s = refl

clean-walk :
    (s : Text) → clean (codes "/" ++ s) ≡ root_or (slashed (unwind (walk [] (codes "/" ++ s)) []))
unfolding clean resolve split step
clean-walk s = refl

-- A base, names, and one more name after a slash or two.
pub clean_joined :
    (first : Text) (bases segs : List Text) (b : Bool) (name : Text)
    → All IsName (first ∷ bases)
    → All IsName segs
    → IsName name
    → clean (slashed (first ∷ bases) ++ (slashed segs ++ (slash_if b ++ (codes "/" ++ name))))
      ≡ slashed (first ∷ bases ++ (segs ++ name ∷ []))
clean_joined first bases segs b name hb hs n =
    let end = slash_if b ++ (codes "/" ++ name) in
    let stack = pushed segs (pushed (first ∷ bases) []) in
    let walked : walk [] (slashed (first ∷ bases) ++ (slashed segs ++ end)) ≡ name ∷ stack =
      walk-names [] (first ∷ bases) (slashed segs ++ end) hb
        (slashed-IsEnd segs end (append-slash_if-IsEnd b name))
      ∙ walk-names (pushed (first ∷ bases) []) segs end hs (append-slash_if-IsEnd b name)
      ∙ walk-last stack b name n in
    clean-walk ((first ++ slashed bases) ++ (slashed segs ++ end))
    ∙ ap (λ t. root_or (slashed (unwind t []))) walked
    ∙ ap (λ t. root_or (slashed t))
        (unwind-pushed segs (pushed (first ∷ bases) []) (name ∷ [])
          ∙ unwind-pushed (first ∷ bases) [] (segs ++ name ∷ []))

slash_if-IsEnd : (b : Bool) → IsEnd (slash_if b)
slash_if-IsEnd true = refl
slash_if-IsEnd false = tt

walk-slash_if : (before : List Text) (b : Bool) → walk before (slash_if b) ≡ before
unfolding resolve split step
walk-slash_if before true = refl
walk-slash_if before false = refl

-- The path of names, with a slash after it or not.
pub clean_names :
    (names : List Text) (b : Bool)
    → All IsName names
    → clean (codes "/" ++ (slashed names ++ slash_if b)) ≡ root_or (slashed names)
clean_names names b h =
    clean-walk (slashed names ++ slash_if b)
    ∙ ap (λ t. root_or (slashed (unwind t [])))
        (walk-slash [] (slashed names ++ slash_if b)
          ∙ walk-names [] names (slash_if b) h (slash_if-IsEnd b)
          ∙ walk-slash_if (pushed names []) b)
    ∙ ap (λ t. root_or (slashed t)) (unwind-pushed names [] [] ∙ append-nil names)
