-- ===== src/Server/App/DeepLinks.antt =====
-- A page that is opened by its address, without a click.
use mathlib.Core.List.{append_assoc}
use kubernetes_up_running.Base.{
  is_empty, ◌≡◌, All-at, refl, sym, ap, ◌∙◌, Option, some, none, Bool, true, false, List, [], ◌∷◌,
  ◌++◌, ◌∈◌, if◌then◌else◌,
}
use kubernetes_up_running.Js.Text.{Text, codes}
use kubernetes_up_running.Client.Router.{
  Handler, request, env, mem, liveness, readiness, dns, keygen, memq, nav_href,
}
use kubernetes_up_running.Client.Router.Navigation.{server_path, shown_by-nav_href}
use kubernetes_up_running.Client.Shell.{PageContext, render, nav}
use kubernetes_up_running.Server.App.{
  get, root, static, Endpoint, Router, routes, prefixes, find_route, Surroundings, get_page_context,
}
use kubernetes_up_running.Server.App.Static.{Embeds, static_handler, served}

-- The prefix of a link is followed by a page, or by the root alone.
found_page :
    (prefix rest : Text)
    → prefix ∈ prefixes
    → find_route get (prefix ++ codes "/-/" ++ rest) routes ≡ some (root prefix)
unfolding routes find_route
found_page prefix rest h =
    All-at (λ p. find_route get (p ++ codes "/-/" ++ rest) routes ≡ some (root p)) prefixes
      (refl, (refl, (refl, (refl, tt)))) prefix h

found_root :
    (prefix : Text)
    → prefix ∈ prefixes
    → find_route get (prefix ++ codes "/") routes ≡ some (root prefix)
unfolding routes find_route
found_root prefix h =
    All-at (λ p. find_route get (p ++ codes "/") routes ≡ some (root p)) prefixes
      (refl, (refl, (refl, (refl, tt)))) prefix h

found_at :
    (prefix rest : Text)
    → prefix ∈ prefixes
    → find_route get (prefix ++ (codes "/-/" ++ rest)) routes ≡ some (root prefix)
found_at prefix rest i =
    rw (sym (append_assoc prefix (codes "/-/") rest)) (found_page prefix rest i)

found_nav_href :
    (prefix : Text) (h : Handler)
    → prefix ∈ prefixes
    → find_route get (nav_href prefix h) routes ≡ some (root prefix)
unfolding nav_href
found_nav_href prefix request i = found_root prefix i
found_nav_href prefix env i = found_at prefix (codes "env") i
found_nav_href prefix mem i = found_at prefix (codes "mem") i
found_nav_href prefix liveness i = found_at prefix (codes "liveness") i
found_nav_href prefix readiness i = found_at prefix (codes "readiness") i
found_nav_href prefix dns i = found_at prefix (codes "dns") i
found_nav_href prefix keygen i = found_at prefix (codes "keygen") i
found_nav_href prefix memq i = found_at prefix (codes "memq") i

found_bundle :
    (prefix : Text)
    → prefix ∈ prefixes
    → find_route get (prefix ++ codes "/built/bundle.js") routes
      ≡ some (static (prefix ++ codes "/built"))
unfolding routes find_route
found_bundle prefix h =
    All-at
      (λ p.
        find_route get (p ++ codes "/built/bundle.js") routes ≡ some (static (p ++ codes "/built")))
      prefixes (refl, (refl, (refl, (refl, tt)))) prefix h

bundle_served :
    {File : Type 0} (assets : Text → Option File) (prefix : Text) (script : File)
    → Embeds assets
    → assets (codes "built/bundle.js") ≡ some script
    → prefix ∈ prefixes
    → static_handler assets (prefix ++ codes "/built") (prefix ++ codes "/built/bundle.js")
      ≡ (if is_empty prefix then some script else none)
bundle_served assets prefix script embeds bundled i =
    ap (λ t. static_handler assets (prefix ++ codes "/built") t)
      (sym (append_assoc prefix (codes "/built") (codes "/bundle.js"))
        ∙ sym (append_assoc (prefix ++ codes "/built") (codes "/") (codes "bundle.js")))
    ∙ served assets prefix (codes "bundle.js") embeds i
    ∙ ap (λ o. if is_empty prefix then o else none) bundled

-- The page that the template gives for a context: its script is the bundle under the context's prefix.
unfoldable pub bundle_url : PageContext → Text
bundle_url page = page.url_base ++ codes "/built/bundle.js"

module _ {File : Type 0} (router : Router) (assets : Text → Option File) (s : Surroundings) where
  abbrev static_file : Text → Option Endpoint → Option File
  static_file path (some (static prefix)) = static_handler assets prefix path
  static_file path _ = none

  -- The file that the server gives for a path, if it is a static one.
  unfoldable pub fetched : Text → Option File
  fetched path = static_file path (router.dispatch routes get path)

  -- What a page shows whose script runs, or does not.
  abbrev pub run_script : Text → PageContext → Option File → List (Handler × Option Text)
  run_script address page none = []
  run_script address page (some script) = (render address page).content

  abbrev opened : Text → Option Endpoint → List (Handler × Option Text)
  opened address (some (root prefix)) =
      let page = get_page_context s prefix in run_script address page (fetched (bundle_url page))
  opened address _ = []

  -- The pages of the client that a browser shows when an address is opened: none where the server gives
  -- no page of the client, or its script is not found.
  unfoldable pub open_address : Text → List (Handler × Option Text)
  unfolding fetched bundle_url
  open_address address = opened address (router.dispatch routes get address)

  -- Where the bundle is embedded and the server is not in debug mode, the address of each page,
  -- opened under the empty prefix of the server, shows this page alone, with its API path. Opened
  -- under another prefix it shows no page: the server gives the page with the links of the prefix,
  -- but its script is not found.
  pub deep_link_shows :
      (prefix : Text) (h : Handler) (script : File)
      → Embeds assets
      → assets (codes "built/bundle.js") ≡ some script
      → prefix ∈ prefixes
      → (open_address (nav_href prefix h)
          ≡ (if is_empty prefix then (h, server_path prefix h) ∷ [] else []))
        × (router.dispatch routes get (nav_href prefix h) ≡ some (root prefix))
        × ((render (nav_href prefix h) (get_page_context s prefix)).links
            ≡ nav (nav_href prefix h) prefix)
  unfolding render get_page_context open_address
  deep_link_shows prefix h script embeds bundled i =
      let page = get_page_context s prefix in
      let reached =
        router.matching get (nav_href prefix h) (root prefix) (found_nav_href prefix h i) in
      let requested =
        router.matching get (prefix ++ codes "/built/bundle.js") (static (prefix ++ codes "/built"))
          (found_bundle prefix i) in
      let loaded : fetched (bundle_url page) ≡ (if is_empty prefix then some script else none) =
        ap (static_file (prefix ++ codes "/built/bundle.js")) requested
        ∙ bundle_served assets prefix script embeds bundled i in
      (
        ap (opened (nav_href prefix h)) reached
            ∙ ap (run_script (nav_href prefix h) page) loaded
            ∙ shown_if (is_empty prefix),
        reached,
        refl,
      )
    where
      shown_if :
          (b : Bool)
          → run_script
              (nav_href prefix h)
              (get_page_context s prefix)
              (if b then some script else none)
            ≡ (if b then (h, server_path prefix h) ∷ [] else [])
      shown_if true = shown_by-nav_href prefix h
      shown_if false = refl
