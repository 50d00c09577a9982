-- ===== src/Client/Shell.antt =====
-- What app.jsx, request.jsx and highlightlink.jsx in kuard/client/src render from the context of the
-- page: the host, the links and the page at the current path.
use kubernetes_up_running.Base.{Option, Bool, false, List, [], ◌∷◌, ◌++◌, map}
use kubernetes_up_running.Js.Text.{Text, codes}
use kubernetes_up_running.Client.Router.{
  Handler, request, env, mem, liveness, readiness, dns, keygen, memq, locations, nav_href, shown_by,
  is_active,
}

-- `pageContext`, which the server writes into the page.
pub record PageContext : Type 0 where
  pub hostname : Text
  pub version : Text
  pub addrs : List Text
  pub url_base : Text
  pub request_proto : Text
  pub request_addr : Text
  pub request_dump : Text

-- A link of the navigation, which is highlighted if it leads to the current path.
pub record NavItem : Type 0 where
  pub href : Text
  pub title : Text
  pub active : Bool

-- `HighlightLink.render`
unfoldable pub highlight_link : (current href title : Text) → NavItem
highlight_link current href title = record {
  href = href;
  title = title;
  active = is_active current href;
}

abbrev pub titles : List (Handler × Text)
titles =
    (request, codes "Request Details")
    ∷ (env, codes "Server Env")
    ∷ (mem, codes "Memory")
    ∷ (liveness, codes "Liveness Probe")
    ∷ (readiness, codes "Readiness Probe")
    ∷ (dns, codes "DNS Query")
    ∷ (keygen, codes "KeyGen Workload")
    ∷ (memq, codes "MemQ Server")
    ∷ []

-- The file browser is a plain link, which opens another window.
unfoldable pub nav : (current base : Text) → List NavItem
unfolding highlight_link
nav current base =
    map (λ (page : Handler × Text). highlight_link current (nav_href base page.0) page.1) titles
    ++ record { href = base ++ codes "/fs/"; title = codes "File system browser"; active = false }
      ∷ []

-- `Request.render`
pub record RequestDetails : Type 0 where
  pub proto : Text
  pub client_addr : Text
  pub dump : Text

unfoldable pub request_render : PageContext → RequestDetails
request_render page = record {
  proto = page.request_proto;
  client_addr = page.request_addr;
  dump = page.request_dump;
}

-- The children of "Serving on": each address, and a space.
unfoldable pub serving_on : List Text → List Text
serving_on [] = []
serving_on (a ∷ addrs) = a ∷ codes " " ∷ serving_on addrs

pub record Shell : Type 0 where
  pub hostname : Text
  pub version : Text
  pub serving : List Text
  pub links : List NavItem
  pub content : List (Handler × Option Text)

-- `App.render`
unfoldable pub render : (current : Text) → PageContext → Shell
unfolding serving_on nav
render current page = record {
  hostname = page.hostname;
  version = page.version;
  serving = serving_on page.addrs;
  links = nav current page.url_base;
  content = shown_by current (locations page.url_base);
}
