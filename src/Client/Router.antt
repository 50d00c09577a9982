-- ===== src/Client/Router.antt =====
-- kuard/client/src/router.jsx, highlightlink.jsx, and the links and locations of app.jsx. A path is a
-- text; the page remembers the path at its last rendering, since a component reads the address bar
-- only when it renders.
pub mod Navigation
pub mod Markup
use kubernetes_up_running.Base.{
  ℕ, Option, some, none, Bool, true, false, ◌&&◌, List, [], ◌∷◌, ◌++◌, ◌==◌, if◌then◌else◌,
}
use kubernetes_up_running.Js.Text.{Text, codes, text_eq}

-- The components that a `Location` of app.jsx can render.
pub data Handler : Type 0 where
  request env mem liveness readiness dns keygen memq : Handler

-- A `Location` element, with the API path that it hands to its handler.
pub record LocationProps : Type 0 where
  pub path : Text
  pub handler : Handler
  pub server_path : Option Text

-- `Location.render`
unfoldable pub location_render : Text → LocationProps → Option (Handler × Option Text)
location_render current props =
    if text_eq current props.path then some (props.handler, props.server_path) else none

-- The children of `Locations` in app.jsx, in order.
unfoldable pub locations : Text → List LocationProps
locations base =
    record { path = base ++ codes "/"; handler = request; server_path = none }
    ∷ record {
      path = base ++ codes "/-/env";
      handler = env;
      server_path = some (base ++ codes "/env/api");
    }
    ∷ record {
      path = base ++ codes "/-/mem";
      handler = mem;
      server_path = some (base ++ codes "/mem/api");
    }
    ∷ record {
      path = base ++ codes "/-/liveness";
      handler = liveness;
      server_path = some (base ++ codes "/healthy");
    }
    ∷ record {
      path = base ++ codes "/-/readiness";
      handler = readiness;
      server_path = some (base ++ codes "/ready");
    }
    ∷ record {
      path = base ++ codes "/-/dns";
      handler = dns;
      server_path = some (base ++ codes "/dns");
    }
    ∷ record {
      path = base ++ codes "/-/keygen";
      handler = keygen;
      server_path = some (base ++ codes "/keygen");
    }
    ∷ record {
      path = base ++ codes "/-/memq";
      handler = memq;
      server_path = some (base ++ codes "/memq");
    }
    ∷ []

-- The `href` of the navigation link to each page.
unfoldable pub nav_href : Text → Handler → Text
nav_href base request = base ++ codes "/"
nav_href base env = base ++ codes "/-/env"
nav_href base mem = base ++ codes "/-/mem"
nav_href base liveness = base ++ codes "/-/liveness"
nav_href base readiness = base ++ codes "/-/readiness"
nav_href base dns = base ++ codes "/-/dns"
nav_href base keygen = base ++ codes "/-/keygen"
nav_href base memq = base ++ codes "/-/memq"

-- A `null` among the children shows nothing.
abbrev pub cons_shown : {A : Type 0} → Option A → List A → List A
cons_shown none rest = rest
cons_shown (some element) rest = element ∷ rest

-- `Locations.render`: what its children show, in order.
unfoldable pub shown_by : Text → List LocationProps → List (Handler × Option Text)
shown_by current [] = []
shown_by current (props ∷ rest) = cons_shown (location_render current props) (shown_by current rest)

-- `HighlightLink.isActive`
unfoldable pub is_active : Text → Text → Bool
is_active current href = text_eq current href

pub record Page : Type 0 where
  pub pathname : Text
  -- whether `Locations` listens to `popstate`
  pub listening : Bool
  -- the path read at the last rendering
  pub rendered : Text

-- `App.handleNavigation`, by way of `Locations.handlePopState`: a rendering with the current path.
unfoldable pub handle_navigation : Page → Page
handle_navigation page = record page { rendered = page.pathname }

unfoldable pub pop_state : Page → Page
unfolding handle_navigation
pop_state page = if page.listening then handle_navigation page else page

-- `Locations.componentDidMount` and `componentWillUnmount`
unfoldable pub did_mount : Page → Page
did_mount page = record page { listening = true }

unfoldable pub will_unmount : Page → Page
will_unmount page = record page { listening = false }

-- `Link.handleClick`
unfoldable pub handle_click : Text → Page → Page
unfolding pop_state
handle_click href page = pop_state (record page { pathname = href })
