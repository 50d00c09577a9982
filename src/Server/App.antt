-- ===== src/Server/App.antt =====
-- kuard/pkg/app/app.go: the routes of the server, and the context of the page. The third-party
-- httprouter is a parameter.
pub mod Static
pub mod Pages
pub mod DeepLinks
pub mod DevServer
pub mod Files
mod Tests
use kubernetes_up_running.Base.{
  is_empty, ℕ, ◌≡◌, Option, some, none, Bool, true, false, not, ◌&&◌, ◌||◌, ◌==◌, List, [], ◌∷◌,
  ◌++◌, if◌then◌else◌,
}
use kubernetes_up_running.Js.Text.{Text, codes}
use kubernetes_up_running.Client.Shell.{PageContext}

pub data Verb : Type 0 where
  get put post delete : Verb

abbrev pub same_verb : Verb → Verb → Bool
same_verb get get = true
same_verb put put = true
same_verb post post = true
same_verb delete delete = true
same_verb _ _ = false

-- The handlers. `root` and `files` capture the prefix under which they are added, `static` the prefix
-- that `sitedata.AddRoutes` is given.
pub data Endpoint : Type 0 where
  root static files : Text → Endpoint
  metrics : Endpoint
  mem_get mem_alloc mem_clear : Endpoint
  live live_get live_put : Endpoint
  ready ready_get ready_put : Endpoint
  env_get dns_get keygen_get keygen_put : Endpoint
  get_stats create_queue delete_queue drain_queue dequeue enqueue : Endpoint

pub record Route : Type 0 where
  pub verb : Verb
  pub pattern : Text
  pub endpoint : Endpoint

abbrev pub route : Verb → Text → Endpoint → Route
route verb pattern endpoint = record { verb = verb; pattern = pattern; endpoint = endpoint }

-- `AddRoutes` of each component
unfoldable pub static_routes : Text → List Route
static_routes prefix = route get (prefix ++ codes "/*filepath") (static prefix) ∷ []

unfoldable pub mem_routes : Text → List Route
mem_routes base =
    route get (base ++ codes "/api") mem_get
    ∷ route post (base ++ codes "/api/alloc") mem_alloc
    ∷ route post (base ++ codes "/api/clear") mem_clear
    ∷ []

unfoldable pub live_routes : Text → List Route
live_routes base =
    route get base live
    ∷ route get (base ++ codes "/api") live_get
    ∷ route put (base ++ codes "/api") live_put
    ∷ []

unfoldable pub ready_routes : Text → List Route
ready_routes base =
    route get base ready
    ∷ route get (base ++ codes "/api") ready_get
    ∷ route put (base ++ codes "/api") ready_put
    ∷ []

unfoldable pub env_routes : Text → List Route
env_routes base = route get (base ++ codes "/api") env_get ∷ []

unfoldable pub dns_routes : Text → List Route
dns_routes base = route post (base ++ codes "/api") dns_get ∷ []

unfoldable pub keygen_routes : Text → List Route
keygen_routes base = route get base keygen_get ∷ route put base keygen_put ∷ []

unfoldable pub memq_routes : Text → List Route
memq_routes base =
    route get (base ++ codes "/stats") get_stats
    ∷ route put (base ++ codes "/queues/:queue") create_queue
    ∷ route delete (base ++ codes "/queues/:queue") delete_queue
    ∷ route post (base ++ codes "/queues/:queue/drain") drain_queue
    ∷ route post (base ++ codes "/queues/:queue/dequeue") dequeue
    ∷ route post (base ++ codes "/queues/:queue/enqueue") enqueue
    ∷ []

-- The body of the loop in `NewApp`.
unfoldable pub prefix_routes : Text → List Route
unfolding static_routes mem_routes live_routes ready_routes env_routes dns_routes keygen_routes
    memq_routes
prefix_routes prefix =
    route get (prefix ++ codes "/") (root prefix)
    ∷ route get (prefix ++ codes "/-/*path") (root prefix)
    ∷ route get (prefix ++ codes "/metrics") metrics
    ∷ (static_routes (prefix ++ codes "/built")
        ++ (static_routes (prefix ++ codes "/static")
            ++ (route get (prefix ++ codes "/fs/*filepath") (files prefix)
                ∷ (mem_routes (prefix ++ codes "/mem")
                    ++ (live_routes (prefix ++ codes "/healthy")
                        ++ (ready_routes (prefix ++ codes "/ready")
                            ++ (env_routes (prefix ++ codes "/env")
                                ++ (dns_routes (prefix ++ codes "/dns")
                                    ++ (keygen_routes (prefix ++ codes "/keygen")
                                        ++ memq_routes (prefix ++ codes "/memq/server"))))))))))

abbrev pub prefixes : List Text
prefixes = [] ∷ codes "/a" ∷ codes "/b" ∷ codes "/c" ∷ []

abbrev routes_under : List Text → List Route
routes_under [] = []
routes_under (prefix ∷ rest) = prefix_routes prefix ++ routes_under rest

unfoldable pub routes : List Route
unfolding prefix_routes
routes = routes_under prefixes

-- A path matches a pattern character by character, and any rest of it a "*". (A parameter, ":queue",
-- is taken literally here, so its other values are not described.)
abbrev begins_with : ℕ → Text → Bool
begins_with c [] = false
begins_with c (d ∷ path) = c == d

abbrev tail : Text → Text
tail [] = []
tail (d ∷ path) = path

unfoldable pub matches : (pattern path : Text) → Bool
matches [] path = is_empty path
matches (c ∷ pattern) path =
    let rest = matches pattern (tail path) in c == b'*' || begins_with c path && rest

-- The endpoint of the first route that matches.
unfoldable pub find_route : Verb → Text → List Route → Option Endpoint
unfolding matches
find_route verb path [] = none
find_route verb path (r ∷ rs) =
    let rest = find_route verb path rs in
    if same_verb verb r.verb && matches r.pattern path then some r.endpoint else rest

-- What httprouter documents for the routes of the server, among which no two match one path: a path
-- that matches a pattern goes to the handler of the route.
pub record Router : Type 0 where
  pub dispatch : List Route → Verb → Text → Option Endpoint
  pub matching :
      (verb : Verb) (path : Text) (e : Endpoint)
      → find_route verb path routes ≡ some e
      → dispatch routes verb path ≡ some e

-- An address of an interface: `version_4` if it is an IPv4 address of a network.
pub record Addr : Type 0 where
  pub text : Text
  pub is_ip_net : Bool
  pub is_loopback : Bool
  pub version_4 : Bool

unfoldable pub shown_addrs : List Addr → List Text
shown_addrs [] = []
shown_addrs (a ∷ addrs) =
    let rest = shown_addrs addrs in
    if a.is_ip_net && not a.is_loopback && a.version_4 then a.text ∷ rest else rest

-- What `getPageContext` reads of the host and of a request; `dump` is trimmed.
pub record Surroundings : Type 0 where
  pub hostname : Text
  pub version : Text
  pub interfaces : List Addr
  pub dump : Text
  pub proto : Text
  pub remote_addr : Text

-- The context as the script of the page gets it: the JSON has the fields that the client reads.
unfoldable pub get_page_context : Surroundings → Text → PageContext
unfolding shown_addrs
get_page_context s url_base = record {
  hostname = s.hostname;
  version = s.version;
  addrs = shown_addrs s.interfaces;
  url_base = url_base;
  request_proto = s.proto;
  request_addr = s.remote_addr;
  request_dump = s.dump;
}
