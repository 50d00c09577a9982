-- ===== src/Operator.antt =====
-- ejemplos/17 Extending Kubernetes/operator-multiplicador/main.go: the deployment, the service and
-- the HTTPProxy that the operator keeps for a resource `Multiplicador`, and what it removes when
-- the resource is deleted. An HTTPProxy has a spec and metadata; routes or owners that are missing
-- are none. An owner of a proxy is its uid, since no reference that is written there is the
-- controller's; group, version and kind are the same for all.
pub mod Api
pub mod Reconcile
pub mod Routes
pub mod Store
pub mod Views
pub mod Refinement
pub mod Ensured
pub mod Sharing
pub mod Deployments
pub mod Frames
pub mod Desired
pub mod Converged
pub mod Polling
pub mod Events
pub mod EndToEnd
mod Sample
mod Tests
use kubernetes_up_running.Base.{
  is_empty, ℕ, Option, some, none, Bool, true, false, not, ◌&&◌, ◌||◌, List, [], ◌∷◌, ◌++◌, ◌==◌,
  if◌then◌else◌, ◌≡◌,
}
use kubernetes_up_running.Base.Int.{ℤ}
use kubernetes_up_running.Js.Text.{Text, text_eq, codes}
use kubernetes_up_running.Server.Maps.{Map, put, lookup}
use kubernetes_up_running.Operator.Api.{Key, Resource, IsReliable, IsApart, Keeps}

-- `prefix` is that of the first condition, if there is one.
pub record Route : Type 0 where
  pub prefix : Option Text
  pub service : Text
  pub port : ℕ
  pub replacement : Text

pub record Proxy : Type 0 where
  pub owners : List Text
  pub routes : List Route
  pub fqdn : Option Text

-- A reference to an owner, as far as the operator sets it for deployments and services.
pub record OwnerRef : Type 0 where
  pub uid : Text
  pub controller : Bool

pub record Service : Type 0 where
  pub selector : Map
  pub ports : List ℕ
  pub owners : List OwnerRef

-- An entry of a container's environment is a name and a value.
pub record Deployment : Type 0 where
  pub replicas : Option ℤ
  pub owners : List OwnerRef
  pub containers : List (List (Text × Text))

pub data Status : Type 0 where
  ready : (replicas multiplicador : ℤ) → Status
  invalid : Status

-- A resource `Multiplicador`. The numbers are what `getIntField` reads in the spec.
pub record Cr : Type 0 where
  pub namespace : Text
  pub name : Text
  pub uid : Text
  pub host : Text
  pub ruta : Text
  pub replicas : Option ℤ
  pub multiplicador : Option ℤ
  pub deleting : Bool
  pub annotations : Map
  pub finalizers : List Text
  pub status : Option Status

pub data Error : Type 0 where
  create_service_failed : Error
  update_service_failed : Error
  create_proxy_failed : Error
  update_proxy_failed : Error
  create_deployment_failed : Error
  update_deployment_failed : Error
  update_cr_failed : Error

-- The clients that the operator gets: for HTTPProxies, services and deployments,
-- and for its own resources and their status.
pub record Client (W : Type 0) : Type 0 where
  pub proxies : Resource W Proxy
  pub services : Resource W Service
  pub deployments : Resource W Deployment
  pub update_cr : Cr → W → Option W
  pub update_status : Cr → W → Option W

abbrev pub namespace_of : Text → Text
namespace_of [] = codes "default"
namespace_of (c ∷ ns) = c ∷ ns

-- A missing entry of a Go map of texts reads as the empty text.
abbrev pub text_or_empty : Option Text → Text
text_or_empty none = []
text_or_empty (some s) = s

unfoldable pub prev_proxy : Cr → Text
prev_proxy u = text_or_empty (lookup (codes "multiplicador.gz.com/proxy") u.annotations)

unfoldable pub prev_route : Cr → Text
prev_route u = text_or_empty (lookup (codes "multiplicador.gz.com/proxy-route") u.annotations)

-- `strings.ReplaceAll(host, ".", "-")`
unfoldable pub dashed : Text → Text
dashed [] = []
dashed (c ∷ s) = (if c == b'.' then b'-' else c) ∷ dashed s

abbrev pub proxy_name_of : Text → Text → Text
proxy_name_of name [] = name
proxy_name_of name (c ∷ host) = codes "vhost-" ++ dashed (c ∷ host)

unfoldable pub proxy_name : Cr → Text
proxy_name u = proxy_name_of u.name u.host

unfoldable pub proxy_key : Cr → Key
proxy_key u = (namespace_of u.namespace, proxy_name u)

unfoldable pub prev_key : Cr → Key
prev_key u = (namespace_of u.namespace, prev_proxy u)

unfoldable pub route_prefix : Cr → Text
route_prefix u = b'/' ∷ u.ruta

abbrev pub depl_name : Cr → Text
depl_name u = u.name ++ codes "-multiplicador"

abbrev pub svc_name : Cr → Text
svc_name u = depl_name u ++ codes "-svc"

unfoldable pub route_of : Cr → Route
route_of u = record {
  prefix = some (route_prefix u);
  service = svc_name u;
  port = 8080;
  replacement = codes "/multiplica";
}

unfoldable pub has_text : Text → List Text → Bool
has_text t [] = false
has_text t (s ∷ texts) = text_eq s t || has_text t texts

unfoldable pub without_text : Text → List Text → List Text
without_text t [] = []
without_text t (s ∷ texts) =
    let rest = without_text t texts in if text_eq s t then rest else s ∷ rest

abbrev pub prefix_is : Text → Option Text → Bool
prefix_is prefix none = false
prefix_is prefix (some p) = text_eq p prefix

unfoldable pub without_route : Text → List Route → List Route
without_route prefix [] = []
without_route prefix (r ∷ routes) =
    let rest = without_route prefix routes in if prefix_is prefix r.prefix then rest else r ∷ rest

-- The first route with the prefix is replaced; where there is none the route is appended.
unfoldable pub merge_route : Text → Route → List Route → List Route
merge_route prefix route [] = route ∷ []
merge_route prefix route (r ∷ routes) =
    let rest = merge_route prefix route routes in
    if prefix_is prefix r.prefix then route ∷ routes else r ∷ rest

-- A proxy without the owner and without the routes of the prefix.
unfoldable pub detached : Text → Text → Proxy → Proxy
detached uid prefix p = record {
  owners = without_text uid p.owners;
  routes = if is_empty prefix then p.routes else without_route prefix p.routes;
  fqdn = p.fqdn;
}

unfoldable pub is_orphan : Proxy → Bool
is_orphan p = is_empty p.owners && is_empty p.routes

-- An existing proxy with the owner and the route of the resource.
unfoldable pub merged : Cr → Proxy → Proxy
merged u p =
    let moved =
      text_eq (prev_proxy u) (proxy_name u)
      && not (is_empty (prev_route u))
      && not (text_eq (prev_route u) (route_prefix u)) in
    record {
      owners = if has_text u.uid p.owners then p.owners else p.owners ++ u.uid ∷ [];
      routes =
          merge_route (route_prefix u) (route_of u)
            (if moved then without_route (prev_route u) p.routes else p.routes);
      fqdn = if is_empty u.host then p.fqdn else some u.host;
    }

-- The proxy of a resource that is the first one for its host.
unfoldable pub fresh_proxy : Cr → Proxy
fresh_proxy u = record {
  owners = u.uid ∷ [];
  routes = route_of u ∷ [];
  fqdn = if is_empty u.host then none else some u.host;
}

-- The resource with the proxy and the route that it has now.
unfoldable pub annotated : Cr → Cr
annotated u = record u {
  annotations =
      put (codes "multiplicador.gz.com/proxy-route") (route_prefix u)
        (put (codes "multiplicador.gz.com/proxy") (proxy_name u) u.annotations);
}

unfoldable pub has_owner : Text → List OwnerRef → Bool
has_owner uid [] = false
has_owner uid (o ∷ owners) = text_eq o.uid uid || has_owner uid owners

-- `metav1.NewControllerRef`
abbrev pub controller_ref : Cr → OwnerRef
controller_ref u = record { uid = u.uid; controller = true }

-- The references with that of the resource: where it has none, one more is appended, whichever owner is
-- the controller by then.
unfoldable pub with_owner : Cr → List OwnerRef → List OwnerRef
unfolding has_owner
with_owner u owners = if has_owner u.uid owners then owners else owners ++ controller_ref u ∷ []

-- The API server for proxies: what it stores it has accepted, and taking an owner and routes away leaves
-- a proxy that it accepts.
pub record IsProxyServer {W : Type 0} (c : Client W) : Type 0 where
  pub reliable : IsReliable c.proxies
  pub stored :
      (k : Key) (p : Proxy) (w : W) → c.proxies.get k w ≡ some p → c.proxies.accepts k p ≡ true
  pub detached_accepted :
      (k : Key) (uid prefix : Text) (p : Proxy)
      → c.proxies.accepts k p ≡ true
      → c.proxies.accepts k (detached uid prefix p) ≡ true

-- The API server accepts the proxy of a resource: a new one, and one that it has accepted with the
-- route and the owner of the resource, whatever the annotations are.
pub record IsHosted {W : Type 0} (c : Client W) (u : Cr) : Type 0 where
  pub fresh_accepted : c.proxies.accepts (proxy_key u) (fresh_proxy u) ≡ true
  pub merged_accepted :
      (annotations : Map) (p : Proxy)
      → c.proxies.accepts (proxy_key u) p ≡ true
      → c.proxies.accepts (proxy_key u) (merged (record u { annotations = annotations }) p) ≡ true

-- A cluster that no one else changes: calls concern one object, and those whose object is accepted
-- succeed, except that a write of the resource itself may fail.
pub record IsCluster {W : Type 0} (c : Client W) : Type 0 where
  pub proxies_reliable : IsProxyServer c
  pub services_reliable : IsReliable c.services
  pub services_apart : IsApart c.proxies c.services
  pub services_deployments : IsApart c.services c.deployments
  pub services_cr : (u : Cr) (w : W) → Keeps c.services w (c.update_cr u w)
  pub services_status : (u : Cr) (w : W) → Keeps c.services w (c.update_status u w)
  pub cr_apart : (u : Cr) (w : W) → Keeps c.proxies w (c.update_cr u w)
  pub deployments_reliable : IsReliable c.deployments
  pub deployments_services : IsApart c.deployments c.services
  pub deployments_proxies : IsApart c.deployments c.proxies
  pub deployments_cr : (u : Cr) (w : W) → Keeps c.deployments w (c.update_cr u w)
  pub deployments_status : (u : Cr) (w : W) → Keeps c.deployments w (c.update_status u w)
