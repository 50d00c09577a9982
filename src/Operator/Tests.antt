-- ===== src/Operator/Tests.antt =====
-- Two resources in a small cluster that share a host.
use Prim.Native.String.{String}
use text.Mathlib.Text.{◌==◌}
use kubernetes_up_running.Express.{Express}
use kubernetes_up_running.Express.Sample as Router
use kubernetes_up_running.Floats.Sample as Arithmetic
use kubernetes_up_running.Multiplica.{
  Body, multiplica_body, error_body, respond, operation_text, app,
}
use kubernetes_up_running.Multiplica.Answers.{cors_headers}
use kubernetes_up_running.Operator.EndToEnd.{deployed_multiplies}
use kubernetes_up_running.Js.Text.{Text, texts, to_decimal, decimal_digits}
use kubernetes_up_running.Base.{
  ◌≡◌, refl, inl, inr, Option, some, none, true, false, List, [], ◌∷◌, if◌then◌else◌,
}
use kubernetes_up_running.Base.Int.{pos}
use kubernetes_up_running.Js.Text.{text_eq, codes}
use kubernetes_up_running.Server.Maps.{lookup, put}
use kubernetes_up_running.Operator.{
  Deployment, Cr, has_owner, with_owner, proxy_key, route_prefix, route_of, prev_proxy, prev_key,
  prev_route, proxy_name, dashed, annotated,
}
use kubernetes_up_running.Operator.Api.{Key, key_eq}
use kubernetes_up_running.Operator.Reconcile.{
  detach, svc_key, AcceptsService, with_finalizer, ensure_service, ensure_proxy, claim, release,
  ensure_service_and_proxy, cleanup_proxy_for_cr,
}
use kubernetes_up_running.Operator.Views.{routes, owners, cleanup_proxy_for_cr-released}
use kubernetes_up_running.Operator.Ensured.{ensure_service_and_proxy-claims}
use kubernetes_up_running.Operator.Deployments.{
  reconcile_valid, need_update, marked_valid, updated_deployment, set_multiplier, reconcile_one,
  depl_key, sprint_d, AcceptsDeployment,
}
use kubernetes_up_running.Operator.Desired.{IsDeployed}
use kubernetes_up_running.Operator.Events.{
  OwnerReference, owner_enqueued, enqueued, joined_key, process_item, forget,
}
use kubernetes_up_running.Operator.Events.Worker.{process_item-IsDeployed}
use kubernetes_up_running.Operator.Polling.{reconcile_all}
use kubernetes_up_running.Operator.Polling.Rounds.{reconcile_all-IsDeployed}
use kubernetes_up_running.Operator.Sharing.{ensure_again, delete_sharing}
use kubernetes_up_running.Operator.Sample.{
  Cluster, deployments, client, proxies-IsProxyServer, every-IsHosted, client-IsCluster,
}

abbrev empty : Cluster
empty = (λ k. none, λ k. none, λ k. none)

abbrev twice : Cr
twice = record {
  namespace = [];
  name = codes "twice";
  uid = codes "1";
  host = codes "a.com";
  ruta = codes "x";
  replicas = none;
  multiplicador = some (pos 3);
  deleting = false;
  annotations = [];
  finalizers = [];
  status = none;
}

abbrev thrice : Cr
thrice = record twice { name = codes "thrice"; uid = codes "2"; ruta = codes "y" }

-- The cluster with the proxy of `thrice`.
abbrev busy : Cluster
busy = (ensure_service_and_proxy client thrice empty).0

-- `twice`, which has been under another host before.
abbrev moved : Cr
moved = record twice {
  annotations =
      (codes "multiplicador.gz.com/proxy", codes "vhost-b-com")
      ∷ (codes "multiplicador.gz.com/proxy-route", codes "/x")
      ∷ [];
}

abbrev old_key : Key
old_key = (codes "default", codes "vhost-b-com")

abbrev shared_key : Key
shared_key = (codes "default", codes "vhost-a-com")

cleanup_proxy_for_cr-released_example :
    (routes client (cleanup_proxy_for_cr client moved busy) old_key (codes "/x") ≡ none)
    × (owners client (cleanup_proxy_for_cr client moved busy) old_key (codes "1") ≡ false)
unfolding prev_proxy prev_key prev_route lookup text_eq key_eq
cleanup_proxy_for_cr-released_example =
    cleanup_proxy_for_cr-released client proxies-IsProxyServer moved busy old_key (codes "/x")
      (codes "1")

-- What the server is asked to accept, at the inputs of the runs.
accepted : AcceptsService client moved (client.services.get (svc_key moved) busy)
unfolding ensure_service_and_proxy ensure_service ensure_proxy claim release prev_proxy lookup put
    text_eq key_eq with_owner
accepted = refl

ensure_service_and_proxy-claims_example :
    ((ensure_service_and_proxy client moved busy).2 ≡ none)
    × (routes client (ensure_service_and_proxy client moved busy).0 shared_key (codes "/x")
        ≡ some (route_of moved))
    × (owners client (ensure_service_and_proxy client moved busy).0 shared_key (codes "1") ≡ true)
unfolding proxy_key proxy_name dashed route_prefix text_eq key_eq
ensure_service_and_proxy-claims_example =
    ensure_service_and_proxy-claims client client-IsCluster moved busy shared_key (codes "/x")
      (codes "1") (λ e. cc) (λ e. cc) accepted (every-IsHosted moved)

accepted_again :
    let (first, recorded, error) = ensure_service_and_proxy client moved busy in
    AcceptsService client recorded (client.services.get (svc_key recorded) first)
unfolding ensure_service_and_proxy ensure_service ensure_proxy claim release prev_proxy lookup put
    text_eq key_eq with_owner annotated with_finalizer proxy_name dashed detach proxy_key prev_key
accepted_again = refl

ensure_again_example :
    let (first, recorded, error) = ensure_service_and_proxy client moved busy in
    let again = ensure_service_and_proxy client recorded first in
    (again.2 ≡ none)
    × (routes client again.0 old_key (codes "/x") ≡ routes client first old_key (codes "/x"))
    × (owners client again.0 old_key (codes "1") ≡ owners client first old_key (codes "1"))
ensure_again_example =
    ensure_again client client-IsCluster moved busy old_key (codes "/x") (codes "1") (λ e. cc)
      (λ e. cc) accepted accepted_again (every-IsHosted moved)

accepted_first : AcceptsService client moved (client.services.get (svc_key moved) empty)
accepted_first = refl

accepted_second :
    AcceptsService client thrice
      (client.services.get (svc_key thrice) (ensure_service_and_proxy client moved empty).0)
unfolding ensure_service_and_proxy ensure_service ensure_proxy claim release prev_proxy lookup put
    text_eq key_eq with_owner proxy_name dashed detach
accepted_second = refl

delete_sharing_example :
    let (w, recorded, error) = ensure_service_and_proxy client moved empty in
    let both = (ensure_service_and_proxy client thrice w).0 in
    (routes client both (proxy_key thrice) (route_prefix thrice) ≡ some (route_of thrice))
    × (routes client
          (cleanup_proxy_for_cr client recorded both)
          (proxy_key thrice)
          (route_prefix thrice)
        ≡ some (route_of thrice))
unfolding route_prefix text_eq proxy_key proxy_name
delete_sharing_example =
    delete_sharing client client-IsCluster moved thrice empty (λ e. cc) (λ e. cc) (λ e. cc)
      (λ e. cc) refl accepted_first accepted_second (every-IsHosted moved) (every-IsHosted thrice)

-- A deployment of `twice` that was changed by hand.
abbrev changed : Cluster
changed = (
  λ k. none,
  λ k. none,
  λ k. some (record {
    replicas = some (pos 5);
    owners = [];
    containers = ((codes "MULTIPLIER", codes "7") ∷ []) ∷ [];
  }),
)

changed_accepted : AcceptsDeployment client twice (deployments.get (depl_key twice) changed)
unfolding depl_key updated_deployment with_owner
changed_accepted = refl

moved_accepted : AcceptsDeployment client moved (deployments.get (depl_key moved) changed)
unfolding depl_key updated_deployment with_owner
moved_accepted = refl

-- A controller of another kind, and the reference to `twice`.
abbrev other_owner : OwnerReference
other_owner = record { kind = codes "Job"; api_version = codes "batch/v1"; name = codes "job" }

abbrev own : OwnerReference
own = record { kind = codes "Multiplicador"; api_version = codes "gz.com/v1"; name = codes "twice" }

process_item-IsDeployed_example :
    let result = process_item client (λ key w. some twice) (codes "default/twice") changed in
    (owner_enqueued [] (other_owner ∷ own ∷ []) ≡ some (codes "default/twice"))
    × (result.1 ≡ forget)
    × IsDeployed twice (deployments.get (depl_key twice) result.0)
unfolding enqueued joined_key text_eq
process_item-IsDeployed_example =
    process_item-IsDeployed client client-IsCluster (λ key w. some twice) twice (pos 3) changed
      (other_owner ∷ []) [] own tt (λ e. cc) refl refl refl changed_accepted refl
      (every-IsHosted twice) (refl, tt) refl refl refl

abbrev all : List Cr
all = record thrice { multiplicador = some (pos 0) } ∷ moved ∷ []

reconcile_all-IsDeployed_example :
    (later : Cluster) × (reconcile_all client (λ w. some all) changed ≡ some later)
    × IsDeployed moved (deployments.get (depl_key moved) later)
unfolding key_eq text_eq
reconcile_all-IsDeployed_example =
    reconcile_all-IsDeployed client client-IsCluster (λ w. some all) changed all refl
      ((refl, tt), (tt, tt)) moved (pos 3) (inr (inl refl)) refl refl refl moved_accepted

abbrev match : String → String → Option (List Text)
match pattern path = if pattern == "/multiplica/:number" then some (codes "21" ∷ []) else none

abbrev router : Express (Body Arithmetic.sample)
router = Router.sample match (error_body "error" "")

abbrev left : Deployment
left = record {
  replicas = some (pos 1);
  owners = record { uid = codes "1"; controller = true } ∷ [];
  containers = ((codes "MULTIPLIER", codes "3") ∷ []) ∷ [];
}

stored : deployments.get (depl_key twice) (reconcile_one client twice changed).0 ≡ some left
unfolding depl_key reconcile_one reconcile_valid need_update marked_valid ensure_service_and_proxy
    ensure_service ensure_proxy claim release prev_proxy lookup put text_eq key_eq
    updated_deployment has_owner with_owner set_multiplier sprint_d to_decimal decimal_digits
stored = refl

deployed_multiplies_example :
    router.serve
      (app Arithmetic.sample router (some (codes "3")) (codes "h") 1)
      (record { method = "GET"; path = "/multiplica/21"; body = none })
      []
    ≡ respond Arithmetic.sample 200 cors_headers (
        multiplica_body (record {
          input = Arithmetic.sample.parse_float (codes "21");
          multiplier = Arithmetic.sample.parse_float (codes "3");
          result =
              Arithmetic.times
                (Arithmetic.sample.parse_float (codes "21"))
                (Arithmetic.sample.parse_float (codes "3"));
          operation = operation_text Arithmetic.sample (Arithmetic.sample.parse_float (codes "3"));
          host = codes "h";
        }))
unfolding texts lookup text_eq sprint_d
deployed_multiplies_example =
    deployed_multiplies client twice (pos 3) changed left ((codes "MULTIPLIER", codes "3") ∷ []) []
      Arithmetic.sample router (codes "h") 1
      (record { method = "GET"; path = "/multiplica/21"; body = none }) (codes "21")
      client-IsCluster refl refl refl changed_accepted stored refl (tt, tt) refl refl refl refl refl
