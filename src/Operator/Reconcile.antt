-- ===== src/Operator/Reconcile.antt =====
-- `ensureServiceAndProxy` and `cleanupProxyForCR` of the operator, and the deletion in
-- `reconcileOne`, on a cluster of any type of states.
use kubernetes_up_running.Base.{
  is_empty, ℕ, Option, some, none, Bool, true, false, not, ◌&&◌, ◌||◌, List, [], ◌∷◌, ◌++◌, length,
  ◌==◌, if◌then◌else◌, ◌≡◌,
}
use kubernetes_up_running.Js.Text.{Text, text_eq, codes}
use kubernetes_up_running.Server.Maps.{Map, lookup}
use kubernetes_up_running.Operator.{
  Proxy, Service, Cr, Client, Error, create_service_failed, update_service_failed,
  create_proxy_failed, update_proxy_failed, namespace_of, prev_proxy, prev_route, proxy_name,
  proxy_key, prev_key, depl_name, svc_name, has_text, has_owner, with_owner, controller_ref,
  without_text, detached, is_orphan, merged, fresh_proxy, annotated,
}
use kubernetes_up_running.Operator.Api.{Key, after_call}

abbrev pub labels : Cr → Map
labels u = (codes "app", codes "multiplicador") ∷ (codes "multiplicador-name", depl_name u) ∷ []

abbrev all_in : Map → Map → Bool
all_in [] m = true
all_in ((key, value) ∷ entries) m =
    has_text value (elim (lookup key m) [ none ↦ [] | some found ↦ found ∷ [] ]) && all_in entries m

-- `reflect.DeepEqual` on maps
unfoldable pub same_map : Map → Map → Bool
unfolding has_text lookup
same_map m n = length m == length n && all_in m n

abbrev pub starts_with_8080 : List ℕ → Bool
starts_with_8080 [] = false
starts_with_8080 (p ∷ ports) = p == 8080

abbrev pub service_differs : Cr → Service → Bool
service_differs u s =
    not (same_map s.selector (labels u))
    || not (starts_with_8080 s.ports)
    || not (has_owner u.uid s.owners)

abbrev pub repaired_service : Cr → Service → Service
repaired_service u s = record {
  selector = if same_map s.selector (labels u) then s.selector else labels u;
  ports = if starts_with_8080 s.ports then s.ports else 8080 ∷ [];
  owners = with_owner u s.owners;
}

abbrev pub fresh_service : Cr → Service
fresh_service u = record { selector = labels u; ports = 8080 ∷ []; owners = controller_ref u ∷ [] }

abbrev pub finalizer_name : Text
finalizer_name = codes "multiplicador.gz.com/finalizer"

unfoldable pub with_finalizer : Cr → Cr
with_finalizer u = record u {
  finalizers =
      if has_text finalizer_name u.finalizers
      then u.finalizers
      else u.finalizers ++ finalizer_name ∷ [];
}

abbrev pub svc_key : Cr → Key
svc_key u = (namespace_of u.namespace, svc_name u)

-- The API server accepts the service that the operator writes: a new one, or the one that is there with
-- what is wrong about it put right.
abbrev pub AcceptsService : {W : Type 0} → Client W → Cr → Option Service → Type 0
AcceptsService c u none = c.services.accepts (svc_key u) (fresh_service u) ≡ true
AcceptsService c u (some s) = c.services.accepts (svc_key u) (repaired_service u s) ≡ true

module _ {W : Type 0} (c : Client W) where
  -- The state after a call, or the error if the call failed.
  abbrev pub or_error : W → Error → Option W → W × Option Error
  or_error w e none = (w, some e)
  or_error w e (some later) = (later, none)

  unfoldable pub ensure_service : Cr → W → W × Option Error
  ensure_service u w =
      let key = svc_key u in
      elim (c.services.get key w) [
        | none ↦ or_error w create_service_failed (c.services.create key (fresh_service u) w)
        | some s ↦
            if service_differs u s
            then or_error w update_service_failed (c.services.update key (repaired_service u s) w)
            else (w, none)
      ]

  -- Takes the owner and the routes of a resource out of the proxy that its annotations name, and
  -- deletes the proxy if no owner and no route is left.
  unfoldable pub detach : Cr → W → W
  detach u w = elim (c.proxies.get (prev_key u) w) [
    | none ↦ w
    | some p ↦
        let left = detached u.uid (prev_route u) p in
        if is_orphan left
        then after_call w (c.proxies.delete (prev_key u) w)
        else after_call w (c.proxies.update (prev_key u) left w)
  ]

  unfoldable pub cleanup_proxy_for_cr : Cr → W → W
  cleanup_proxy_for_cr u w = if is_empty (prev_proxy u) then w else detach u w

  -- The proxy of before, where the host has changed.
  unfoldable pub release : Cr → W → W
  release u w =
      if is_empty (prev_proxy u) || text_eq (prev_proxy u) (proxy_name u) then w else detach u w

  -- The resource is written with its annotations; an error is ignored.
  abbrev pub persisted : Cr → W → W × Cr × Option Error
  persisted u w = (after_call w (c.update_cr u w), u, none)

  abbrev pub after_create_proxy : Cr → W → Option W → W × Cr × Option Error
  after_create_proxy u w none = (w, u, some create_proxy_failed)
  after_create_proxy u w (some later) = persisted (annotated u) later

  abbrev pub after_update_proxy : Cr → W → Option W → W × Cr × Option Error
  after_update_proxy u w none = (w, u, some update_proxy_failed)
  after_update_proxy u w (some later) = persisted (with_finalizer (annotated u)) later

  abbrev pub claim_found : Cr → W → Option Proxy → W × Cr × Option Error
  claim_found u w none = after_create_proxy u w (c.proxies.create (proxy_key u) (fresh_proxy u) w)
  claim_found u w (some p) = after_update_proxy u w (c.proxies.update (proxy_key u) (merged u p) w)

  unfoldable pub claim : Cr → W → W × Cr × Option Error
  claim u w = claim_found u w (c.proxies.get (proxy_key u) w)

  -- The part of `ensureServiceAndProxy` after the service.
  unfoldable pub ensure_proxy : Cr → W → W × Cr × Option Error
  ensure_proxy u w = if is_empty u.ruta then (w, u, none) else claim u (release u w)

  unfoldable pub ensure_service_and_proxy : Cr → W → W × Cr × Option Error
  ensure_service_and_proxy u w =
      let (later, result) = ensure_service u w in
      elim result [ none ↦ ensure_proxy u later | some e ↦ (later, u, some e) ]

  -- The branch of `reconcileOne` for a resource that is being deleted.
  unfoldable pub reconcile_deleted : Cr → W → W × Cr
  reconcile_deleted u w =
      let cleaned = cleanup_proxy_for_cr u w in
      let left = record u { finalizers = without_text finalizer_name u.finalizers } in
      if length left.finalizers == length u.finalizers
      then (cleaned, u)
      else (after_call cleaned (c.update_cr left cleaned), left)
