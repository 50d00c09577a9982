-- ===== src/Operator/Sharing.antt =====
-- Resources that share a host, and so a proxy; and a resource that is reconciled again.
use mathlib.Core.Path.{subst}
use kubernetes_up_running.Base.{
  is_empty, ◌≡◌, ◌≢◌, refl, sym, ap, ◌∙◌, inl, inr, Option, some, none, Bool, false, ◌&&◌, [],
  arith, if◌then◌else◌,
}
use kubernetes_up_running.Js.Text.{Text, text_eq, text_eq_refl, codes}
use kubernetes_up_running.Server.Maps.{put, lookup-put}
use kubernetes_up_running.Operator.{
  Client, Cr, IsCluster, IsHosted, Route, annotated, fresh_proxy, merged, namespace_of, prev_key,
  prev_proxy, prev_route, proxy_key, proxy_name, route_of, route_prefix, text_or_empty,
}
use kubernetes_up_running.Operator.Api.{Key, key_eq}
use kubernetes_up_running.Operator.Reconcile.{
  svc_key, AcceptsService, cleanup_proxy_for_cr, ensure_service_and_proxy, with_finalizer,
}
use kubernetes_up_running.Operator.Store.{key_eq_refl}
use kubernetes_up_running.Operator.Views.{
  routes, owners, released, disowned, cleanup_proxy_for_cr-released,
}
use kubernetes_up_running.Operator.Refinement.{proxy_name_nonempty}
use kubernetes_up_running.Operator.Ensured.{ensure_service_and_proxy-claims, ensure-recorded}

-- `later` is the resource `u` with its proxy and its route recorded.
record IsRecorded (u later : Cr) : Type 0 where
  proxy_same : prev_proxy later ≡ proxy_name u
  route_same : prev_route later ≡ route_prefix u
  namespace_same : later.namespace ≡ u.namespace
  name_same : later.name ≡ u.name
  host_same : later.host ≡ u.host
  ruta_same : later.ruta ≡ u.ruta
  uid_same : later.uid ≡ u.uid

abbrev proxy_field : Text
proxy_field = codes "multiplicador.gz.com/proxy"

abbrev route_field : Text
route_field = codes "multiplicador.gz.com/proxy-route"

annotated-IsRecorded : (u : Cr) → IsRecorded u (annotated u)
unfolding annotated prev_proxy prev_route text_eq
annotated-IsRecorded u =
    let with_proxy = put proxy_field (proxy_name u) u.annotations in
    record {
      proxy_same = ap text_or_empty (
          lookup-put proxy_field route_field (route_prefix u) with_proxy
          ∙ lookup-put proxy_field proxy_field (proxy_name u) u.annotations);
      route_same =
          ap text_or_empty (lookup-put route_field route_field (route_prefix u) with_proxy);
      namespace_same = refl;
      name_same = refl;
      host_same = refl;
      ruta_same = refl;
      uid_same = refl;
    }

with_finalizer-IsRecorded :
    (u later : Cr) → IsRecorded u later → IsRecorded u (with_finalizer later)
unfolding with_finalizer prev_proxy prev_route
with_finalizer-IsRecorded u later r = record {
  proxy_same = r.proxy_same;
  route_same = r.route_same;
  namespace_same = r.namespace_same;
  name_same = r.name_same;
  host_same = r.host_same;
  ruta_same = r.ruta_same;
  uid_same = r.uid_same;
}

prev_key_recorded : (u later : Cr) → IsRecorded u later → prev_key later ≡ proxy_key u
unfolding prev_key proxy_key
prev_key_recorded u later r = λ i. (namespace_of (r.namespace_same i), r.proxy_same i)

proxy_key_recorded : (u later : Cr) → IsRecorded u later → proxy_key later ≡ proxy_key u
unfolding proxy_key proxy_name
proxy_key_recorded u later r = rw (r.namespace_same, r.name_same, r.host_same) refl

route_of_recorded : (u later : Cr) → IsRecorded u later → route_of later ≡ route_of u
unfolding route_of route_prefix
route_of_recorded u later r = rw (r.name_same, r.ruta_same) refl

route_prefix_recorded : (u later : Cr) → IsRecorded u later → route_prefix later ≡ route_prefix u
unfolding route_prefix
route_prefix_recorded u later r = rw r.ruta_same refl

prefix_nonempty : (u : Cr) → is_empty (route_prefix u) ≡ false
unfolding route_prefix
prefix_nonempty u = refl

-- What a recorded resource gives up is its own route.
released_recorded :
    (u later : Cr) (view : Key → Text → Option Route) (k : Key) (q : Text)
    → u.name ≢ []
    → IsRecorded u later
    → released later view k q
      ≡ (if key_eq (proxy_key u) k && text_eq (route_prefix u) q then none else view k q)
released_recorded u later view k q named r =
    rw
      (
        r.proxy_same,
        r.route_same,
        prev_key_recorded u later r,
        proxy_name_nonempty u named,
        prefix_nonempty u,
      )
      refl

disowned_recorded :
    (u later : Cr) (view : Key → Text → Bool) (k : Key) (uid : Text)
    → u.name ≢ []
    → IsRecorded u later
    → disowned later view k uid
      ≡ (if key_eq (proxy_key u) k && text_eq u.uid uid then false else view k uid)
disowned_recorded u later view k uid named r =
    rw (r.proxy_same, prev_key_recorded u later r, r.uid_same, proxy_name_nonempty u named) refl

annotated-IsHosted : {W : Type 0} (c : Client W) (u : Cr) → IsHosted c u → IsHosted c (annotated u)
unfolding annotated proxy_key proxy_name fresh_proxy merged route_of route_prefix prev_proxy
    prev_route
annotated-IsHosted c u h = record {
  fresh_accepted = h.fresh_accepted;
  merged_accepted = λ annotations p ok. h.merged_accepted annotations p ok;
}

with_finalizer-IsHosted :
    {W : Type 0} (c : Client W) (u : Cr) → IsHosted c u → IsHosted c (with_finalizer u)
unfolding with_finalizer proxy_key proxy_name fresh_proxy merged route_of route_prefix prev_proxy
    prev_route
with_finalizer-IsHosted c u h = record {
  fresh_accepted = h.fresh_accepted;
  merged_accepted = λ annotations p ok. h.merged_accepted annotations p ok;
}

module _ {W : Type 0} (c : Client W) (cluster : IsCluster c) where
  ensure-IsRecorded :
      (u : Cr) (w : W)
      → u.ruta ≢ []
      → AcceptsService c u (c.services.get (svc_key u) w)
      → IsHosted c u
      → IsRecorded u (ensure_service_and_proxy c u w).1
  ensure-IsRecorded u w ruta accepted hosted =
      elim (ensure-recorded c cluster u w ruta accepted hosted) [
        | inl e ↦ subst (IsRecorded u) (sym e) (annotated-IsRecorded u)
        | inr e ↦
            subst (IsRecorded u) (sym e)
              (with_finalizer-IsRecorded u (annotated u) (annotated-IsRecorded u))
      ]

  recorded-IsHosted :
      (u : Cr) (w : W)
      → u.ruta ≢ []
      → AcceptsService c u (c.services.get (svc_key u) w)
      → IsHosted c u
      → IsHosted c (ensure_service_and_proxy c u w).1
  recorded-IsHosted u w ruta accepted hosted =
      elim (ensure-recorded c cluster u w ruta accepted hosted) [
        | inl e ↦ subst (IsHosted c) (sym e) (annotated-IsHosted c u hosted)
        | inr e ↦
            subst (IsHosted c) (sym e)
              (with_finalizer-IsHosted c (annotated u) (annotated-IsHosted c u hosted))
      ]

  -- In a cluster that no one else changes, for a resource with a name and a `ruta`, whose proxy, and
  -- whose service at each time, the API server accepts: a second reconciliation, of the resource that
  -- the first one recorded, ends without an error and changes no route and no owner.
  pub ensure_again :
      (u : Cr) (w : W) (k : Key) (q uid : Text)
      → u.name ≢ []
      → u.ruta ≢ []
      → AcceptsService c u (c.services.get (svc_key u) w)
      → AcceptsService c (ensure_service_and_proxy c u w).1 (
          c.services.get
            (svc_key (ensure_service_and_proxy c u w).1)
            (ensure_service_and_proxy c u w).0)
      → IsHosted c u
      → let (first, recorded, error) = ensure_service_and_proxy c u w in
        let again = ensure_service_and_proxy c recorded first in
        (again.2 ≡ none)
        × (routes c again.0 k q ≡ routes c first k q)
        × (owners c again.0 k uid ≡ owners c first k uid)
  ensure_again u w k q uid named ruta accepted again hosted =
      let first = (ensure_service_and_proxy c u w).0 in
      let later = (ensure_service_and_proxy c u w).1 in
      let r = ensure-IsRecorded u w ruta accepted hosted in
      let (fine, route, owner) =
        ensure_service_and_proxy-claims c cluster u w k q uid named ruta accepted hosted in
      let (fine2, route2, owner2) =
        ensure_service_and_proxy-claims c cluster later first k q uid
          (λ e. named (sym r.name_same ∙ e)) (λ e. ruta (sym r.ruta_same ∙ e)) again
          (recorded-IsHosted u w ruta accepted hosted) in
      (
        fine2,
        route2
            ∙ rw
                (
                  released_recorded u later (routes c first) k q named r,
                  proxy_key_recorded u later r,
                  route_prefix_recorded u later r,
                  route_of_recorded u later r,
                )
                (ground (arith, route)),
        owner2
            ∙ rw
                (
                  disowned_recorded u later (owners c first) k uid named r,
                  proxy_key_recorded u later r,
                  r.uid_same,
                )
                (ground (arith, owner)),
      )

  -- In a cluster that no one else changes, for two resources with names and a `ruta` that share a
  -- proxy, and whose services and proxy the API server accepts: when both have been reconciled, one
  -- after the other, and the first one is deleted, then the second one's route still serves if its
  -- prefix is another one, and no route serves its prefix if it is the same.
  pub delete_sharing :
      (a b : Cr) (w : W)
      → a.name ≢ []
      → a.ruta ≢ []
      → b.name ≢ []
      → b.ruta ≢ []
      → proxy_key a ≡ proxy_key b
      → AcceptsService c a (c.services.get (svc_key a) w)
      → AcceptsService c b (c.services.get (svc_key b) (ensure_service_and_proxy c a w).0)
      → IsHosted c a
      → IsHosted c b
      → let (wa, recorded, error) = ensure_service_and_proxy c a w in
        let wb = (ensure_service_and_proxy c b wa).0 in
        (routes c wb (proxy_key b) (route_prefix b) ≡ some (route_of b))
        × (routes c (cleanup_proxy_for_cr c recorded wb) (proxy_key b) (route_prefix b)
            ≡ (if text_eq (route_prefix a) (route_prefix b) then none else some (route_of b)))
  delete_sharing a b w named_a ruta_a named_b ruta_b shared accepted_a accepted_b hosted_a
        hosted_b =
      let wa = (ensure_service_and_proxy c a w).0 in
      let recorded = (ensure_service_and_proxy c a w).1 in
      let wb = (ensure_service_and_proxy c b wa).0 in
      let r = ensure-IsRecorded a w ruta_a accepted_a hosted_a in
      let k = proxy_key b in
      let q = route_prefix b in
      let (fine, route, owner) =
        ensure_service_and_proxy-claims c cluster b wa k q b.uid named_b ruta_b accepted_b
          hosted_b in
      let (cleaned, kept) =
        cleanup_proxy_for_cr-released c cluster.proxies_reliable recorded wb k q b.uid in
      let here = key_eq_refl k in
      let serves = route ∙ rw (here, text_eq_refl q) refl in
      (
        serves,
        cleaned
            ∙ released_recorded a recorded (routes c wb) k q named_a r
            ∙ rw (shared, here, serves) refl,
      )
