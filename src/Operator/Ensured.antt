-- ===== src/Operator/Ensured.antt =====
-- The whole of `ensureServiceAndProxy`: the service, the old proxy, the new one, the annotations.
use mathlib.Core.Path.{fun_ext, subst}
use kubernetes_up_running.Base.{
  is_empty, ◌≡◌, ◌≢◌, ◌⊎◌, refl, ap, ◌∙◌, inl, inr, none, true, [], ◌∷◌, Bool-cases, Option-cases,
}
use kubernetes_up_running.Js.Text.{Text}
use kubernetes_up_running.Operator.{
  Cr, Client, IsCluster, IsHosted, proxy_key, annotated, fresh_proxy, merged,
}
use kubernetes_up_running.Operator.Api.{Key}
use kubernetes_up_running.Operator.Reconcile.{
  release, claim, ensure_proxy, ensure_service, ensure_service_and_proxy, with_finalizer,
  service_differs, repaired_service, fresh_service, svc_key, AcceptsService,
}
use kubernetes_up_running.Operator.Store.{get-claim, route_in, owned_by}
use kubernetes_up_running.Operator.Views.{routes, owners, released, claims, disowned, owns}
use kubernetes_up_running.Operator.Refinement.{ensure_proxy_result}

ensure_proxy_with_ruta :
    {W : Type 0} (c : Client W) (u : Cr) (w : W)
    → u.ruta ≢ []
    → ensure_proxy c u w ≡ claim c u (release c u w)
unfolding ensure_proxy
ensure_proxy_with_ruta c u w h = elim (Bool-cases (is_empty u.ruta)) [
  | inl e ↦ absurd (h (nil_of u.ruta e))
  | inr e ↦ rw e refl
]
  where
    nil_of : (s : Text) → is_empty s ≡ true → s ≡ []
    nil_of [] e = refl
    nil_of (x ∷ s) e = cc

module _ {W : Type 0} (c : Client W) (cluster : IsCluster c) where
  -- The service never fails, and the proxies are as before.
  ensure_service-result :
      (u : Cr) (w : W)
      → AcceptsService c u (c.services.get (svc_key u) w)
      → ((ensure_service c u w).1 ≡ none)
        × ((j : Key) → c.proxies.get j (ensure_service c u w).0 ≡ c.proxies.get j w)
  unfolding ensure_service
  ensure_service-result u w accepted =
      let key = svc_key u in
      elim (Option-cases (c.services.get key w)) [
        | inl absent ↦
            let (later, e, h) =
              cluster.services_reliable.created key (fresh_service u) w absent
                (subst (AcceptsService c u) absent accepted) in
            let kept = cluster.services_apart.create_keeps key (fresh_service u) w in
            rw (ensure_service, absent, e) (refl, λ j. rw e at (kept j))
        | inr (s, found) ↦ elim (Bool-cases (service_differs u s)) [
          | inl differs ↦
              let (later, e, h) =
                cluster.services_reliable.updated key (repaired_service u s) s w found
                  (subst (AcceptsService c u) found accepted) in
              let kept = cluster.services_apart.update_keeps key (repaired_service u s) w in
              rw (ensure_service, found, differs, e) (refl, λ j. rw e at (kept j))
          | inr same ↦ rw (ensure_service, found, same) (refl, λ j. refl)
        ]
      ]

  -- In a cluster that no one else changes, for a resource with a name and a `ruta`, whose service (the
  -- new one, or the one that is there with the selector, the port and the owner set) and whose proxy
  -- the API server accepts: the reconciliation ends without an error, and makes exactly the following
  -- true, whatever routes and owners were there before. The route
  -- that the resource has recorded serves no more, and the resource does not own the proxy recorded;
  -- then its own route serves its prefix in the proxy of its host, which it owns. For every other
  -- proxy, prefix and owner nothing has changed.
  pub ensure_service_and_proxy-claims :
      (u : Cr) (w : W) (k : Key) (q uid : Text)
      → u.name ≢ []
      → u.ruta ≢ []
      → AcceptsService c u (c.services.get (svc_key u) w)
      → IsHosted c u
      → let result = ensure_service_and_proxy c u w in
        (result.2 ≡ none)
        × (routes c result.0 k q ≡ claims u (released u (routes c w)) k q)
        × (owners c result.0 k uid ≡ owns u (disowned u (owners c w)) k uid)
  unfolding ensure_service_and_proxy
  ensure_service_and_proxy-claims u w k q uid named ruta accepted hosted =
      let w1 = (ensure_service c u w).0 in
      let (fine, kept) = ensure_service-result u w accepted in
      let with_ruta = ensure_proxy_with_ruta c u w1 ruta in
      let (route, owner) =
        ensure_proxy_result c cluster.proxies_reliable cluster.cr_apart u w1 k q uid named hosted in
      let done = get-claim c cluster.proxies_reliable cluster.cr_apart u (release c u w1) hosted in
      rw (ensure_service_and_proxy, fine, with_ruta)
        (
          done.0,
          route ∙ ap (λ p. claims u (released u (λ j t. route_in t (p j))) k q) (fun_ext kept),
          owner ∙ ap (λ p. owns u (disowned u (λ j t. owned_by t (p j))) k uid) (fun_ext kept),
        )

  -- A resource whose `ruta` is empty, and whose service is accepted, keeps what it had: the
  -- reconciliation ends without an error, and no route and no owner has changed, the recorded ones
  -- included.
  pub ensure_without_ruta :
      (u : Cr) (w : W) (k : Key) (q uid : Text)
      → u.ruta ≡ []
      → AcceptsService c u (c.services.get (svc_key u) w)
      → let result = ensure_service_and_proxy c u w in
        (result.2 ≡ none)
        × (routes c result.0 k q ≡ routes c w k q)
        × (owners c result.0 k uid ≡ owners c w k uid)
  unfolding ensure_service_and_proxy ensure_proxy
  ensure_without_ruta u w k q uid h accepted =
      let (fine, kept) = ensure_service-result u w accepted in
      rw (ensure_service_and_proxy, fine)
        (rw (ensure_proxy, ap is_empty h)
          (refl, ap (route_in q) (kept k), ap (owned_by uid) (kept k)))

  -- The resource that a reconciliation records.
  pub ensure-recorded :
      (u : Cr) (w : W)
      → u.ruta ≢ []
      → AcceptsService c u (c.services.get (svc_key u) w)
      → IsHosted c u
      → let later = (ensure_service_and_proxy c u w).1 in
        (later ≡ annotated u) ⊎ (later ≡ with_finalizer (annotated u))
  unfolding ensure_service_and_proxy claim
  ensure-recorded u w ruta accepted hosted =
      let w1 = (ensure_service c u w).0 in
      let (fine, kept) = ensure_service-result u w accepted in
      let with_ruta = ensure_proxy_with_ruta c u w1 ruta in
      let w2 = release c u w1 in
      rw (ensure_service_and_proxy, fine, with_ruta)
        (elim (Option-cases (c.proxies.get (proxy_key u) w2)) [
          | inl absent ↦
              let (later, e, h) =
                cluster.proxies_reliable.reliable.created (proxy_key u) (fresh_proxy u) w2 absent
                  hosted.fresh_accepted in
              inl (rw (claim, absent, e) refl)
          | inr (p, found) ↦
              let (later, e, h) =
                cluster.proxies_reliable.reliable.updated (proxy_key u) (merged u p) p w2 found (
                  hosted.merged_accepted u.annotations p
                    (cluster.proxies_reliable.stored (proxy_key u) p w2 found)) in
              inr (rw (claim, found, e) refl)
        ])
