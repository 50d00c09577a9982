-- ===== src/Operator/Frames.antt =====
-- Objects that the service and the proxy of a resource do not concern.
use kubernetes_up_running.Base.{
  is_empty, ◌≡◌, refl, ◌∙◌, inl, inr, Option, some, none, ◌||◌, Bool-cases, Option-cases,
}
use kubernetes_up_running.Js.Text.{text_eq}
use kubernetes_up_running.Operator.{
  Proxy, Cr, Client, Error, create_service_failed, update_service_failed, prev_proxy, prev_route,
  proxy_name, proxy_key, prev_key, detached, is_orphan, merged, fresh_proxy, annotated,
}
use kubernetes_up_running.Operator.Api.{Key, Resource, IsApart, Keeps}
use kubernetes_up_running.Operator.Reconcile.{
  svc_key, or_error, ensure_service, detach, release, after_create_proxy, after_update_proxy,
  claim_found, claim, ensure_proxy, ensure_service_and_proxy, with_finalizer, service_differs,
  repaired_service, fresh_service,
}

module _ {W A : Type 0} (c : Client W) (r : Resource W A) (services : IsApart r c.services)
    (proxies : IsApart r c.proxies) (crs : (u : Cr) (w : W) → Keeps r w (c.update_cr u w)) where
  pub or_error-Keeps :
      (w : W) (e : Error) (result : Option W)
      → Keeps r w result
      → (j : Key) → r.get j (or_error c w e result).0 ≡ r.get j w
  or_error-Keeps w e none h j = refl
  or_error-Keeps w e (some later) h j = h j

  ensure_service_keeps : (u : Cr) (w : W) (j : Key) → r.get j (ensure_service c u w).0 ≡ r.get j w
  unfolding ensure_service
  ensure_service_keeps u w j =
      let key = svc_key u in
      elim (Option-cases (c.services.get key w)) [
        | inl absent ↦
            rw (ensure_service, absent)
              (or_error-Keeps w create_service_failed (c.services.create key (fresh_service u) w)
                (services.create_keeps key (fresh_service u) w) j)
        | inr (s, found) ↦ elim (Bool-cases (service_differs u s)) [
          | inl differs ↦
              rw (ensure_service, found, differs)
                (or_error-Keeps w update_service_failed
                  (c.services.update key (repaired_service u s) w)
                  (services.update_keeps key (repaired_service u s) w) j)
          | inr same ↦ rw (ensure_service, found, same) refl
        ]
      ]

  pub detach_keeps : (u : Cr) (w : W) (j : Key) → r.get j (detach c u w) ≡ r.get j w
  unfolding detach
  detach_keeps u w j = elim (Option-cases (c.proxies.get (prev_key u) w)) [
    | inl absent ↦ rw (detach, absent) refl
    | inr (p, found) ↦
        let left = detached u.uid (prev_route u) p in
        elim (Bool-cases (is_orphan left)) [
          | inl e ↦ rw (detach, found, e) (proxies.delete_keeps (prev_key u) w j)
          | inr e ↦ rw (detach, found, e) (proxies.update_keeps (prev_key u) left w j)
        ]
  ]

  release_keeps : (u : Cr) (w : W) (j : Key) → r.get j (release c u w) ≡ r.get j w
  unfolding release
  release_keeps u w j =
      elim (Bool-cases (is_empty (prev_proxy u) || text_eq (prev_proxy u) (proxy_name u))) [
        | inl e ↦ rw e refl
        | inr e ↦ rw e (detach_keeps u w j)
      ]

  created-Keeps :
      (u : Cr) (w : W) (result : Option W)
      → Keeps r w result
      → (j : Key) → r.get j (after_create_proxy c u w result).0 ≡ r.get j w
  created-Keeps u w none h j = refl
  created-Keeps u w (some later) h j = crs (annotated u) later j ∙ h j

  updated-Keeps :
      (u : Cr) (w : W) (result : Option W)
      → Keeps r w result
      → (j : Key) → r.get j (after_update_proxy c u w result).0 ≡ r.get j w
  updated-Keeps u w none h j = refl
  updated-Keeps u w (some later) h j = crs (with_finalizer (annotated u)) later j ∙ h j

  claim_found_keeps :
      (u : Cr) (w : W) (o : Option Proxy) (j : Key) → r.get j (claim_found c u w o).0 ≡ r.get j w
  claim_found_keeps u w none j =
      created-Keeps u w (c.proxies.create (proxy_key u) (fresh_proxy u) w)
        (proxies.create_keeps (proxy_key u) (fresh_proxy u) w) j
  claim_found_keeps u w (some p) j =
      updated-Keeps u w (c.proxies.update (proxy_key u) (merged u p) w)
        (proxies.update_keeps (proxy_key u) (merged u p) w) j

  ensure_proxy_keeps : (u : Cr) (w : W) (j : Key) → r.get j (ensure_proxy c u w).0 ≡ r.get j w
  unfolding ensure_proxy claim
  ensure_proxy_keeps u w j = elim (Bool-cases (is_empty u.ruta)) [
    | inl e ↦ rw e refl
    | inr e ↦
        let w1 = release c u w in
        rw e (claim_found_keeps u w1 (c.proxies.get (proxy_key u) w1) j ∙ release_keeps u w j)
  ]

  pub ensure_service_and_proxy_keeps :
      (u : Cr) (w : W) (j : Key) → r.get j (ensure_service_and_proxy c u w).0 ≡ r.get j w
  unfolding ensure_service_and_proxy
  ensure_service_and_proxy_keeps u w j = elim (Option-cases (ensure_service c u w).1) [
    | inl fine ↦
        rw (ensure_service_and_proxy, fine)
          (ensure_proxy_keeps u (ensure_service c u w).0 j ∙ ensure_service_keeps u w j)
    | inr (e, failed) ↦ rw (ensure_service_and_proxy, failed) (ensure_service_keeps u w j)
  ]
