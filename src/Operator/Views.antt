-- ===== src/Operator/Views.antt =====
-- The routes and owners of all proxies, and what taking a resource out of its proxy does to them.
use kubernetes_up_running.Base.{
  is_empty, ◌≡◌, refl, ap, ◌∙◌, inl, inr, Option, some, none, Bool, true, false, not, ◌&&◌, arith,
  if◌then◌else◌, Bool-cases,
}
use kubernetes_up_running.Js.Text.{Text, text_eq}
use kubernetes_up_running.Operator.{
  IsProxyServer, Route, Cr, Client, prev_proxy, proxy_key, prev_key, route_prefix, route_of,
}
use kubernetes_up_running.Operator.Api.{Key, key_eq}
use kubernetes_up_running.Operator.Reconcile.{detach, cleanup_proxy_for_cr}
use kubernetes_up_running.Operator.Store.{
  route_in, owned_by, is_prev, key_eq→eq, route_in-remainder, owned_by-remainder, get-detach,
}

-- The abstract state: which route serves a prefix under a proxy's key, and who owns the proxy.
abbrev pub Routes : Type 0
Routes = Key → Text → Option Route

abbrev pub Owners : Type 0
Owners = Key → Text → Bool

abbrev pub routes : {W : Type 0} → Client W → W → Routes
routes c w k q = route_in q (c.proxies.get k w)

abbrev pub owners : {W : Type 0} → Client W → W → Owners
owners c w k uid = owned_by uid (c.proxies.get k w)

-- The route that the annotations name serves no more.
abbrev pub released : Cr → Routes → Routes
released u view k q =
    if not (is_empty (prev_proxy u)) && key_eq (prev_key u) k && is_prev u q then none else view k q

-- Its own route serves.
abbrev pub claims : Cr → Routes → Routes
claims u view k q =
    if key_eq (proxy_key u) k && text_eq (route_prefix u) q then some (route_of u) else view k q

abbrev pub disowned : Cr → Owners → Owners
disowned u view k uid =
    if not (is_empty (prev_proxy u)) && key_eq (prev_key u) k && text_eq u.uid uid
    then false
    else view k uid

abbrev pub owns : Cr → Owners → Owners
owns u view k uid = if key_eq (proxy_key u) k && text_eq u.uid uid then true else view k uid

module _ {W : Type 0} (c : Client W) (reliable : IsProxyServer c) where
  pub routes-detach :
      (u : Cr) (w : W) (k : Key) (q : Text)
      → routes c (detach c u w) k q
        ≡ (if key_eq (prev_key u) k && is_prev u q then none else routes c w k q)
  routes-detach u w k q =
      ap (route_in q) (get-detach c reliable u w k) ∙ elim (Bool-cases (key_eq (prev_key u) k)) [
        | inl same ↦ rw same (
            route_in-remainder u q (c.proxies.get (prev_key u) w)
            ∙ ap (λ x. if is_prev u q then none else routes c w x q)
                (key_eq→eq (prev_key u) k same))
        | inr other ↦ rw other refl
      ]

  pub owners-detach :
      (u : Cr) (w : W) (k : Key) (v : Text)
      → owners c (detach c u w) k v
        ≡ (if key_eq (prev_key u) k && text_eq u.uid v then false else owners c w k v)
  owners-detach u w k v =
      ap (owned_by v) (get-detach c reliable u w k) ∙ elim (Bool-cases (key_eq (prev_key u) k)) [
        | inl same ↦ rw same (
            owned_by-remainder u v (c.proxies.get (prev_key u) w)
            ∙ ap (λ x. not (text_eq u.uid v) && owners c w x v) (key_eq→eq (prev_key u) k same)
            ∙ ground arith)
        | inr other ↦ rw other refl
      ]

  -- For a resource that is being deleted, `cleanupProxyForCR` makes exactly the following true. In the
  -- proxy that its annotations name, no route has the recorded prefix, and the resource is no owner; for
  -- every other proxy, prefix and owner nothing has changed.
  pub cleanup_proxy_for_cr-released :
      (u : Cr) (w : W) (k : Key) (q uid : Text)
      → let cleaned = cleanup_proxy_for_cr c u w in
        (routes c cleaned k q ≡ released u (routes c w) k q)
        × (owners c cleaned k uid ≡ disowned u (owners c w) k uid)
  unfolding cleanup_proxy_for_cr
  cleanup_proxy_for_cr-released u w k q uid = elim (Bool-cases (is_empty (prev_proxy u))) [
    | inl e ↦ rw e (refl, refl)
    | inr e ↦ rw e (routes-detach u w k q, owners-detach u w k uid)
  ]
