-- ===== src/Operator/Refinement.antt =====
-- What a reconciliation does to the routes and owners of all proxies: the resource gives up the route
-- that its annotations name and claims its own.
use kubernetes_up_running.Base.{
  is_empty, ◌≡◌, ◌≢◌, refl, sym, ap, ◌∙◌, inl, inr, Option, some, none, Bool, true, false, not,
  ◌&&◌, ◌||◌, [], ◌∷◌, arith, if◌then◌else◌, Bool-cases,
}
use kubernetes_up_running.Js.Text.{Text, text_eq, text_eq_refl, text_eq→eq}
use kubernetes_up_running.Operator.{
  IsHosted, IsProxyServer, Route, Cr, Client, namespace_of, prev_proxy, prev_route, proxy_name,
  proxy_name_of, proxy_key, prev_key, route_prefix, route_of,
}
use kubernetes_up_running.Operator.Api.{Key, key_eq, Keeps}
use kubernetes_up_running.Operator.Reconcile.{detach, release, claim}
use kubernetes_up_running.Operator.Store.{
  route_in, owned_by, is_prev, has_moved, key_eq→eq, route_in-claimed, owned_by-claimed, get-claim,
}
use kubernetes_up_running.Operator.Views.{
  routes, owners, released, claims, disowned, owns, routes-detach, owners-detach,
}

-- A resource has a name, and so has its proxy.
pub proxy_name_nonempty : (u : Cr) → u.name ≢ [] → is_empty (proxy_name u) ≡ false
unfolding proxy_name
proxy_name_nonempty u named = go u.host u.name named
  where
    go : (host name : Text) → name ≢ [] → is_empty (proxy_name_of name host) ≡ false
    go [] [] n = absurd (n refl)
    go [] (c ∷ name) n = refl
    go (c ∷ host) name n = refl

same_name :
    (u : Cr) (j : Key)
    → text_eq (prev_proxy u) (proxy_name u) ≡ true
    → key_eq (prev_key u) j ≡ key_eq (proxy_key u) j
unfolding key_eq prev_key proxy_key
same_name u (ns, name) e =
    ap (λ t. text_eq (namespace_of u.namespace) ns && text_eq t name)
      (text_eq→eq (prev_proxy u) (proxy_name u) e)

other_name :
    (u : Cr) (j : Key)
    → text_eq (prev_proxy u) (proxy_name u) ≡ false
    → key_eq (prev_key u) j ≡ true
    → key_eq (proxy_key u) j ≡ false
unfolding key_eq prev_key proxy_key
other_name u (ns, name) e h =
    let same = text_eq→eq (prev_proxy u) name (ground (arith, h)) in
    let apart : text_eq name (proxy_name u) ≡ false =
      ap (λ t. text_eq t (proxy_name u)) (sym same) ∙ e in
    ground (arith, apart, text_eq→eq (proxy_name u) name, text_eq_refl name)

same_nonempty :
    (u : Cr)
    → u.name ≢ []
    → text_eq (prev_proxy u) (proxy_name u) ≡ true
    → is_empty (prev_proxy u) ≡ false
same_nonempty u named e =
    ap is_empty (text_eq→eq (prev_proxy u) (proxy_name u) e) ∙ proxy_name_nonempty u named

same_prefix :
    (u : Cr) (q : Text)
    → text_eq (prev_route u) (route_prefix u) ≡ true
    → text_eq (prev_route u) q ≡ text_eq (route_prefix u) q
same_prefix u q e = ap (λ t. text_eq t q) (text_eq→eq (prev_route u) (route_prefix u) e)

-- The route of a prefix in the proxy of the resource.
abbrev claimed_route : Cr → Text → Option Route → Option Route
claimed_route u q before =
    if text_eq (route_prefix u) q
    then some (route_of u)
    else if has_moved u && text_eq (prev_route u) q
    then none
    else before

or_if : (a b : Bool) → (a || b) ≡ (if a then true else b)
or_if a b = ground arith

module _ {W : Type 0} (c : Client W) (reliable : IsProxyServer c) where
  release_kept :
      (u : Cr) (w : W)
      → (is_empty (prev_proxy u) || text_eq (prev_proxy u) (proxy_name u)) ≡ true
      → release c u w ≡ w
  unfolding release
  release_kept u w e = rw e refl

  release_left :
      (u : Cr) (w : W)
      → (is_empty (prev_proxy u) || text_eq (prev_proxy u) (proxy_name u)) ≡ false
      → release c u w ≡ detach c u w
  unfolding release
  release_left u w e = rw e refl

  abbrev is_left : Cr → Bool
  is_left u = not (is_empty (prev_proxy u) || text_eq (prev_proxy u) (proxy_name u))

  release-result :
      (u : Cr) (w : W) (k : Key) (q uid : Text)
      → (routes c (release c u w) k q
          ≡ (if is_left u && key_eq (prev_key u) k && is_prev u q then none else routes c w k q))
        × (owners c (release c u w) k uid ≡ (
            if is_left u && key_eq (prev_key u) k && text_eq u.uid uid
            then false
            else owners c w k uid))
  release-result u w k q uid =
      elim (Bool-cases (is_empty (prev_proxy u) || text_eq (prev_proxy u) (proxy_name u))) [
        | inl e ↦ rw (release_kept u w e, e) (refl, refl)
        | inr e ↦
            rw (release_left u w e, e)
              (routes-detach c reliable u w k q, owners-detach c reliable u w k uid)
      ]

  module _ (cr_apart : (u : Cr) (w : W) → Keeps c.proxies w (c.update_cr u w)) where
    claim-result :
        (u : Cr) (w : W) (k : Key) (q uid : Text)
        → IsHosted c u
        → (routes c (claim c u w).0 k q ≡ (
            if key_eq (proxy_key u) k && text_eq (route_prefix u) q
            then some (route_of u)
            else if key_eq (proxy_key u) k && has_moved u && text_eq (prev_route u) q
            then none
            else routes c w k q))
          × (owners c (claim c u w).0 k uid ≡ owns u (owners c w) k uid)
    claim-result u w k q uid hosted =
        let get = (get-claim c reliable cr_apart u w hosted).1 k in
        elim (Bool-cases (key_eq (proxy_key u) k)) [
          | inl same ↦
              let key = key_eq→eq (proxy_key u) k same in
              (
                ap (route_in q) get
                    ∙ rw same (
                        route_in-claimed u q (c.proxies.get (proxy_key u) w)
                        ∙ ap (λ x. claimed_route u q (routes c w x q)) key),
                ap (owned_by uid) get
                    ∙ rw same (
                        owned_by-claimed u uid (c.proxies.get (proxy_key u) w)
                        ∙ ap (λ x. text_eq u.uid uid || owners c w x uid) key
                        ∙ or_if (text_eq u.uid uid) (owners c w k uid)),
              )
          | inr other ↦ (ap (route_in q) get ∙ rw other refl, ap (owned_by uid) get ∙ rw other refl)
        ]

    -- The facts that join what is left with what is claimed.
    pub ensure_proxy_result :
        (u : Cr) (w : W) (k : Key) (q uid : Text)
        → u.name ≢ []
        → IsHosted c u
        → let later = (claim c u (release c u w)).0 in
          (routes c later k q ≡ claims u (released u (routes c w)) k q)
          × (owners c later k uid ≡ owns u (disowned u (owners c w)) k uid)
    ensure_proxy_result u w k q uid named hosted =
        let (left_route, left_owner) = release-result u w k q uid in
        let (route, owner) = claim-result u (release c u w) k q uid hosted in
        (
          route
              ∙ ap
                  (λ x.
                    if key_eq (proxy_key u) k && text_eq (route_prefix u) q
                    then some (route_of u)
                    else if key_eq (proxy_key u) k && has_moved u && text_eq (prev_route u) q
                    then none
                    else x)
                  left_route
              ∙ ground
                  (arith, same_name u k, other_name u k, same_nonempty u named, same_prefix u q),
          owner
              ∙ ap (λ x. if key_eq (proxy_key u) k && text_eq u.uid uid then true else x) left_owner
              ∙ ground (arith, same_name u k, other_name u k, same_nonempty u named),
        )
