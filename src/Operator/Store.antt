-- ===== src/Operator/Store.antt =====
-- What the steps of the reconciliation leave in the store of proxies.
use kubernetes_up_running.Base.{
  is_empty, ◌≡◌, refl, sym, ap, ◌∙◌, inl, inr, Option, some, none, Bool, true, false, not, ◌&&◌,
  ◌||◌, List, [], ◌∷◌, arith, if◌then◌else◌, Bool-cases, Option-cases,
}
use kubernetes_up_running.Js.Text.{Text, text_eq, text_eq_refl, text_eq→eq}
use kubernetes_up_running.Operator.{
  IsProxyServer, IsHosted, Route, Proxy, Cr, Client, has_text, without_route, prev_proxy,
  prev_route, proxy_name, proxy_key, prev_key, route_prefix, route_of, detached, is_orphan, merged,
  fresh_proxy, annotated,
}
use kubernetes_up_running.Operator.Api.{Key, key_eq, Writes, Keeps, after_call}
use kubernetes_up_running.Operator.Reconcile.{detach, claim, with_finalizer}
use kubernetes_up_running.Operator.Routes.{
  find_route, find_route-without_route, find_route-merge_route, has_text-append,
  has_text-without_text,
}

-- The route of a prefix in a proxy, if the proxy exists.
abbrev pub route_in : Text → Option Proxy → Option Route
route_in q none = none
route_in q (some p) = find_route q p.routes

abbrev pub owned_by : Text → Option Proxy → Bool
owned_by uid none = false
owned_by uid (some p) = has_text uid p.owners

-- The prefix is the one that the resource has recorded.
abbrev pub is_prev : Cr → Text → Bool
is_prev u q = not (is_empty (prev_route u)) && text_eq (prev_route u) q

route_in-detached :
    (u : Cr) (q : Text) (p : Proxy)
    → find_route q (detached u.uid (prev_route u) p).routes
      ≡ (if is_prev u q then none else find_route q p.routes)
unfolding detached
route_in-detached u q p = elim (Bool-cases (is_empty (prev_route u))) [
  | inl e ↦ rw e refl
  | inr e ↦ rw e (find_route-without_route (prev_route u) q p.routes)
]

-- What `detach` leaves of a proxy.
abbrev pub remainder : Cr → Option Proxy → Option Proxy
remainder u none = none
remainder u (some p) =
    if is_orphan (detached u.uid (prev_route u) p)
    then none
    else some (detached u.uid (prev_route u) p)

-- A proxy with no owner and no route has nothing to find.
orphan_routes : (q : Text) (p : Proxy) → is_orphan p ≡ true → find_route q p.routes ≡ none
unfolding is_orphan find_route
orphan_routes q p h = go p.routes (ground (arith, h))
  where
    go : (routes : List Route) → is_empty routes ≡ true → find_route q routes ≡ none
    go [] e = refl
    go (r ∷ routes) e = cc

orphan_owners : (uid : Text) (p : Proxy) → is_orphan p ≡ true → has_text uid p.owners ≡ false
unfolding is_orphan has_text
orphan_owners uid p h = go p.owners (ground (arith, h))
  where
    go : (owners : List Text) → is_empty owners ≡ true → has_text uid owners ≡ false
    go [] e = refl
    go (o ∷ owners) e = cc

pub route_in-remainder :
    (u : Cr) (q : Text) (o : Option Proxy)
    → route_in q (remainder u o) ≡ (if is_prev u q then none else route_in q o)
route_in-remainder u q none = ground arith
route_in-remainder u q (some p) =
    let left = detached u.uid (prev_route u) p in
    elim (Bool-cases (is_orphan left)) [
      | inl e ↦ rw e (sym (orphan_routes q left e) ∙ route_in-detached u q p)
      | inr e ↦ rw e (route_in-detached u q p)
    ]

pub owned_by-remainder :
    (u : Cr) (v : Text) (o : Option Proxy)
    → owned_by v (remainder u o) ≡ (not (text_eq u.uid v) && owned_by v o)
unfolding detached
owned_by-remainder u v none = ground arith
owned_by-remainder u v (some p) =
    let left = detached u.uid (prev_route u) p in
    elim (Bool-cases (is_orphan left)) [
      | inl e ↦ rw e (sym (orphan_owners v left e) ∙ has_text-without_text v u.uid p.owners)
      | inr e ↦ rw e (has_text-without_text v u.uid p.owners)
    ]

-- What a claim makes of the proxy of a resource.
abbrev pub claimed : Cr → Option Proxy → Proxy
claimed u none = fresh_proxy u
claimed u (some p) = merged u p

-- The resource has recorded another route in the same proxy.
abbrev pub has_moved : Cr → Bool
has_moved u =
    text_eq (prev_proxy u) (proxy_name u)
    && not (is_empty (prev_route u))
    && not (text_eq (prev_route u) (route_prefix u))

pub route_in-claimed :
    (u : Cr) (q : Text) (o : Option Proxy)
    → find_route q (claimed u o).routes ≡ (
        if text_eq (route_prefix u) q
        then some (route_of u)
        else if has_moved u && text_eq (prev_route u) q
        then none
        else route_in q o)
unfolding fresh_proxy merged route_of find_route
route_in-claimed u q none = ground arith
route_in-claimed u q (some p) = elim (Bool-cases (has_moved u)) [
  | inl e ↦ rw e (
      find_route-merge_route (route_prefix u) q (route_of u) (without_route (prev_route u) p.routes)
        refl
      ∙ rw (find_route-without_route (prev_route u) q p.routes) refl)
  | inr e ↦ rw e (find_route-merge_route (route_prefix u) q (route_of u) p.routes refl)
]

pub owned_by-claimed :
    (u : Cr) (v : Text) (o : Option Proxy)
    → has_text v (claimed u o).owners ≡ (text_eq u.uid v || owned_by v o)
unfolding fresh_proxy merged has_text
owned_by-claimed u v none = ground arith
owned_by-claimed u v (some p) = elim (Bool-cases (has_text u.uid p.owners)) [
  | inl e ↦ rw e (elim (Bool-cases (text_eq u.uid v)) [
    | inl same ↦ rw same (ap (λ t. has_text t p.owners) (sym (text_eq→eq u.uid v same)) ∙ e)
    | inr other ↦ rw other refl
  ])
  | inr e ↦ rw e (has_text-append v u.uid p.owners)
]

pub key_eq_refl : (k : Key) → key_eq k k ≡ true
unfolding key_eq
key_eq_refl (ns, name) = rw (text_eq_refl ns, text_eq_refl name) refl

pub key_eq→eq : (k j : Key) → key_eq k j ≡ true → k ≡ j
unfolding key_eq
key_eq→eq (ns, name) (other_ns, other) h =
    ground (arith, h, text_eq→eq ns other_ns, text_eq→eq name other)

module _ {W : Type 0} (c : Client W) (reliable : IsProxyServer c) where
  get_after :
      (k : Key) (a : Option Proxy) (w : W) (result : Option W)
      → Writes c.proxies k a w result
      → (j : Key)
      → c.proxies.get j (after_call w result) ≡ (if key_eq k j then a else c.proxies.get j w)
  get_after k a w result (later, e, h) j = rw e (h j)

  absent_there :
      (k j : Key) (w : W)
      → c.proxies.get k w ≡ none
      → c.proxies.get j w ≡ (if key_eq k j then none else c.proxies.get j w)
  absent_there k j w absent = elim (Bool-cases (key_eq k j)) [
    | inl same ↦ rw same (ap (λ x. c.proxies.get x w) (sym (key_eq→eq k j same)) ∙ absent)
    | inr other ↦ rw other refl
  ]

  pub get-detach :
      (u : Cr) (w : W) (j : Key)
      → c.proxies.get j (detach c u w) ≡ (
          if key_eq (prev_key u) j
          then remainder u (c.proxies.get (prev_key u) w)
          else c.proxies.get j w)
  unfolding detach
  get-detach u w j = elim (Option-cases (c.proxies.get (prev_key u) w)) [
    | inl absent ↦ rw (detach, absent) (absent_there (prev_key u) j w absent)
    | inr (p, found) ↦ elim (Bool-cases (is_orphan (detached u.uid (prev_route u) p))) [
      | inl e ↦
          rw (detach, found, e)
            (get_after (prev_key u) none w (c.proxies.delete (prev_key u) w)
              (reliable.reliable.deleted (prev_key u) p w found) j)
      | inr e ↦
          let left = detached u.uid (prev_route u) p in
          rw (detach, found, e)
            (get_after (prev_key u) (some left) w (c.proxies.update (prev_key u) left w)
              (reliable.reliable.updated (prev_key u) left p w found (
                reliable.detached_accepted (prev_key u) u.uid (prev_route u) p
                  (reliable.stored (prev_key u) p w found)))
              j)
    ]
  ]

  -- Writing a resource leaves the proxies alone, whether or not the write succeeds.
  module _ (cr_apart : (u : Cr) (w : W) → Keeps c.proxies w (c.update_cr u w)) where
    -- `claim` succeeds, and only the proxy of the resource changes.
    pub get-claim :
        (u : Cr) (w : W)
        → IsHosted c u
        → ((claim c u w).2 ≡ none)
          × ((j : Key)
              → c.proxies.get j (claim c u w).0 ≡ (
                  if key_eq (proxy_key u) j
                  then some (claimed u (c.proxies.get (proxy_key u) w))
                  else c.proxies.get j w))
    unfolding claim
    get-claim u w hosted = elim (Option-cases (c.proxies.get (proxy_key u) w)) [
      | inl absent ↦
          let (later, e, h) =
            reliable.reliable.created (proxy_key u) (fresh_proxy u) w absent
              hosted.fresh_accepted in
          rw (claim, absent, e) (refl, λ j. cr_apart (annotated u) later j ∙ h j)
      | inr (p, found) ↦
          let (later, e, h) =
            reliable.reliable.updated (proxy_key u) (merged u p) p w found
              (hosted.merged_accepted u.annotations p (reliable.stored (proxy_key u) p w found)) in
          rw (claim, found, e) (refl, λ j. cr_apart (with_finalizer (annotated u)) later j ∙ h j)
    ]
