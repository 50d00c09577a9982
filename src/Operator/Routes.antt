-- ===== src/Operator/Routes.antt =====
-- What the updates of a proxy do to a lookup of a route or an owner.
use kubernetes_up_running.Base.{
  ◌≡◌, refl, sym, ap, ◌∙◌, inl, inr, Option, some, none, true, false, not, ◌&&◌, ◌||◌, List, [],
  ◌∷◌, ◌++◌, arith, if◌then◌else◌, Bool-cases,
}
use kubernetes_up_running.Js.Text.{Text, text_eq, text_eq_refl, text_eq→eq}
use kubernetes_up_running.Operator.{
  Route, prefix_is, has_text, without_text, without_route, merge_route,
}

-- The first route with the prefix, which is the one that serves.
unfoldable pub find_route : Text → List Route → Option Route
find_route q [] = none
find_route q (r ∷ routes) =
    let rest = find_route q routes in if prefix_is q r.prefix then some r else rest

find_route_here :
    (q : Text) (r : Route) (routes : List Route)
    → prefix_is q r.prefix ≡ true
    → find_route q (r ∷ routes) ≡ some r
unfolding find_route
find_route_here q r routes e = rw (find_route, e) refl

find_route_there :
    (q : Text) (r : Route) (routes : List Route)
    → prefix_is q r.prefix ≡ false
    → find_route q (r ∷ routes) ≡ find_route q routes
unfolding find_route
find_route_there q r routes e = rw (find_route, e) refl

-- Two texts that a third one tells apart.
text_eq_apart : (s t q : Text) → text_eq t q ≡ false → text_eq s t ≡ true → text_eq s q ≡ false
text_eq_apart s t q e h = ap (λ x. text_eq x q) (text_eq→eq s t h) ∙ e

prefix_is_apart :
    (p : Option Text) (t q : Text)
    → text_eq t q ≡ false
    → prefix_is t p ≡ true
    → prefix_is q p ≡ false
prefix_is_apart none t q e h = refl
prefix_is_apart (some s) t q e h = text_eq_apart s t q e h

find_route_cons :
    (q : Text) (r : Route) (routes others : List Route)
    → find_route q routes ≡ find_route q others
    → find_route q (r ∷ routes) ≡ find_route q (r ∷ others)
unfolding find_route
find_route_cons q r routes others e = ap (λ x. if prefix_is q r.prefix then some r else x) e

without_route_same : (q : Text) (routes : List Route) → find_route q (without_route q routes) ≡ none
unfolding without_route find_route
without_route_same q [] = refl
without_route_same q (r ∷ routes) = elim (Bool-cases (prefix_is q r.prefix)) [
  | inl e ↦ rw (without_route, e) (without_route_same q routes)
  | inr e ↦
      rw (without_route, e)
        (find_route_there q r (without_route q routes) e ∙ without_route_same q routes)
]

without_route_other :
    (t q : Text) (routes : List Route)
    → text_eq t q ≡ false
    → find_route q (without_route t routes) ≡ find_route q routes
unfolding without_route find_route
without_route_other t q [] h = refl
without_route_other t q (r ∷ routes) h = elim (Bool-cases (prefix_is t r.prefix)) [
  | inl e ↦
      rw (without_route, e)
        (without_route_other t q routes h
          ∙ sym (find_route_there q r routes (prefix_is_apart r.prefix t q h e)))
  | inr e ↦
      rw (without_route, e)
        (find_route_cons q r (without_route t routes) routes (without_route_other t q routes h))
]

pub find_route-without_route :
    (t q : Text) (routes : List Route)
    → find_route q (without_route t routes) ≡ (if text_eq t q then none else find_route q routes)
find_route-without_route t q routes = elim (Bool-cases (text_eq t q)) [
  | inl e ↦ rw e (
      ap (λ p. find_route q (without_route p routes)) (text_eq→eq t q e)
      ∙ without_route_same q routes)
  | inr e ↦ rw e (without_route_other t q routes e)
]

-- A route with the prefix is of no other prefix.
prefix_of : (t q : Text) (p : Option Text) → p ≡ some t → prefix_is q p ≡ text_eq t q
prefix_of t q p h = ap (prefix_is q) h

merge_route_same :
    (t : Text) (route : Route) (routes : List Route)
    → route.prefix ≡ some t
    → find_route t (merge_route t route routes) ≡ some route
unfolding merge_route
merge_route_same t route [] h =
    find_route_here t route [] (prefix_of t t route.prefix h ∙ text_eq_refl t)
merge_route_same t route (r ∷ routes) h = elim (Bool-cases (prefix_is t r.prefix)) [
  | inl e ↦
      rw (merge_route, e)
        (find_route_here t route routes (prefix_of t t route.prefix h ∙ text_eq_refl t))
  | inr e ↦
      rw (merge_route, e)
        (find_route_there t r (merge_route t route routes) e ∙ merge_route_same t route routes h)
]

merge_route_other :
    (t q : Text) (route : Route) (routes : List Route)
    → route.prefix ≡ some t
    → text_eq t q ≡ false
    → find_route q (merge_route t route routes) ≡ find_route q routes
unfolding merge_route
merge_route_other t q route [] h n = find_route_there q route [] (prefix_of t q route.prefix h ∙ n)
merge_route_other t q route (r ∷ routes) h n = elim (Bool-cases (prefix_is t r.prefix)) [
  | inl e ↦
      rw (merge_route, e)
        (find_route_there q route routes (prefix_of t q route.prefix h ∙ n)
          ∙ sym (find_route_there q r routes (prefix_is_apart r.prefix t q n e)))
  | inr e ↦
      rw (merge_route, e)
        (find_route_cons q r (merge_route t route routes) routes
          (merge_route_other t q route routes h n))
]

pub find_route-merge_route :
    (t q : Text) (route : Route) (routes : List Route)
    → route.prefix ≡ some t
    → find_route q (merge_route t route routes)
      ≡ (if text_eq t q then some route else find_route q routes)
find_route-merge_route t q route routes h = elim (Bool-cases (text_eq t q)) [
  | inl e ↦ rw e (
      ap (λ p. find_route p (merge_route t route routes)) (sym (text_eq→eq t q e))
      ∙ merge_route_same t route routes h)
  | inr e ↦ rw e (merge_route_other t q route routes h e)
]

pub has_text-append :
    (t u : Text) (texts : List Text)
    → has_text t (texts ++ u ∷ []) ≡ (text_eq u t || has_text t texts)
unfolding has_text
has_text-append t u [] = refl
has_text-append t u (s ∷ texts) = ground (arith, has_text-append t u texts)

pub has_text-without_text :
    (t u : Text) (texts : List Text)
    → has_text t (without_text u texts) ≡ (not (text_eq u t) && has_text t texts)
unfolding has_text without_text
has_text-without_text t u [] = ground arith
has_text-without_text t u (s ∷ texts) =
    ground (arith, has_text-without_text t u texts, text_eq→eq s u, text_eq→eq u t)
