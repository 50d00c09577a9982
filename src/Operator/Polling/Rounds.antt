-- ===== src/Operator/Polling/Rounds.antt =====
-- What a round over all resources leaves.
use mathlib.Core.Path.{subst}
use mathlib.Core.Bool.{false≢true}
use mathlib.Core.List.{append_cancel_right}
use kubernetes_up_running.Base.{
  ◌≡◌, refl, sym, ap, ◌∙◌, inl, inr, Option, some, true, false, List, [], ◌∷◌, ◌∈◌, All, All-at,
  Bool-cases,
}
use kubernetes_up_running.Js.Text.{codes}
use kubernetes_up_running.Operator.Store.{key_eq_refl, key_eq→eq}
use kubernetes_up_running.Operator.{Cr, Client, IsCluster, namespace_of}
use kubernetes_up_running.Operator.Api.{Key, key_eq}
use kubernetes_up_running.Operator.Deployments.{
  desired_multiplicador, multiplicador_of, is_positive, depl_key, reconcile_one, AcceptsDeployment,
}
use kubernetes_up_running.Operator.Desired.{IsDeployed}
use kubernetes_up_running.Base.Int.{ℤ}
use kubernetes_up_running.Operator.Polling.{reconcile_items, reconcile_all}
use kubernetes_up_running.Operator.Polling.Frames.{reconcile_one_keeps, reconcile_one-deploys}

-- No two resources have the same namespace and name.
abbrev IsOther : Cr → Cr → Type 0
IsOther u v = key_eq (namespace_of v.namespace, v.name) (namespace_of u.namespace, u.name) ≡ false

abbrev pub IsDistinct : List Cr → Type 0
IsDistinct [] = Unit
IsDistinct (u ∷ items) = All (IsOther u) items × IsDistinct items

other_key : (u v : Cr) → IsOther u v → key_eq (depl_key v) (depl_key u) ≡ false
unfolding depl_key
other_key u v other = elim (Bool-cases (key_eq (depl_key v) (depl_key u))) [
  | inl e ↦
      let same = key_eq→eq (depl_key v) (depl_key u) e in
      let name = append_cancel_right v.name u.name (codes "-multiplicador") (ap (λ k. k.1) same) in
      let equal : (namespace_of v.namespace, v.name) ≡ (namespace_of u.namespace, u.name) =
        λ i. (ap (λ k. k.0) same i, name i) in
      absurd (
        false≢true (
          sym other
          ∙ ap (λ k. key_eq k (namespace_of u.namespace, u.name)) equal
          ∙ key_eq_refl (namespace_of u.namespace, u.name)))
  | inr e ↦ e
]

key_eq_sym : (k j : Key) → key_eq k j ≡ false → key_eq j k ≡ false
key_eq_sym k j h = elim (Bool-cases (key_eq j k)) [
  | inl e ↦
      let same : k ≡ j = sym (key_eq→eq j k e) in
      absurd (false≢true (sym h ∙ ap (λ t. key_eq t j) same ∙ key_eq_refl j))
  | inr e ↦ e
]

other_key_sym : (v u : Cr) → IsOther v u → key_eq (depl_key v) (depl_key u) ≡ false
other_key_sym v u other = key_eq_sym (depl_key u) (depl_key v) (other_key v u other)

module _ {W : Type 0} (c : Client W) (cluster : IsCluster c) where
  items_keep :
      (u : Cr) (items : List Cr) (w : W)
      → All (IsOther u) items
      → c.deployments.get (depl_key u) (reconcile_items c items w)
        ≡ c.deployments.get (depl_key u) w
  unfolding reconcile_items
  items_keep u [] w h = refl
  items_keep u (v ∷ items) w (other, rest) =
      items_keep u items (reconcile_one c v w).0 rest
      ∙ reconcile_one_keeps c cluster v w (depl_key u) (other_key u v other)

  items-IsDeployed :
      (items : List Cr) (w : W) (u : Cr)
      → IsDistinct items
      → u ∈ items
      → AcceptsDeployment c u (c.deployments.get (depl_key u) w)
      → u.deleting ≡ false
      → is_positive (desired_multiplicador u) ≡ true
      → IsDeployed u (c.deployments.get (depl_key u) (reconcile_items c items w))
  unfolding reconcile_items
  items-IsDeployed [] w u distinct m deployable live positive = absurd m
  items-IsDeployed (v ∷ items) w u (others, distinct) (inl e) deployable live positive =
      subst
        (λ x.
          IsDeployed u
            (c.deployments.get (depl_key u) (reconcile_items c items (reconcile_one c x w).0)))
        e
        (subst (IsDeployed u)
          (sym (
            items_keep u items (reconcile_one c u w).0
              (subst (λ x. All (IsOther x) items) (sym e) others)))
          (reconcile_one-deploys c cluster u w deployable live positive))
  items-IsDeployed (v ∷ items) w u (others, distinct) (inr m) deployable live positive =
      items-IsDeployed items (reconcile_one c v w).0 u distinct m
        (subst (AcceptsDeployment c u)
          (sym (
            reconcile_one_keeps c cluster v w (depl_key u)
              (other_key_sym v u (All-at (IsOther v) items others u m))))
          deployable)
        live positive

  -- In a cluster that no one else changes, where no two resources have the same namespace and name: a
  -- round over all resources that are listed, valid or not, being deleted or not, ends, and afterwards
  -- every listed one that is not being deleted, has a positive `multiplicador`, and whose deployment (a
  -- new one, or the one that is there with what is wrong about it put right) the API server accepts has
  -- the deployment that it asks for, whatever the reconciliation of the others did.
  pub reconcile_all-IsDeployed :
      (list : W → Option (List Cr)) (w : W) (items : List Cr)
      → list w ≡ some items
      → IsDistinct items
      → (u : Cr) (n : ℤ) → u ∈ items
      → u.deleting ≡ false
      → u.multiplicador ≡ some n
      → is_positive n ≡ true
      → AcceptsDeployment c u (c.deployments.get (depl_key u) w)
      → (later : W) × (reconcile_all c list w ≡ some later)
        × IsDeployed u (c.deployments.get (depl_key u) later)
  unfolding reconcile_all
  reconcile_all-IsDeployed list w items listed distinct u n m live given positive deployable = (
    reconcile_items c items w,
    rw listed refl,
    items-IsDeployed items w u distinct m deployable live
        (ap (λ o. is_positive (multiplicador_of o)) given ∙ positive),
  )
