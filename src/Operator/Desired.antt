-- ===== src/Operator/Desired.antt =====
-- The deployment that a resource asks for.
use kubernetes_up_running.Base.{
  ◌≡◌, refl, ap, inl, inr, Option, some, none, true, false, List, [], ◌∷◌, ◌++◌, arith, Bool-cases,
}
use kubernetes_up_running.Base.Int.{ℤ, pos, negsuc}
use kubernetes_up_running.Js.Text.{Text, text_eq, text_eq_refl, text_eq→eq}
use kubernetes_up_running.Server.Maps.{lookup}
use kubernetes_up_running.Operator.{Deployment, Cr, OwnerRef, has_owner, with_owner, controller_ref}
use kubernetes_up_running.Operator.Deployments.{
  desired_replicas, desired_multiplicador, sprint_d, multiplier_name, make_deployment, env_matches,
  set_multiplier, first_matches, set_first, same_replicas, need_update, updated_deployment,
}

-- The first container, if there is one, sees the value under the name MULTIPLIER.
abbrev pub Multiplies : Text → List (List (Text × Text)) → Type 0
Multiplies value [] = Unit
Multiplies value (envs ∷ others) = lookup multiplier_name envs ≡ some value

-- The deployment is what the resource asks for.
abbrev pub IsDesired : Cr → Deployment → Type 0
IsDesired u d =
    (d.replicas ≡ some (desired_replicas u))
    × (has_owner u.uid d.owners ≡ true)
    × Multiplies (sprint_d (desired_multiplicador u)) d.containers

lookup-set_multiplier :
    (value : Text) (envs : List (Text × Text))
    → lookup multiplier_name (set_multiplier value envs) ≡ some value
unfolding set_multiplier lookup text_eq
lookup-set_multiplier value [] = refl
lookup-set_multiplier value ((name, v) ∷ envs) = elim (Bool-cases (text_eq name multiplier_name)) [
  | inl e ↦ rw (set_multiplier, e) (rw (lookup, e) refl)
  | inr e ↦ rw (set_multiplier, e) (rw (lookup, e) (lookup-set_multiplier value envs))
]

lookup_of_matches :
    (value : Text) (envs : List (Text × Text))
    → env_matches value envs ≡ true
    → lookup multiplier_name envs ≡ some value
unfolding lookup
lookup_of_matches value [] h = cc
lookup_of_matches value ((name, v) ∷ envs) h = elim (Bool-cases (text_eq name multiplier_name)) [
  | inl e ↦ rw (lookup, e) (ap some (text_eq→eq v value (rw e at h)))
  | inr e ↦ rw (lookup, e) (lookup_of_matches value envs (rw e at h))
]

same_replicas→eq : (n : ℤ) (o : Option ℤ) → same_replicas n o ≡ true → o ≡ some n
same_replicas→eq n none h = cc
same_replicas→eq (pos n) (some (pos m)) h = ground arith
same_replicas→eq (negsuc n) (some (negsuc m)) h = ground arith
same_replicas→eq (pos n) (some (negsuc m)) h = cc
same_replicas→eq (negsuc n) (some (pos m)) h = cc

has_owner_added :
    (u : Cr) (owners : List OwnerRef) → has_owner u.uid (owners ++ controller_ref u ∷ []) ≡ true
unfolding has_owner
has_owner_added u [] = rw (text_eq_refl u.uid) refl
has_owner_added u (o ∷ owners) = ground (arith, has_owner_added u owners)

has_owner-with_owner :
    (u : Cr) (owners : List OwnerRef) → has_owner u.uid (with_owner u owners) ≡ true
unfolding with_owner
has_owner-with_owner u owners = elim (Bool-cases (has_owner u.uid owners)) [
  | inl e ↦ rw (with_owner, e) e
  | inr e ↦ rw (with_owner, e) (has_owner_added u owners)
]

pub make_deployment-IsDesired : (u : Cr) → IsDesired u (make_deployment u)
unfolding make_deployment has_owner lookup text_eq
make_deployment-IsDesired u = (refl, rw (text_eq_refl u.uid) refl, refl)

pub updated_deployment-IsDesired : (u : Cr) (d : Deployment) → IsDesired u (updated_deployment u d)
unfolding updated_deployment
updated_deployment-IsDesired u d = (refl, has_owner-with_owner u d.owners, value d.containers)
  where
    value :
        (containers : List (List (Text × Text)))
        → Multiplies
            (sprint_d (desired_multiplicador u))
            (set_first (sprint_d (desired_multiplicador u)) containers)
    value [] = tt
    value (envs ∷ others) = lookup-set_multiplier (sprint_d (desired_multiplicador u)) envs

pub kept_deployment-IsDesired : (u : Cr) (d : Deployment) → need_update u d ≡ false → IsDesired u d
unfolding need_update
kept_deployment-IsDesired u d h = (
  same_replicas→eq (desired_replicas u) d.replicas (ground (arith, h)),
  ground (arith, h),
  value d.containers (ground (arith, h)),
)
  where
    value :
        (containers : List (List (Text × Text)))
        → first_matches (sprint_d (desired_multiplicador u)) containers ≡ true
        → Multiplies (sprint_d (desired_multiplicador u)) containers
    value [] e = tt
    value (envs ∷ others) e = lookup_of_matches (sprint_d (desired_multiplicador u)) envs e

-- There is a deployment, and it is what the resource asks for.
abbrev pub IsDeployed : Cr → Option Deployment → Type 0
IsDeployed u o = (d : Deployment) × (o ≡ some d) × IsDesired u d
