-- ===== src/Operator/Deployments.antt =====
-- `reconcileOne` of the operator: the deployment of a resource, and all that follows from it.
use kubernetes_up_running.Base.{
  suc, ◌-◌, ◌%◌, Option, some, none, Bool, true, false, not, ◌||◌, List, [], ◌∷◌, ltb, ◌==◌,
  if◌then◌else◌, ◌≡◌,
}
use kubernetes_up_running.Base.Int.{ℤ, pos, negsuc}
use kubernetes_up_running.Js.Text.{Text, text_eq, codes, to_decimal}
use kubernetes_up_running.Server.Maps.{put}
use kubernetes_up_running.Operator.{
  Deployment, ready, invalid, Cr, Client, Error, create_deployment_failed, update_deployment_failed,
  update_cr_failed, namespace_of, depl_name, has_owner, with_owner, controller_ref,
}
use kubernetes_up_running.Operator.Api.{Key, after_call}
use kubernetes_up_running.Operator.Reconcile.{ensure_service_and_proxy, reconcile_deleted, or_error}

-- `int32(n)`
unfoldable pub to_int32 : ℤ → ℤ
to_int32 (pos n) =
    let low = n % 4294967296 in if ltb low 2147483648 then pos low else negsuc (4294967295 - low)
to_int32 (negsuc n) =
    let low = n % 4294967296 in if ltb low 2147483648 then negsuc low else pos (4294967295 - low)

abbrev replicas_of : Option ℤ → ℤ
replicas_of none = pos 1
replicas_of (some n) = to_int32 n

abbrev pub desired_replicas : Cr → ℤ
desired_replicas u = replicas_of u.replicas

abbrev pub multiplicador_of : Option ℤ → ℤ
multiplicador_of none = pos 2
multiplicador_of (some n) = n

abbrev pub desired_multiplicador : Cr → ℤ
desired_multiplicador u = multiplicador_of u.multiplicador

abbrev pub is_positive : ℤ → Bool
is_positive (pos n) = ltb 0 n
is_positive (negsuc n) = false

abbrev pub eq_ℤ : ℤ → ℤ → Bool
eq_ℤ (pos m) (pos n) = m == n
eq_ℤ (negsuc m) (negsuc n) = m == n
eq_ℤ (pos m) (negsuc n) = false
eq_ℤ (negsuc m) (pos n) = false

-- `fmt.Sprintf("%d", n)`
unfoldable pub sprint_d : ℤ → Text
sprint_d (pos n) = to_decimal n
sprint_d (negsuc n) = b'-' ∷ to_decimal (suc n)

unfoldable pub depl_key : Cr → Key
depl_key u = (namespace_of u.namespace, depl_name u)

abbrev pub multiplier_name : Text
multiplier_name = codes "MULTIPLIER"

unfoldable pub make_deployment : Cr → Deployment
make_deployment u = record {
  replicas = some (desired_replicas u);
  owners = controller_ref u ∷ [];
  containers = ((multiplier_name, sprint_d (desired_multiplicador u)) ∷ []) ∷ [];
}

-- The first entry of the name has the value.
abbrev pub env_matches : Text → List (Text × Text) → Bool
env_matches value [] = false
env_matches value ((name, v) ∷ envs) =
    let rest = env_matches value envs in
    if text_eq name multiplier_name then text_eq v value else rest

unfoldable pub set_multiplier : Text → List (Text × Text) → List (Text × Text)
set_multiplier value [] = (multiplier_name, value) ∷ []
set_multiplier value ((name, v) ∷ envs) =
    let rest = set_multiplier value envs in
    if text_eq name multiplier_name then (name, value) ∷ envs else (name, v) ∷ rest

abbrev pub first_matches : Text → List (List (Text × Text)) → Bool
first_matches value [] = true
first_matches value (envs ∷ others) = env_matches value envs

abbrev pub set_first : Text → List (List (Text × Text)) → List (List (Text × Text))
set_first value [] = []
set_first value (envs ∷ others) = set_multiplier value envs ∷ others

abbrev pub same_replicas : ℤ → Option ℤ → Bool
same_replicas n none = false
same_replicas n (some m) = eq_ℤ m n

unfoldable pub need_update : Cr → Deployment → Bool
need_update u d =
    not (same_replicas (desired_replicas u) d.replicas)
    || not (has_owner u.uid d.owners)
    || not (first_matches (sprint_d (desired_multiplicador u)) d.containers)

unfoldable pub updated_deployment : Cr → Deployment → Deployment
updated_deployment u d = record {
  replicas = some (desired_replicas u);
  owners = with_owner u d.owners;
  containers = set_first (sprint_d (desired_multiplicador u)) d.containers;
}

-- The API server accepts the deployment that the operator writes: a new one, or the one that is there
-- with what is wrong about it put right.
abbrev pub AcceptsDeployment : {W : Type 0} → Client W → Cr → Option Deployment → Type 0
AcceptsDeployment c u none = c.deployments.accepts (depl_key u) (make_deployment u) ≡ true
AcceptsDeployment c u (some d) = c.deployments.accepts (depl_key u) (updated_deployment u d) ≡ true

-- The annotations and the status of a resource whose `multiplicador` is not positive.
unfoldable pub marked_invalid : Cr → Cr
marked_invalid u = record u {
  annotations =
      put (codes "multiplicador.gz.com/error") (codes "el multiplicador tiene que ser positivo")
        (put (codes "multiplicador.gz.com/valid") (codes "false") u.annotations);
  status = some invalid;
}

unfoldable pub marked_valid : Cr → Cr
marked_valid u = record u {
  annotations =
      put (codes "multiplicador.gz.com/multiplicador") (sprint_d (desired_multiplicador u))
        (put (codes "multiplicador.gz.com/valid") (codes "true") u.annotations);
}

abbrev pub marked_ready : Cr → Cr
marked_ready u = record u { status = some (ready (desired_replicas u) (desired_multiplicador u)) }

abbrev pub first_of : {A : Type 0} → Option A → Option A → Option A
first_of none other = other
first_of (some a) other = some a

module _ {W : Type 0} (c : Client W) where
  -- `UpdateStatus`, and `Update` where it fails.
  abbrev pub write_status : Cr → W → Option W
  write_status u w = first_of (c.update_status u w) (c.update_cr u w)

  abbrev pub reconcile_invalid : Cr → W → W × Cr × Option Error
  reconcile_invalid u w =
      let (later, error) = or_error c w update_cr_failed (write_status (marked_invalid u) w) in
      (later, marked_invalid u, error)

  -- After the deployment has been created: the status, then the service and the proxy.
  abbrev pub after_create : Cr → W → W × Option Error → W × Cr × Option Error
  after_create u w (later, some e) = (later, u, some e)
  after_create u w (later, none) =
      ensure_service_and_proxy c (marked_ready u)
        (after_call later (write_status (marked_ready u) later))

  abbrev pub finish : W × Cr × Option Error → W × Cr × Option Error
  finish (w, u, some e) = (w, u, some e)
  finish (w, u, none) = (after_call w (write_status (marked_ready u) w), marked_ready u, none)

  -- After the deployment has been compared: the service and the proxy, then the status.
  abbrev pub after_update : Cr → W × Option Error → W × Cr × Option Error
  after_update u (later, some e) = (later, u, some e)
  after_update u (later, none) = finish (ensure_service_and_proxy c u later)

  abbrev pub update_if_needed : Cr → Deployment → W → W × Option Error
  update_if_needed u d w =
      if need_update u d
      then or_error c w update_deployment_failed
          (c.deployments.update (depl_key u) (updated_deployment u d) w)
      else (w, none)

  abbrev pub reconcile_found : Cr → W → Option Deployment → W × Cr × Option Error
  reconcile_found u w none = after_create u w (
      or_error c w create_deployment_failed
        (c.deployments.create (depl_key u) (make_deployment u) w))
  reconcile_found u w (some d) = after_update u (update_if_needed u d w)

  unfoldable pub reconcile_valid : Cr → W → W × Cr × Option Error
  reconcile_valid u w = reconcile_found u w (c.deployments.get (depl_key u) w)

  unfoldable pub reconcile_one : Cr → W → W × Cr × Option Error
  unfolding reconcile_deleted
  reconcile_one u w =
      if u.deleting
      then (let (later, left) = reconcile_deleted c u w in (later, left, none))
      else if is_positive (desired_multiplicador u)
      then reconcile_valid (marked_valid u) (after_call w (c.update_cr (marked_valid u) w))
      else reconcile_invalid u w
