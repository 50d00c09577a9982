-- ===== src/Operator/Polling.antt =====
-- The loop of the operator: a round over all resources, each reconciled after the other.
pub mod Frames
pub mod Rounds
use mathlib.Core.Path.{subst}
use mathlib.Core.Bool.{false≢true}
use mathlib.Core.List.{append_cancel_right}
use kubernetes_up_running.Base.{
  is_empty, ◌≡◌, ◌≢◌, refl, sym, ap, ◌∙◌, inl, inr, Option, some, none, Bool, true, false, List, [],
  ◌∷◌, ◌∈◌, All, All-at, if◌then◌else◌, Bool-cases, Option-cases, length, ◌==◌,
}
use kubernetes_up_running.Js.Text.{codes}
use kubernetes_up_running.Operator.Store.{key_eq_refl, key_eq→eq}
use kubernetes_up_running.Operator.{
  Deployment, Cr, Client, IsCluster, Error, create_deployment_failed, update_deployment_failed,
  update_cr_failed, prev_proxy, without_text, namespace_of,
}
use kubernetes_up_running.Operator.Api.{Key, key_eq, after_call, Keeps}
use kubernetes_up_running.Operator.Reconcile.{
  detach, finalizer_name, or_error, ensure_service_and_proxy, cleanup_proxy_for_cr,
  reconcile_deleted,
}
use kubernetes_up_running.Operator.Frames.{
  ensure_service_and_proxy_keeps, detach_keeps, or_error-Keeps,
}
use kubernetes_up_running.Operator.Deployments.{
  desired_multiplicador, is_positive, depl_key, make_deployment, need_update, updated_deployment,
  marked_valid, marked_ready, marked_invalid, write_status, first_of, after_update, after_create,
  finish, update_if_needed, reconcile_found, reconcile_invalid, reconcile_valid, reconcile_one,
}
use kubernetes_up_running.Operator.Desired.{IsDeployed}
use kubernetes_up_running.Operator.Converged.{
  reconcile_one-IsDeployed, reconcile_one_valid, if_true, if_false, ensure_keeps,
  write_status_keeps,
}

module _ {W : Type 0} (c : Client W) where
  -- The loop over the listed resources; an error is only logged.
  unfoldable pub reconcile_items : List Cr → W → W
  reconcile_items [] w = w
  reconcile_items (u ∷ items) w = reconcile_items items (reconcile_one c u w).0

  abbrev reconcile_listed : Option (List Cr) → W → Option W
  reconcile_listed none w = none
  reconcile_listed (some items) w = some (reconcile_items items w)

  -- `reconcileAll`; `none` is the error of a listing that fails.
  unfoldable pub reconcile_all : (list : W → Option (List Cr)) → W → Option W
  unfolding reconcile_items
  reconcile_all list w = reconcile_listed (list w) w
