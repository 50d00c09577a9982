-- ===== src/Operator/Polling/Frames.antt =====
-- The deployments that the reconciliation of a resource does not concern.
use mathlib.Core.Path.{subst}
use kubernetes_up_running.Base.{
  true, sym, is_empty, ◌≡◌, refl, ap, ◌∙◌, inl, inr, Option, some, none, false, Bool-cases,
  Option-cases, length, ◌==◌,
}
use kubernetes_up_running.Operator.{
  Deployment, Cr, Client, IsCluster, Error, create_deployment_failed, update_deployment_failed,
  update_cr_failed, prev_proxy, without_text,
}
use kubernetes_up_running.Operator.Api.{Key, key_eq, after_call}
use kubernetes_up_running.Operator.Reconcile.{
  finalizer_name, or_error, ensure_service_and_proxy, cleanup_proxy_for_cr, reconcile_deleted,
}
use kubernetes_up_running.Operator.Frames.{detach_keeps, or_error-Keeps}
use kubernetes_up_running.Operator.Deployments.{
  desired_multiplicador, is_positive, depl_key, make_deployment, need_update, updated_deployment,
  marked_valid, marked_ready, marked_invalid, write_status, after_update, after_create, finish,
  update_if_needed, reconcile_invalid, reconcile_valid, reconcile_one, AcceptsDeployment,
}
use kubernetes_up_running.Operator.Desired.{IsDeployed, make_deployment-IsDesired}
use kubernetes_up_running.Operator.Store.{key_eq_refl}
use kubernetes_up_running.Operator.Converged.{
  marked_valid-AcceptsDeployment, update_if_needed_result, reconcile_one_valid, if_true, if_false,
  ensure_keeps, write_status_keeps,
}

module _ {W : Type 0} (c : Client W) (cluster : IsCluster c) where
  other_deployment :
      (w : W) (e : Error) (j : Key) (result : Option W)
      → c.deployments.get j (after_call w result) ≡ c.deployments.get j w
      → c.deployments.get j (or_error c w e result).0 ≡ c.deployments.get j w
  other_deployment w e j none h = refl
  other_deployment w e j (some later) h = h

  reconcile_deleted_keeps :
      (u : Cr) (w : W) (j : Key)
      → c.deployments.get j (reconcile_deleted c u w).0 ≡ c.deployments.get j w
  unfolding reconcile_deleted cleanup_proxy_for_cr
  reconcile_deleted_keeps u w j =
      let left = record u { finalizers = without_text finalizer_name u.finalizers } in
      let cleaned = cleanup_proxy_for_cr c u w in
      let cleaned_keeps : c.deployments.get j cleaned ≡ c.deployments.get j w =
        elim (Bool-cases (is_empty (prev_proxy u))) [
          | inl e ↦ rw e refl
          | inr e ↦ rw e (
              detach_keeps c c.deployments cluster.deployments_services cluster.deployments_proxies
                cluster.deployments_cr u w j)
        ] in
      elim (Bool-cases (length left.finalizers == length u.finalizers)) [
        | inl e ↦ rw e cleaned_keeps
        | inr e ↦ rw e (cluster.deployments_cr left cleaned j ∙ cleaned_keeps)
      ]

  finish_keeps :
      (t : W × Cr × Option Error) (j : Key)
      → c.deployments.get j (finish c t).0 ≡ c.deployments.get j t.0
  finish_keeps (w, v, none) j = write_status_keeps c cluster (marked_ready v) w j
  finish_keeps (w, v, some e) j = refl

  pub after_update_keeps :
      (u : Cr) (t : W × Option Error) (j : Key)
      → c.deployments.get j (after_update c u t).0 ≡ c.deployments.get j t.0
  after_update_keeps u (w, none) j =
      finish_keeps (ensure_service_and_proxy c u w) j ∙ ensure_keeps c cluster u w j
  after_update_keeps u (w, some e) j = refl

  pub after_create_keeps :
      (u : Cr) (w : W) (t : W × Option Error) (j : Key)
      → c.deployments.get j (after_create c u w t).0 ≡ c.deployments.get j t.0
  after_create_keeps u w (later, none) j =
      ensure_keeps c cluster (marked_ready u)
        (after_call later (write_status c (marked_ready u) later)) j
      ∙ write_status_keeps c cluster (marked_ready u) later j
  after_create_keeps u w (later, some e) j = refl

  update_if_needed_keeps :
      (u : Cr) (d : Deployment) (w : W) (j : Key)
      → c.deployments.get (depl_key u) w ≡ some d
      → key_eq (depl_key u) j ≡ false
      → c.deployments.get j (update_if_needed c u d w).0 ≡ c.deployments.get j w
  update_if_needed_keeps u d w j found other = elim (Bool-cases (need_update u d)) [
    | inl e ↦
        let left = updated_deployment u d in
        rw e (
          other_deployment w update_deployment_failed j (c.deployments.update (depl_key u) left w)
            (cluster.deployments_reliable.update_alone (depl_key u) left w j other))
    | inr e ↦ rw e refl
  ]

  reconcile_valid_keeps :
      (u : Cr) (w : W) (j : Key)
      → key_eq (depl_key u) j ≡ false
      → c.deployments.get j (reconcile_valid c u w).0 ≡ c.deployments.get j w
  unfolding reconcile_valid
  reconcile_valid_keeps u w j other = elim (Option-cases (c.deployments.get (depl_key u) w)) [
    | inl absent ↦
        let d = make_deployment u in
        let result = c.deployments.create (depl_key u) d w in
        rw (reconcile_valid, absent)
          (after_create_keeps u w (or_error c w create_deployment_failed result) j
            ∙ other_deployment w create_deployment_failed j result
                (cluster.deployments_reliable.create_alone (depl_key u) d w j other))
    | inr (d, found) ↦
        rw (reconcile_valid, found)
          (after_update_keeps u (update_if_needed c u d w) j
            ∙ update_if_needed_keeps u d w j found other)
  ]

  reconcile_invalid_keeps :
      (u : Cr) (w : W) (j : Key)
      → c.deployments.get j (reconcile_invalid c u w).0 ≡ c.deployments.get j w
  reconcile_invalid_keeps u w j =
      or_error-Keeps c c.deployments cluster.deployments_services cluster.deployments_proxies
        cluster.deployments_cr w update_cr_failed (write_status c (marked_invalid u) w)
        (write_status_keeps c cluster (marked_invalid u) w) j

  -- The reconciliation of a resource leaves the deployments of others alone.
  pub reconcile_one_keeps :
      (u : Cr) (w : W) (j : Key)
      → key_eq (depl_key u) j ≡ false
      → c.deployments.get j (reconcile_one c u w).0 ≡ c.deployments.get j w
  unfolding reconcile_one marked_valid depl_key
  reconcile_one_keeps u w j other =
      let kept : W × Cr × Option Error → Option Deployment = λ t. c.deployments.get j t.0 in
      elim (Bool-cases u.deleting) [
        | inl e ↦
            ap {A = W × Cr × Option Error} kept (if_true u.deleting _ _ e)
            ∙ reconcile_deleted_keeps u w j
        | inr e ↦ elim (Bool-cases (is_positive (desired_multiplicador u))) [
          | inl positive ↦
              ap {A = W × Cr × Option Error} kept (reconcile_one_valid c cluster u w e positive)
              ∙ reconcile_valid_keeps (marked_valid u)
                  (after_call w (c.update_cr (marked_valid u) w)) j other
              ∙ cluster.deployments_cr (marked_valid u) w j
          | inr negative ↦
              ap {A = W × Cr × Option Error} kept (
                if_false u.deleting _ _ e
                ∙ if_false (is_positive (desired_multiplicador u)) _ _ negative)
              ∙ reconcile_invalid_keeps u w j
        ]
      ]

  -- For a resource whose deployment the API server accepts, the deployment is there in the end, also
  -- where the service or the proxy fails.
  reconcile_valid-IsDeployed :
      (u : Cr) (w : W)
      → AcceptsDeployment c u (c.deployments.get (depl_key u) w)
      → IsDeployed u (c.deployments.get (depl_key u) (reconcile_valid c u w).0)
  unfolding reconcile_valid
  reconcile_valid-IsDeployed u w deployable =
      elim (Option-cases (c.deployments.get (depl_key u) w)) [
        | inl absent ↦
            let d = make_deployment u in
            let (later, e, h) =
              cluster.deployments_reliable.created (depl_key u) d w absent
                (subst (AcceptsDeployment c u) absent deployable) in
            rw (reconcile_valid, absent, e)
              (
                d,
                after_create_keeps u w (later, none) (depl_key u)
                    ∙ h (depl_key u)
                    ∙ rw (key_eq_refl (depl_key u)) refl,
                make_deployment-IsDesired u,
              )
        | inr (d, found) ↦
            let (fine, (e, there, desired), same) =
              update_if_needed_result c cluster u d w found
                (subst (AcceptsDeployment c u) found deployable) in
            rw (reconcile_valid, found)
              (e, after_update_keeps u (update_if_needed c u d w) (depl_key u) ∙ there, desired)
      ]

  pub reconcile_one-deploys :
      (u : Cr) (w : W)
      → AcceptsDeployment c u (c.deployments.get (depl_key u) w)
      → u.deleting ≡ false
      → is_positive (desired_multiplicador u) ≡ true
      → IsDeployed u (c.deployments.get (depl_key u) (reconcile_one c u w).0)
  unfolding marked_valid depl_key
  reconcile_one-deploys u w deployable here positive =
      let later = after_call w (c.update_cr (marked_valid u) w) in
      subst (λ (t : W × Cr × Option Error). IsDeployed u (c.deployments.get (depl_key u) t.0))
        (sym (reconcile_one_valid c cluster u w here positive))
        (reconcile_valid-IsDeployed (marked_valid u) later (
          marked_valid-AcceptsDeployment c u _ (
            subst (AcceptsDeployment c u)
              (sym (cluster.deployments_cr (marked_valid u) w (depl_key u))) deployable)))
