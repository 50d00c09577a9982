-- ===== src/Operator/Converged.antt =====
-- What a reconciliation makes of the deployment.
use mathlib.Core.Path.{subst}
use kubernetes_up_running.Base.{
  ◌≡◌, ◌≢◌, refl, sym, ◌∙◌, inl, inr, Option, some, none, Bool, true, false, [], ◌∷◌, if◌then◌else◌,
  Bool-cases, Option-cases,
}
use kubernetes_up_running.Js.Text.{Text}
use kubernetes_up_running.Operator.{
  Deployment, Service, Cr, Client, IsCluster, IsHosted, Error, with_owner, proxy_key, proxy_name,
  fresh_proxy, merged, route_of, route_prefix, prev_proxy, prev_route,
}
use kubernetes_up_running.Operator.Api.{Key, after_call}
use kubernetes_up_running.Operator.Reconcile.{ensure_service_and_proxy, svc_key, AcceptsService}
use kubernetes_up_running.Operator.Store.{key_eq_refl}
use kubernetes_up_running.Operator.Ensured.{ensure_service_and_proxy-claims, ensure_without_ruta}
use kubernetes_up_running.Operator.Frames.{ensure_service_and_proxy_keeps}
use kubernetes_up_running.Operator.Deployments.{
  desired_multiplicador, is_positive, depl_key, make_deployment, need_update, updated_deployment,
  marked_valid, marked_ready, write_status, first_of, after_update, finish, update_if_needed,
  reconcile_valid, reconcile_one, AcceptsDeployment,
}
use kubernetes_up_running.Operator.Desired.{
  IsDeployed, make_deployment-IsDesired, updated_deployment-IsDesired, kept_deployment-IsDesired,
}

pub if_true : {A : Type 0} (b : Bool) (x y : A) → b ≡ true → (if b then x else y) ≡ x
if_true b x y e = rw e refl

pub if_false : {A : Type 0} (b : Bool) (x y : A) → b ≡ false → (if b then x else y) ≡ y
if_false b x y e = rw e refl

-- What two calls leave alone, the first of them that succeeds leaves alone.
first_of-keeps :
    {W A : Type 0} (look : W → A) (w : W) (status cr : Option W)
    → look (after_call w status) ≡ look w
    → look (after_call w cr) ≡ look w
    → look (after_call w (first_of status cr)) ≡ look w
first_of-keeps look w none cr h k = k
first_of-keeps look w (some later) cr h k = h

-- Marks on a resource make no difference to what is written for it.
pub marked_valid-AcceptsDeployment :
    {W : Type 0} (c : Client W) (u : Cr) (o : Option Deployment)
    → AcceptsDeployment c u o
    → AcceptsDeployment c (marked_valid u) o
unfolding marked_valid depl_key make_deployment updated_deployment with_owner
marked_valid-AcceptsDeployment c u none h = h
marked_valid-AcceptsDeployment c u (some d) h = h

marked_valid-AcceptsService :
    {W : Type 0} (c : Client W) (u : Cr) (o : Option Service)
    → AcceptsService c u o
    → AcceptsService c (marked_valid u) o
unfolding marked_valid with_owner
marked_valid-AcceptsService c u none h = h
marked_valid-AcceptsService c u (some s) h = h

marked_ready-AcceptsService :
    {W : Type 0} (c : Client W) (u : Cr) (o : Option Service)
    → AcceptsService c u o
    → AcceptsService c (marked_ready u) o
unfolding with_owner
marked_ready-AcceptsService c u none h = h
marked_ready-AcceptsService c u (some s) h = h

marked_valid-IsHosted :
    {W : Type 0} (c : Client W) (u : Cr) → IsHosted c u → IsHosted c (marked_valid u)
unfolding marked_valid proxy_key proxy_name fresh_proxy merged route_of route_prefix prev_proxy
    prev_route
marked_valid-IsHosted c u h = record {
  fresh_accepted = h.fresh_accepted;
  merged_accepted = λ annotations p ok. h.merged_accepted annotations p ok;
}

marked_ready-IsHosted :
    {W : Type 0} (c : Client W) (u : Cr) → IsHosted c u → IsHosted c (marked_ready u)
unfolding proxy_key proxy_name fresh_proxy merged route_of route_prefix prev_proxy prev_route
marked_ready-IsHosted c u h = record {
  fresh_accepted = h.fresh_accepted;
  merged_accepted = λ annotations p ok. h.merged_accepted annotations p ok;
}

module _ {W : Type 0} (c : Client W) (cluster : IsCluster c) where
  ensure_fine :
      (u : Cr) (w : W)
      → u.name ≢ []
      → AcceptsService c u (c.services.get (svc_key u) w)
      → IsHosted c u
      → (ensure_service_and_proxy c u w).2 ≡ none
  ensure_fine u w named accepted hosted = go u.ruta refl
    where
      go : (ruta : Text) → u.ruta ≡ ruta → (ensure_service_and_proxy c u w).2 ≡ none
      go [] e = (ensure_without_ruta c cluster u w ([], []) [] [] e accepted).0
      go (x ∷ ruta) e =
          (ensure_service_and_proxy-claims c cluster u w ([], []) [] [] named (λ n. cc) accepted
            hosted).0

  pub ensure_keeps :
      (u : Cr) (w : W) (j : Key)
      → c.deployments.get j (ensure_service_and_proxy c u w).0 ≡ c.deployments.get j w
  ensure_keeps =
      ensure_service_and_proxy_keeps c c.deployments cluster.deployments_services
        cluster.deployments_proxies cluster.deployments_cr

  pub write_status_keeps :
      (u : Cr) (w : W) (j : Key)
      → c.deployments.get j (after_call w (write_status c u w)) ≡ c.deployments.get j w
  write_status_keeps u w j =
      first_of-keeps (c.deployments.get j) w (c.update_status u w) (c.update_cr u w)
        (cluster.deployments_status u w j) (cluster.deployments_cr u w j)

  write_status_keeps_services :
      (u : Cr) (w : W) (j : Key)
      → c.services.get j (after_call w (write_status c u w)) ≡ c.services.get j w
  write_status_keeps_services u w j =
      first_of-keeps (c.services.get j) w (c.update_status u w) (c.update_cr u w)
        (cluster.services_status u w j) (cluster.services_cr u w j)

  finish_result :
      (u : Cr) (t : W × Cr × Option Error) (j : Key)
      → t.2 ≡ none
      → ((finish c t).2 ≡ none) × (c.deployments.get j (finish c t).0 ≡ c.deployments.get j t.0)
  finish_result u (w, v, none) j h = (refl, write_status_keeps (marked_ready v) w j)
  finish_result u (w, v, some e) j h = cc

  after_update_result :
      (u : Cr) (t : W × Option Error)
      → u.name ≢ []
      → t.1 ≡ none
      → AcceptsService c u (c.services.get (svc_key u) t.0)
      → IsHosted c u
      → IsDeployed u (c.deployments.get (depl_key u) t.0)
      → ((after_update c u t).2 ≡ none)
        × IsDeployed u (c.deployments.get (depl_key u) (after_update c u t).0)
  after_update_result u (later, some e) named h accepted hosted deployed = cc
  after_update_result u (later, none) named h accepted hosted (d, there, desired) =
      let (fine, kept) =
        finish_result u (ensure_service_and_proxy c u later) (depl_key u)
          (ensure_fine u later named accepted hosted) in
      (fine, (d, kept ∙ ensure_keeps u later (depl_key u) ∙ there, desired))

  pub update_if_needed_result :
      (u : Cr) (d : Deployment) (w : W)
      → c.deployments.get (depl_key u) w ≡ some d
      → AcceptsDeployment c u (some d)
      → ((update_if_needed c u d w).1 ≡ none)
        × IsDeployed u (c.deployments.get (depl_key u) (update_if_needed c u d w).0)
        × (c.services.get (svc_key u) (update_if_needed c u d w).0 ≡ c.services.get (svc_key u) w)
  update_if_needed_result u d w found accepted = elim (Bool-cases (need_update u d)) [
    | inl needed ↦
        let left = updated_deployment u d in
        let (later, e, h) =
          cluster.deployments_reliable.updated (depl_key u) left d w found accepted in
        let kept = cluster.services_deployments.update_keeps (depl_key u) left w (svc_key u) in
        rw (needed, e)
          (
            refl,
            (
              left,
              h (depl_key u) ∙ rw (key_eq_refl (depl_key u)) refl,
              updated_deployment-IsDesired u d,
            ),
            rw e at kept,
          )
    | inr kept ↦ rw kept (refl, (d, found, kept_deployment-IsDesired u d kept), refl)
  ]

  reconcile_found_result :
      (u : Cr) (w : W)
      → u.name ≢ []
      → AcceptsDeployment c u (c.deployments.get (depl_key u) w)
      → AcceptsService c u (c.services.get (svc_key u) w)
      → IsHosted c u
      → ((reconcile_valid c u w).2 ≡ none)
        × IsDeployed u (c.deployments.get (depl_key u) (reconcile_valid c u w).0)
  unfolding reconcile_valid
  reconcile_found_result u w named deployable accepted hosted =
      elim (Option-cases (c.deployments.get (depl_key u) w)) [
        | inl absent ↦
            let d = make_deployment u in
            let (later, e, h) =
              cluster.deployments_reliable.created (depl_key u) d w absent
                (subst (AcceptsDeployment c u) absent deployable) in
            let kept = cluster.services_deployments.create_keeps (depl_key u) d w (svc_key u) in
            let written = after_call later (write_status c (marked_ready u) later) in
            let stored =
              ensure_keeps (marked_ready u) written (depl_key u)
              ∙ write_status_keeps (marked_ready u) later (depl_key u)
              ∙ h (depl_key u)
              ∙ rw (key_eq_refl (depl_key u)) refl in
            let same : c.services.get (svc_key u) written ≡ c.services.get (svc_key u) w =
              write_status_keeps_services (marked_ready u) later (svc_key u) ∙ (rw e at kept) in
            rw (reconcile_valid, absent, e)
              (
                ensure_fine (marked_ready u) written named
                    (marked_ready-AcceptsService c u _
                      (subst (AcceptsService c u) (sym same) accepted))
                    (marked_ready-IsHosted c u hosted),
                (d, stored, make_deployment-IsDesired u),
              )
        | inr (d, found) ↦
            let (fine, deployed, same) =
              update_if_needed_result u d w found
                (subst (AcceptsDeployment c u) found deployable) in
            rw (reconcile_valid, found)
              (after_update_result u (update_if_needed c u d w) named fine
                (subst (AcceptsService c u) (sym same) accepted) hosted deployed)
      ]

  pub reconcile_one_valid :
      (u : Cr) (w : W)
      → u.deleting ≡ false
      → is_positive (desired_multiplicador u) ≡ true
      → reconcile_one c u w
        ≡ reconcile_valid c (marked_valid u) (after_call w (c.update_cr (marked_valid u) w))
  unfolding reconcile_one
  reconcile_one_valid u w here positive =
      if_false u.deleting _ _ here ∙ if_true (is_positive (desired_multiplicador u)) _ _ positive

  -- In a cluster that no one else changes, for a resource that has a name, is not being deleted,
  -- has a positive `multiplicador` (or none), and whose deployment, service and proxy the API
  -- server accepts: the reconciliation ends without an error, and there is then a deployment with
  -- the number of replicas (as an int32; 1 if none is given), which the resource owns and whose
  -- first container, if it has one, finds the multiplier in decimal digits (2 if none is given)
  -- under the first entry MULTIPLIER.
  pub reconcile_one-IsDeployed :
      (u : Cr) (w : W)
      → u.name ≢ []
      → AcceptsDeployment c u (c.deployments.get (depl_key u) w)
      → AcceptsService c u (c.services.get (svc_key u) w)
      → IsHosted c u
      → u.deleting ≡ false
      → is_positive (desired_multiplicador u) ≡ true
      → let result = reconcile_one c u w in
        (result.2 ≡ none) × IsDeployed u (c.deployments.get (depl_key u) result.0)
  unfolding marked_valid depl_key
  reconcile_one-IsDeployed u w named deployable accepted hosted here positive =
      let later = after_call w (c.update_cr (marked_valid u) w) in
      subst (λ t. (t.2 ≡ none) × IsDeployed u (c.deployments.get (depl_key u) t.0))
        (sym (reconcile_one_valid u w here positive))
        (reconcile_found_result (marked_valid u) (after_call w (c.update_cr (marked_valid u) w))
          named
          (marked_valid-AcceptsDeployment c u _ (
            subst (AcceptsDeployment c u)
              (sym (cluster.deployments_cr (marked_valid u) w (depl_key u))) deployable))
          (marked_valid-AcceptsService c u _ (
            subst (AcceptsService c u) (sym (cluster.services_cr (marked_valid u) w (svc_key u)))
              accepted))
          (marked_valid-IsHosted c u hosted))
