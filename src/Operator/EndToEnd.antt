-- ===== src/Operator/EndToEnd.antt =====
-- The service that the operator deploys: multiplica/app.js in the container of the deployment.
use mathlib.Core.Path.{subst}
use kubernetes_up_running.Base.{
  ℕ, ◌≡◌, sym, ap, ◌∙◌, Option, some, none, true, false, List, [], ◌∷◌,
}
use kubernetes_up_running.Js.Text.{Text}
use kubernetes_up_running.Server.Maps.{lookup, IsMap}
use kubernetes_up_running.Express.{Request, Express}
use kubernetes_up_running.Floats.{Floats}
use kubernetes_up_running.Multiplica.{Body, multiplica_body, respond, operation_text, app}
use kubernetes_up_running.Multiplica.Answers.{cors_headers, multiplica_configured}
use kubernetes_up_running.Operator.{Deployment, Cr, Client, IsCluster}
use kubernetes_up_running.Operator.Deployments.{
  desired_multiplicador, multiplicador_of, is_positive, AcceptsDeployment, sprint_d, depl_key,
  multiplier_name, reconcile_one,
}
use kubernetes_up_running.Operator.Desired.{IsDeployed, Multiplies}
use kubernetes_up_running.Operator.Polling.Frames.{reconcile_one-deploys}
use kubernetes_up_running.Base.Int.{ℤ}

containers_of : (d e : Deployment) → some d ≡ some e → e.containers ≡ d.containers
containers_of d e h = let same : d ≡ e = cc in ap (λ x. x.containers) (sym same)

first_multiplies :
    (u : Cr) (o : Option Deployment) (d : Deployment) (envs : List (Text × Text))
    (others : List (List (Text × Text)))
    → IsDeployed u o
    → o ≡ some d
    → d.containers ≡ envs ∷ others
    → lookup multiplier_name envs ≡ some (sprint_d (desired_multiplicador u))
first_multiplies u o d envs others (e, there, desired) found first =
    subst (Multiplies (sprint_d (desired_multiplicador u)))
      (containers_of d e (sym found ∙ there) ∙ first) desired.2

-- In a cluster that no one else changes, for a resource that is not being deleted, has a positive
-- `multiplicador`, whose decimal digits `parseFloat` reads as a number, and whose deployment (a new one,
-- or the one that is there with what is wrong about it put right) the API server accepts: after the
-- reconciliation the first container of the deployment, with the environment that the deployment gives
-- it, if no name comes twice in that, answers GET /multiplica/x for a number x by status 200 with the
-- product of x and the resource's `multiplicador`.
pub deployed_multiplies :
    {W : Type 0} (c : Client W) (u : Cr) (n : ℤ) (w : W) (d : Deployment)
    (envs : List (Text × Text)) (others : List (List (Text × Text))) (fl : Floats)
    (express : Express (Body fl)) (host : Text) (fuel : ℕ) (r : Request) (param : Text)
    → IsCluster c
    → u.deleting ≡ false
    → u.multiplicador ≡ some n
    → is_positive n ≡ true
    → AcceptsDeployment c u (c.deployments.get (depl_key u) w)
    → c.deployments.get (depl_key u) (reconcile_one c u w).0 ≡ some d
    → d.containers ≡ envs ∷ others
    → IsMap envs
    → fl.is_nan (fl.parse_float (sprint_d n)) ≡ false
    → fl.is_nan (fl.parse_float param) ≡ false
    → r.method ≡ "GET"
    → r.body ≡ none
    → express.match_path "/multiplica/:number" r.path ≡ some (param ∷ [])
    → let multiplier = fl.parse_float (sprint_d n) in
      express.serve (app fl express (lookup multiplier_name envs) host fuel) r []
      ≡ respond fl 200 cors_headers (
          multiplica_body (record {
            input = fl.parse_float param;
            multiplier = multiplier;
            result = fl.times (fl.parse_float param) multiplier;
            operation = operation_text fl multiplier;
            host = host;
          }))
deployed_multiplies c u n w d envs others fl express host fuel r param cluster here given positive
      deployable found first once fine good get no_body matched =
    let deployed =
      reconcile_one-deploys c cluster u w deployable here
        (ap (λ o. is_positive (multiplicador_of o)) given ∙ positive) in
    let set_to : lookup multiplier_name envs ≡ some (sprint_d n) =
      first_multiplies u _ d envs others deployed found first
      ∙ ap (λ o. some (sprint_d (multiplicador_of o))) given in
    multiplica_configured fl express (lookup multiplier_name envs) host fuel r no_body param
      (sprint_d n) set_to fine good get matched
