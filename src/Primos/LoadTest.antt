-- ===== src/Primos/LoadTest.antt =====
-- ejemplos/9 replicasets/test-primos.js: the k6 script that loads the service. k6, its report and the
-- transport of requests are parameters.
use kubernetes_up_running.Base.{ℕ, Option, some, none, Bool, false, List, [], ◌∷◌, ◌++◌, ◌==◌}
use kubernetes_up_running.Js.Text.{Text, codes}

-- The ramp of virtual users.
pub record Stage : Type 0 where
  pub duration : Text
  pub target : ℕ

abbrev stage : Text → ℕ → Stage
stage duration target = record { duration = duration; target = target }

unfoldable pub stages : List Stage
stages =
    stage (codes "1m30s") 8
    ∷ stage (codes "30s") 8
    ∷ stage (codes "2m") 2
    ∷ stage (codes "1m") 2
    ∷ stage (codes "40s") 1
    ∷ stage (codes "20s") 0
    ∷ []

-- `value || fallback` for a variable of the environment.
abbrev pub variable_or : Option Text → Text → Text
variable_or none fallback = fallback
variable_or (some []) fallback = fallback
variable_or (some (c ∷ value)) fallback = c ∷ value

unfoldable pub hostname : Option Text → Text
hostname hostname_api = variable_or hostname_api (codes "gz.com")

unfoldable pub reports_path : Option Text → Text
reports_path path = variable_or path (codes "resultados/k6/reports")

unfoldable pub url : Option Text → Text
unfolding hostname
url hostname_api = codes "http://" ++ hostname hostname_api ++ codes "/load/1/10"

-- `res.status === 200`; a request without a response has the status 0.
abbrev status_is_200 : Option ℕ → Bool
status_is_200 none = false
status_is_200 (some status) = status == 200

-- The default function: the checks of an iteration, at the status of the response that `get` gives. It
-- then sleeps.
unfoldable pub iteration : (get : Text → Option ℕ) → Option Text → List (Text × Bool)
unfolding url
iteration get hostname_api = (codes "status is 200", status_is_200 (get (url hostname_api))) ∷ []

-- The files of the report with their contents.
unfoldable pub handle_summary :
    {Data : Type 0}
    → (html_report stringify : Data → Text) → Option Text
    → Data
    → List (Text × Text)
unfolding reports_path
handle_summary html_report stringify path summary =
    (reports_path path ++ codes "/replicasets_report.html", html_report summary)
    ∷ (reports_path path ++ codes "/replicasets_report.json", stringify summary)
    ∷ []
