-- ===== src/Multiplica/Tests.antt =====
-- The theorems on the multiplica application at concrete requests.
use Prim.Native.String.{String}
use text.Mathlib.Text.{◌==◌}
use kubernetes_up_running.Base.{Option, some, none, List, [], ◌∷◌, ◌&&◌, if◌then◌else◌}
use kubernetes_up_running.Js.Text.{Text, codes}
use kubernetes_up_running.Express.{Request, Express}
use kubernetes_up_running.Express.Sample as Router
use kubernetes_up_running.Floats.Sample as Arithmetic
use kubernetes_up_running.Multiplica.{Body, error_body}

abbrev match : String → String → Option (List Text)
match pattern path =
    if pattern == "/multiplica/:number" && path == "/multiplica/21"
    then some (codes "21" ∷ [])
    else if pattern == "/multiplica/:number" && path == "/multiplica/x"
    then some (codes "x" ∷ [])
    else none

abbrev router : Express (Body Arithmetic.sample)
router = Router.sample match (error_body "error" "")

abbrev get_request : String → Request
get_request path = record { method = "GET"; path = path; body = none }
