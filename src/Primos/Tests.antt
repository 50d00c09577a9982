-- ===== src/Primos/Tests.antt =====
-- Runs of the primos application, and its theorems at concrete requests.
use Prim.Native.String.{String}
use mathlib.Core.Bool.{false≢true}
use text.Mathlib.Text.{◌==◌}
use text.Mathlib.TextEquality.{eq_iff}
use kubernetes_up_running.Base.{
  ℕ, ◌⊎◌, ◌<◌, ◌*◌, ◌≡◌, refl, sym, ◌∙◌, inl, ◌≢◌, Option, some, none, true, false, List, [], ◌∷◌,
  ◌++◌, arith, length, if◌then◌else◌, ◌&&◌,
}
use kubernetes_up_running.Base.Int.{pos}
use kubernetes_up_running.Js.Number.{int}
use kubernetes_up_running.Js.Text.{Text, codes, to_decimal}
use kubernetes_up_running.Express.{Request, Express, reply}
use kubernetes_up_running.Express.Sample as Router
use kubernetes_up_running.Floats.Sample as Arithmetic
use kubernetes_up_running.Load.{value, operation_text}
use kubernetes_up_running.Load.Cpu.{sum_below}
use kubernetes_up_running.Primos.Search.{es_primo, obtener_primos}
use kubernetes_up_running.Primos.Prime.{Decides, es_primo-Decides}
use kubernetes_up_running.Primos.Listing.{ListsPrimesBelow, AreTooMany}
use kubernetes_up_running.Primos.Server.{
  Body, primos_body, load_body, error_body, not_found_body, respond, app,
}
use kubernetes_up_running.Primos.Server.Answers.{
  cors_headers, primos_decimal, load_decimal, load_too_large, not_found_otherwise,
}

first_primes :
    obtener_primos 40 (int (pos 30)) ≡ value (2 ∷ 3 ∷ 5 ∷ 7 ∷ 11 ∷ 13 ∷ 17 ∷ 19 ∷ 23 ∷ 29 ∷ [])
unfolding obtener_primos
first_primes = refl

larger : (es_primo 7919 ≡ some true) × (es_primo 7921 ≡ some false)
unfolding es_primo
larger = (refl, refl)

abbrev match : String → String → Option (List Text)
match pattern path =
    if pattern == "/primos/:number" && path == "/primos/30"
    then some (to_decimal 30 ∷ [])
    else if pattern == "/primos/:number" && path == "/primos/-1"
    then some (codes "-1" ∷ [])
    else if pattern == "/load/:cpu/:mem" && path == "/load/1/10"
    then some (to_decimal 1 ∷ to_decimal 10 ∷ [])
    else if pattern == "/load/:cpu/:mem" && path == "/load/1/40000"
    then some (to_decimal 1 ∷ to_decimal 40000 ∷ [])
    else none

abbrev router : Express (Body Arithmetic.sample)
router = Router.sample match (error_body "error" "")

abbrev get_request : String → Request
get_request path = record { method = "GET"; path = path; body = none }

different : (s t : String) → (s == t) ≡ false → s ≢ t
different s t e h = false≢true (sym e ∙ (eq_iff s t).1 h)

options_ne_get : ◌≢◌ {A = String} "OPTIONS" "GET"
options_ne_get = different _ _ refl

options_ne_head : ◌≢◌ {A = String} "OPTIONS" "HEAD"
options_ne_head = different _ _ refl

es_primo-Decides_example : Decides 91 (es_primo 91)
es_primo-Decides_example = es_primo-Decides 91

primos_decimal_example :
    ((l : List ℕ) × ListsPrimesBelow 31 l
      × (length l < 4294967296)
      × (router.serve (app Arithmetic.sample router (codes "h") 40) (get_request "/primos/30") []
          ≡ respond Arithmetic.sample 200 cors_headers (
              primos_body (record {
                input = int (pos 30);
                primos = l;
                cantidad = length l;
                operation = codes "números primos hasta " ++ to_decimal 30;
                host = codes "h";
              }))))
    ⊎ (AreTooMany 30
        × (router.serve (app Arithmetic.sample router (codes "h") 40) (get_request "/primos/30") []
            ≡ reply (router.error_response cors_headers)))
primos_decimal_example =
    primos_decimal Arithmetic.sample router (codes "h") 40 (get_request "/primos/30") refl 30
      (omega arith) (omega arith) refl refl

load_decimal_example :
    router.serve (app Arithmetic.sample router (codes "h") 2000000) (get_request "/load/1/10") []
    ≡ respond Arithmetic.sample 200 cors_headers (
        load_body (record {
          cpu_iterations = to_decimal 1;
          cpu_result = sum_below Arithmetic.sample (1 * 1000000);
          mem_mb = to_decimal 10;
          mem_elements = 10 * 131072;
          operation = operation_text Arithmetic.sample (int (pos (1 * 1000000))) (int (pos 10));
          host = codes "h";
        }))
load_decimal_example =
    load_decimal Arithmetic.sample router (codes "h") 2000000 (get_request "/load/1/10") refl 1 10
      (omega arith) (omega arith) (omega arith) (omega arith) (omega arith) (omega arith) refl refl
      refl

load_too_large_example :
    router.serve (app Arithmetic.sample router (codes "h") 2000000) (get_request "/load/1/40000") []
    ≡ reply (router.error_response cors_headers)
load_too_large_example =
    load_too_large Arithmetic.sample router (codes "h") 2000000 (get_request "/load/1/40000") refl 1
      40000 (omega arith) (omega arith) (omega arith) (omega arith) (omega arith) refl refl refl

not_found_otherwise_example :
    router.serve
      (app Arithmetic.sample router (codes "h") 40)
      (record { method = "OPTIONS"; path = "/primos/30"; body = none })
      []
    ≡ respond Arithmetic.sample 404 cors_headers
        (not_found_body "No Encontrado" "GET /primos/:number" "GET /primos/21")
not_found_otherwise_example =
    not_found_otherwise Arithmetic.sample router (codes "h") 40
      (record { method = "OPTIONS"; path = "/primos/30"; body = none }) refl
      (inl (options_ne_get, options_ne_head))
