-- ===== src/Primos/Server.antt =====
-- primos/app.js: the middleware, the handlers and the order in which they are registered.
pub mod Answers
use Prim.Native.String.{String}
use kubernetes_up_running.Base.{
  ℕ, Option, some, none, Bool, true, false, ◌||◌, List, [], ◌∷◌, ◌++◌, if◌then◌else◌, length,
}
use kubernetes_up_running.Js.Number.{Number, nan, is_nan, is_negative}
use kubernetes_up_running.Js.Text.{Text, codes, parse_int}
use kubernetes_up_running.Express.{
  Headers, Request, Response, Outcome, next, reply, throws, hangs, Layer, use_layer, get_layer,
  Express,
}
use kubernetes_up_running.Floats.{Floats}
use kubernetes_up_running.Load.{
  Completion, value, LoadReport, LoadAnswer, report, bad_request, load, number_text,
}
use kubernetes_up_running.Primos.Search.{obtener_primos}

pub record PrimosReport : Type 0 where
  pub input : Number
  pub primos : List ℕ
  pub cantidad : ℕ
  pub operation : Text
  pub host : Text

module _ (fl : Floats) where
  -- The JSON bodies of the application's responses.
  pub data Body : Type 0 where
    primos_body : PrimosReport → Body
    load_body : LoadReport fl → Body
    status_body : String → Body
    error_body : (error example : String) → Body
    not_found_body : (error usage example : String) → Body

  abbrev pub respond : ℕ → Headers → Body → Outcome Body
  respond status hs body = reply (record { status = status; headers = hs; body = body })

  -- The CORS middleware.
  unfoldable pub cors : Request → Headers → Outcome Body
  cors req hs = next (
      hs
      ++ ("Access-Control-Allow-Origin", "*")
        ∷ ("Access-Control-Allow-Methods", "GET, OPTIONS")
        ∷ [])

  abbrev pub report_primos : Text → Number → Headers → Completion (List ℕ) → Outcome Body
  report_primos host number hs Completion.hangs = hangs
  report_primos host number hs Completion.throws = throws
  report_primos host number hs (value primos) = respond 200 hs (
      primos_body (record {
        input = number;
        primos = primos;
        cantidad = length primos;
        operation = codes "números primos hasta " ++ number_text number;
        host = host;
      }))

  unfoldable pub answer_primos : Text → ℕ → Number → Headers → Outcome Body
  answer_primos host fuel number hs =
      if is_nan number || is_negative number
      then respond 400 hs (error_body "Número incorrecto" "GET /primos/21")
      else report_primos host number hs (obtener_primos fuel number)

  -- GET /primos/:number. (A missing parameter would be parsed as "undefined", which is no number.)
  unfoldable pub get_primos : Text → ℕ → List Text → Headers → Outcome Body
  get_primos host fuel (param ∷ _) hs = answer_primos host fuel (parse_int param) hs
  get_primos host fuel [] hs = answer_primos host fuel nan hs

  abbrev pub load_outcome : Headers → Completion (LoadAnswer fl) → Outcome Body
  load_outcome hs (value (report r)) = respond 200 hs (load_body r)
  load_outcome hs (value bad_request) =
      respond 400 hs (error_body "Parámetros incorrectos" "GET /load/1/10")
  load_outcome hs Completion.throws = throws
  load_outcome hs Completion.hangs = hangs

  -- GET /load/:cpu/:mem. (Its pattern binds two parameters, so the second clause is never reached.)
  unfoldable pub get_load : Text → ℕ → List Text → Headers → Outcome Body
  get_load host fuel (cpu ∷ mem ∷ _) hs = load_outcome hs (load fl host fuel cpu mem)
  get_load host fuel _ hs = throws

  -- GET /health
  unfoldable pub get_health : List Text → Headers → Outcome Body
  get_health params hs = respond 200 hs (status_body "ok")

  unfoldable pub not_found : Request → Headers → Outcome Body
  not_found req hs =
      respond 404 hs (not_found_body "No Encontrado" "GET /primos/:number" "GET /primos/21")

  -- The layers, in the order of the source's calls.
  unfoldable pub app : Express Body → Text → ℕ → List (Layer Body)
  app express host fuel =
      use_layer express.json
      ∷ use_layer cors
      ∷ get_layer "/primos/:number" (get_primos host fuel)
      ∷ get_layer "/load/:cpu/:mem" (get_load host fuel)
      ∷ get_layer "/health" get_health
      ∷ use_layer not_found
      ∷ []
