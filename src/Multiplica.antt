-- ===== src/Multiplica.antt =====
-- multiplica/app.js: the middleware, the handlers and the order in which they are registered. The
-- environment variable MULTIPLIER is read at each request: `none` if it is not set.
pub mod Answers
mod Tests
use Prim.Native.String.{String}
use kubernetes_up_running.Base.{ℕ, Option, some, none, List, [], ◌∷◌, ◌++◌, if◌then◌else◌}
use kubernetes_up_running.Js.Number.{Number}
use kubernetes_up_running.Js.Text.{Text, codes}
use kubernetes_up_running.Express.{
  Headers, Request, Outcome, next, reply, throws, hangs, Layer, use_layer, get_layer, Express,
}
use kubernetes_up_running.Floats.{Floats}
use kubernetes_up_running.Load as SharedLoad
use kubernetes_up_running.Load.{Completion, value, LoadReport, LoadAnswer, report, bad_request}

module _ (fl : Floats) where
  open fl use {Float}

  pub record MultiplicaReport : Type 0 where
    pub input : Float
    pub multiplier : Float
    pub result : Float
    pub operation : Text
    pub host : Text

  -- The JSON bodies of the application's responses.
  pub data Body : Type 0 where
    multiplica_body : MultiplicaReport → Body
    load_body : LoadReport fl → Body
    status_body : String → Body
    error_body : (error example : String) → Body
    not_found_body : (applicacion : Text) (error usage example : String) → Body

  abbrev pub respond : ℕ → Headers → Body → Outcome Body
  respond status hs body = reply (record { status = status; headers = hs; body = body })

  -- The CORS middleware.
  unfoldable pub cors : Request → Headers → Outcome Body
  cors req hs = next (
      hs
      ++ ("Access-Control-Allow-Origin", "*")
        ∷ ("Access-Control-Allow-Methods", "GET, OPTIONS")
        ∷ [])

  unfoldable pub consumir_cpu : ℕ → Number → Option Float
  consumir_cpu = SharedLoad.consumir_cpu fl

  unfoldable pub consumir_memoria : ℕ → Number → Completion ℕ
  consumir_memoria = SharedLoad.consumir_memoria fl

  -- `parseFloat(process.env.MULTIPLIER)`: a variable that is not set is the text "undefined".
  unfoldable pub env_multiplier : Option Text → Float
  env_multiplier none = fl.parse_float (codes "undefined")
  env_multiplier (some text) = fl.parse_float text

  unfoldable pub multiplier_of : Option Text → Float
  multiplier_of env =
      let from_env = env_multiplier env in if fl.is_nan from_env then fl.of_ℕ 2 else from_env

  unfoldable pub operation_text : Float → Text
  operation_text multiplier = codes "multiplica por " ++ fl.to_text multiplier

  unfoldable pub answer_multiplica : Option Text → Text → Float → Headers → Outcome Body
  answer_multiplica env host number hs =
      if fl.is_nan number
      then respond 400 hs (error_body "Número incorrecto" "GET /multiplica/21")
      else respond 200 hs (
          multiplica_body (record {
            input = number;
            multiplier = multiplier_of env;
            result = fl.times number (multiplier_of env);
            operation = operation_text (multiplier_of env);
            host = host;
          }))

  -- GET /multiplica/:number. (A missing parameter would be parsed as "undefined".)
  unfoldable pub get_multiplica : Option Text → Text → List Text → Headers → Outcome Body
  get_multiplica env host (param ∷ _) hs = answer_multiplica env host (fl.parse_float param) hs
  get_multiplica env host [] hs = answer_multiplica env host (fl.parse_float (codes "undefined")) hs

  abbrev pub load_outcome : Headers → Completion (LoadAnswer fl) → Outcome Body
  load_outcome hs (value (report r)) = respond 200 hs (load_body r)
  load_outcome hs (value bad_request) =
      respond 400 hs (error_body "Parámetros incorrectos" "GET /load/1/10")
  load_outcome hs Completion.throws = throws
  load_outcome hs Completion.hangs = hangs

  -- GET /load/:cpu/:mem. (Its pattern binds two parameters, so the second clause is never reached.)
  unfoldable pub get_load : Text → ℕ → List Text → Headers → Outcome Body
  get_load host fuel (cpu ∷ mem ∷ _) hs = load_outcome hs (SharedLoad.load fl host fuel cpu mem)
  get_load host fuel _ hs = throws

  -- GET /health
  unfoldable pub get_health : List Text → Headers → Outcome Body
  get_health params hs = respond 200 hs (status_body "ok")

  unfoldable pub not_found : Option Text → Request → Headers → Outcome Body
  not_found env req hs = respond 404 hs (
      not_found_body (operation_text (multiplier_of env)) "No Encontrado" "GET /multiplica/:number"
        "GET /multiplica/21")

  -- The layers, in the order of the source's calls.
  unfoldable pub app : Express Body → Option Text → Text → ℕ → List (Layer Body)
  app express env host fuel =
      use_layer express.json
      ∷ use_layer cors
      ∷ get_layer "/multiplica/:number" (get_multiplica env host)
      ∷ get_layer "/load/:cpu/:mem" (get_load host fuel)
      ∷ get_layer "/health" get_health
      ∷ use_layer (not_found env)
      ∷ []
