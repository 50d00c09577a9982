-- ===== src/Multiplica/Answers.antt =====
-- What a client of the multiplica application receives.
use kubernetes_up_running.Base.{
  ℕ, ◌≡◌, ◌≢◌, ◌⊎◌, inl, inr, ◌∙◌, ap, Option, some, none, true, false, List, [], ◌∷◌,
}
use kubernetes_up_running.Js.Text.{Text}
use kubernetes_up_running.Express.{Headers, Request, Layer, use_layer, get_layer, Express, continue}
use kubernetes_up_running.Floats.{Floats}
use kubernetes_up_running.Multiplica.{
  Body, multiplica_body, error_body, not_found_body, respond, cors, env_multiplier, multiplier_of,
  operation_text, answer_multiplica, get_multiplica, get_load, get_health, not_found, app,
}

abbrev pub cors_headers : Headers
cors_headers =
    ("Access-Control-Allow-Origin", "*") ∷ ("Access-Control-Allow-Methods", "GET, OPTIONS") ∷ []

-- Without a variable, or with a text that is no number, the multiplier is 2.
pub multiplier_default :
    (fl : Floats) (env : Option Text)
    → (env ≡ none) ⊎ ((text : Text) × (env ≡ some text) × (fl.is_nan (fl.parse_float text) ≡ true))
    → multiplier_of fl env ≡ fl.of_ℕ 2
unfolding multiplier_of env_multiplier
multiplier_default fl env (inl e) = rw (e, fl.parse_float_undefined)
multiplier_default fl env (inr (text, e, bad)) = rw (e, bad)

-- A variable that is a number is the multiplier.
pub multiplier_set :
    (fl : Floats) (text : Text)
    → fl.is_nan (fl.parse_float text) ≡ false
    → multiplier_of fl (some text) ≡ fl.parse_float text
unfolding multiplier_of env_multiplier
multiplier_set fl text good = rw good

answer_number :
    (fl : Floats) (env : Option Text) (host param : Text) (hs : Headers)
    → fl.is_nan (fl.parse_float param) ≡ false
    → get_multiplica fl env host (param ∷ []) hs
      ≡ respond fl 200 hs (
          multiplica_body (record {
            input = fl.parse_float param;
            multiplier = multiplier_of fl env;
            result = fl.times (fl.parse_float param) (multiplier_of fl env);
            operation = operation_text fl (multiplier_of fl env);
            host = host;
          }))
unfolding get_multiplica answer_multiplica
answer_number fl env host param hs good = rw good

answer_nan :
    (fl : Floats) (env : Option Text) (host param : Text) (hs : Headers)
    → fl.is_nan (fl.parse_float param) ≡ true
    → get_multiplica fl env host (param ∷ []) hs
      ≡ respond fl 400 hs (error_body "Número incorrecto" "GET /multiplica/21")
unfolding get_multiplica answer_multiplica
answer_nan fl env host param hs bad = rw bad

module _ (fl : Floats) (express : Express (Body fl)) (env : Option Text) (host : Text) (fuel : ℕ)
    (r : Request) (no_body : r.body ≡ none) where
  abbrev routes : List (Layer (Body fl))
  routes =
      get_layer "/multiplica/:number" (get_multiplica fl env host)
      ∷ get_layer "/load/:cpu/:mem" (get_load fl host fuel)
      ∷ get_layer "/health" (get_health fl)
      ∷ use_layer (not_found fl env)
      ∷ []

  serve_routes :
      express.serve (app fl express env host fuel) r [] ≡ express.serve routes r cors_headers
  unfolding app cors
  serve_routes =
      rw (express.serve_use, express.json_no_body r [] no_body) (express.serve_use _ _ r [])

  -- GET /multiplica/x for a text x that is a number, with no MULTIPLIER set or one that is no number:
  -- status 200, the CORS headers, and the product of x and 2.
  multiplica_default :
      (param : Text)
      → (env ≡ none)
        ⊎ ((text : Text) × (env ≡ some text) × (fl.is_nan (fl.parse_float text) ≡ true))
      → fl.is_nan (fl.parse_float param) ≡ false
      → r.method ≡ "GET"
      → express.match_path "/multiplica/:number" r.path ≡ some (param ∷ [])
      → express.serve (app fl express env host fuel) r []
        ≡ respond fl 200 cors_headers (
            multiplica_body (record {
              input = fl.parse_float param;
              multiplier = fl.of_ℕ 2;
              result = fl.times (fl.parse_float param) (fl.of_ℕ 2);
              operation = operation_text fl (fl.of_ℕ 2);
              host = host;
            }))
  multiplica_default param unset good get matched =
      serve_routes
      ∙ express.serve_get _ _ _ r cors_headers _ get matched
      ∙ ap (continue express.error_response (express.serve _ r) cors_headers)
          (answer_number fl env host param cors_headers good)
      ∙ rw (multiplier_default fl env unset)

  -- The same with a MULTIPLIER that is a number: the product of x and that number.
  pub multiplica_configured :
      (param text : Text)
      → env ≡ some text
      → fl.is_nan (fl.parse_float text) ≡ false
      → fl.is_nan (fl.parse_float param) ≡ false
      → r.method ≡ "GET"
      → express.match_path "/multiplica/:number" r.path ≡ some (param ∷ [])
      → express.serve (app fl express env host fuel) r []
        ≡ respond fl 200 cors_headers (
            multiplica_body (record {
              input = fl.parse_float param;
              multiplier = fl.parse_float text;
              result = fl.times (fl.parse_float param) (fl.parse_float text);
              operation = operation_text fl (fl.parse_float text);
              host = host;
            }))
  multiplica_configured param text set_to fine good get matched =
      serve_routes
      ∙ express.serve_get _ _ _ r cors_headers _ get matched
      ∙ ap (continue express.error_response (express.serve _ r) cors_headers)
          (answer_number fl env host param cors_headers good)
      ∙ rw (set_to, multiplier_set fl text fine)

  -- A parameter that is no number: status 400, whatever MULTIPLIER is.
  multiplica_bad_request :
      (param : Text)
      → fl.is_nan (fl.parse_float param) ≡ true
      → r.method ≡ "GET"
      → express.match_path "/multiplica/:number" r.path ≡ some (param ∷ [])
      → express.serve (app fl express env host fuel) r []
        ≡ respond fl 400 cors_headers (error_body "Número incorrecto" "GET /multiplica/21")
  multiplica_bad_request param bad get matched =
      serve_routes
      ∙ express.serve_get _ _ _ r cors_headers _ get matched
      ∙ ap (continue express.error_response (express.serve _ r) cors_headers)
          (answer_nan fl env host param cors_headers bad)

  -- A request whose path matches no route, or that is neither GET nor HEAD, is answered with status
  -- 404, the CORS headers, the usage and the multiplier in force.
  multiplica_not_found :
      ((r.method ≢ "GET") × (r.method ≢ "HEAD"))
        ⊎ ((express.match_path "/multiplica/:number" r.path ≡ none)
            × (express.match_path "/load/:cpu/:mem" r.path ≡ none)
            × (express.match_path "/health" r.path ≡ none))
      → express.serve (app fl express env host fuel) r []
        ≡ respond fl 404 cors_headers (
            not_found_body
              (operation_text fl (multiplier_of fl env))
              "No Encontrado"
              "GET /multiplica/:number"
              "GET /multiplica/21")
  unfolding not_found
  multiplica_not_found (inl (not_get, not_head)) =
      serve_routes
      ∙ express.serve_get_other _ _ _ r cors_headers not_get not_head
      ∙ express.serve_get_other _ _ _ r cors_headers not_get not_head
      ∙ express.serve_get_other _ _ _ r cors_headers not_get not_head
      ∙ express.serve_use _ _ r cors_headers
  multiplica_not_found (inr (no_number, no_load, no_health)) =
      serve_routes
      ∙ express.serve_get_unmatched _ _ _ r cors_headers no_number
      ∙ express.serve_get_unmatched _ _ _ r cors_headers no_load
      ∙ express.serve_get_unmatched _ _ _ r cors_headers no_health
      ∙ express.serve_use _ _ r cors_headers
