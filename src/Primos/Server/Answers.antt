-- ===== src/Primos/Server/Answers.antt =====
-- What a client of the primos application receives.
use kubernetes_up_running.Base.{
  ℕ, ◌*◌, ◌≤◌, ◌<◌, ◌≡◌, ◌≢◌, refl, ◌∙◌, ap, some, none, true, arith, List, [], ◌∷◌, ◌++◌, length,
  suc, ◌⊎◌, inl, inr,
}
use kubernetes_up_running.Base.Int.{pos}
use kubernetes_up_running.Js.Number.{nan, int, is_negative, exact_limit}
use kubernetes_up_running.Js.Text.{Text, codes, parse_int, to_decimal}
use kubernetes_up_running.Js.Text.Decimal.{parse_int-to_decimal}
use kubernetes_up_running.Express.{
  Headers, Request, reply, Layer, use_layer, get_layer, Express, continue,
}
use kubernetes_up_running.Floats.{Floats}
use kubernetes_up_running.Load.{
  Completion, value, throws, LoadAnswer, load, number_text, operation_text,
}
use kubernetes_up_running.Load.Cpu.{sum_below}
use kubernetes_up_running.Load.Memory.{memory_limit}
use kubernetes_up_running.Load.Handler.{
  load-report, load-throws, iterations_decimal, mebibytes_decimal,
}
use kubernetes_up_running.Primos.Search.{obtener_primos}
use kubernetes_up_running.Primos.Listing.{
  ListsPrimesBelow, AreTooMany, Listed, listed, too_many, obtener_primos-Listed,
}
use kubernetes_up_running.Primos.Server.{
  Body, primos_body, load_body, error_body, not_found_body, respond, cors, report_primos,
  answer_primos, get_primos, load_outcome, get_load, get_health, not_found, app,
}

abbrev pub cors_headers : Headers
cors_headers =
    ("Access-Control-Allow-Origin", "*") ∷ ("Access-Control-Allow-Methods", "GET, OPTIONS") ∷ []

get_primos_of :
    (fl : Floats) (host : Text) (fuel n : ℕ) (hs : Headers) (r : Completion (List ℕ))
    → n < exact_limit
    → obtener_primos fuel (int (pos n)) ≡ r
    → get_primos fl host fuel (to_decimal n ∷ []) hs ≡ report_primos fl host (int (pos n)) hs r
unfolding get_primos answer_primos
get_primos_of fl host fuel n hs r exact e = rw (parse_int-to_decimal n (omega arith), e)

get_primos_bad :
    (fl : Floats) (host : Text) (fuel : ℕ) (param : Text) (hs : Headers)
    → (parse_int param ≡ nan) ⊎ (is_negative (parse_int param) ≡ true)
    → get_primos fl host fuel (param ∷ []) hs
      ≡ respond fl 400 hs (error_body "Número incorrecto" "GET /primos/21")
unfolding get_primos answer_primos
get_primos_bad fl host fuel param hs bad = ground arith

get_load_of :
    (fl : Floats) (host : Text) (fuel : ℕ) (cpu mem : Text) (hs : Headers)
    {answer : Completion (LoadAnswer fl)}
    → load fl host fuel cpu mem ≡ answer
    → get_load fl host fuel (cpu ∷ mem ∷ []) hs ≡ load_outcome fl hs answer
unfolding get_load
get_load_of fl host fuel cpu mem hs e = rw e

module _ (fl : Floats) (express : Express (Body fl)) (host : Text) (fuel : ℕ) (r : Request)
    (no_body : r.body ≡ none) where
  -- The routes and the last layer, which every request without a body reaches.
  abbrev routes : List (Layer (Body fl))
  routes =
      get_layer "/primos/:number" (get_primos fl host fuel)
      ∷ get_layer "/load/:cpu/:mem" (get_load fl host fuel)
      ∷ get_layer "/health" (get_health fl)
      ∷ use_layer (not_found fl)
      ∷ []

  serve_routes : express.serve (app fl express host fuel) r [] ≡ express.serve routes r cors_headers
  unfolding app cors
  serve_routes =
      rw (express.serve_use, express.json_no_body r [] no_body) (express.serve_use _ _ r [])

  -- GET /primos/n for a decimal n below 2 ^ 53, where the process has memory for the list: if there are
  -- fewer than 2 ^ 32 primes up to n, status 200, the CORS headers, and a body that lists exactly these
  -- primes in ascending order with their number; if there are more, which an array cannot hold, the
  -- exception becomes the framework's error response.
  pub primos_decimal :
      (n : ℕ)
      → n < exact_limit
      → n < fuel
      → r.method ≡ "GET"
      → express.match_path "/primos/:number" r.path ≡ some (to_decimal n ∷ [])
      → ((l : List ℕ) × ListsPrimesBelow (suc n) l
          × (length l < 4294967296)
          × (express.serve (app fl express host fuel) r []
              ≡ respond fl 200 cors_headers (
                  primos_body (record {
                    input = int (pos n);
                    primos = l;
                    cantidad = length l;
                    operation = codes "números primos hasta " ++ to_decimal n;
                    host = host;
                  }))))
        ⊎ (AreTooMany n
            × (express.serve (app fl express host fuel) r []
                ≡ reply (express.error_response cors_headers)))
  unfolding number_text
  primos_decimal n exact enough get matched =
      go (obtener_primos fuel (int (pos n))) refl (obtener_primos-Listed n fuel exact enough)
    where
      served :
          (c : Completion (List ℕ))
          → obtener_primos fuel (int (pos n)) ≡ c
          → express.serve (app fl express host fuel) r []
            ≡ continue express.error_response
                (express.serve
                  (get_layer "/load/:cpu/:mem" (get_load fl host fuel)
                    ∷ get_layer "/health" (get_health fl)
                    ∷ use_layer (not_found fl)
                    ∷ [])
                  r)
                cors_headers
                (report_primos fl host (int (pos n)) cors_headers c)
      served c e =
          serve_routes
          ∙ express.serve_get _ _ _ r cors_headers _ get matched
          ∙ ap (continue express.error_response (express.serve _ r) cors_headers)
              (get_primos_of fl host fuel n cors_headers c exact e)

      go :
          (c : Completion (List ℕ))
          → obtener_primos fuel (int (pos n)) ≡ c
          → Listed n c
          → ((l : List ℕ) × ListsPrimesBelow (suc n) l
              × (length l < 4294967296)
              × (express.serve (app fl express host fuel) r []
                  ≡ respond fl 200 cors_headers (
                      primos_body (record {
                        input = int (pos n);
                        primos = l;
                        cantidad = length l;
                        operation = codes "números primos hasta " ++ to_decimal n;
                        host = host;
                      }))))
            ⊎ (AreTooMany n
                × (express.serve (app fl express host fuel) r []
                    ≡ reply (express.error_response cors_headers)))
      go _ e (listed l primes short) = inl (l, primes, short, served (value l) e)
      go _ e (too_many more) = inr (more, served throws e)

  -- A parameter that is no number or negative: status 400.
  primos_bad_request :
      (param : Text)
      → (parse_int param ≡ nan) ⊎ (is_negative (parse_int param) ≡ true)
      → r.method ≡ "GET"
      → express.match_path "/primos/:number" r.path ≡ some (param ∷ [])
      → express.serve (app fl express host fuel) r []
        ≡ respond fl 400 cors_headers (error_body "Número incorrecto" "GET /primos/21")
  primos_bad_request param bad get matched =
      serve_routes
      ∙ express.serve_get _ _ _ r cors_headers _ get matched
      ∙ ap (continue express.error_response (express.serve _ r) cors_headers)
          (get_primos_bad fl host fuel param cors_headers bad)

  -- GET /load/c/m for decimals c (in millions) and m below 32768, neither of them 0: status 200, the
  -- sum over c * 1000000 iterations, and 131072 elements for each MiB.
  pub load_decimal :
      (c m : ℕ)
      → 0 < c
      → c * 1000000 ≤ exact_limit
      → c * 1000000 < fuel
      → 0 < m
      → m < 32768
      → m * 131072 < fuel
      → r.method ≡ "GET"
      → express.match_path "/primos/:number" r.path ≡ none
      → express.match_path "/load/:cpu/:mem" r.path ≡ some (to_decimal c ∷ to_decimal m ∷ [])
      → express.serve (app fl express host fuel) r []
        ≡ respond fl 200 cors_headers (
            load_body (record {
              cpu_iterations = to_decimal c;
              cpu_result = sum_below fl (c * 1000000);
              mem_mb = to_decimal m;
              mem_elements = m * 131072;
              operation = operation_text fl (int (pos (c * 1000000))) (int (pos m));
              host = host;
            }))
  load_decimal c m c_pos exact cpu_fuel m_pos small mem_fuel get missed matched =
      serve_routes
      ∙ express.serve_get_unmatched _ _ _ r cors_headers missed
      ∙ express.serve_get _ _ _ r cors_headers _ get matched
      ∙ ap (continue express.error_response (express.serve _ r) cors_headers) (
          get_load_of fl host fuel (to_decimal c) (to_decimal m) cors_headers (
            load-report fl host fuel (to_decimal c) (to_decimal m) (c * 1000000) m
              (iterations_decimal c c_pos exact) (mebibytes_decimal m m_pos (omega arith)) exact
              small cpu_fuel mem_fuel))

  -- GET /load/c/m for such a c and an m from 32768 to 2 ^ 33: the exception of `new Array` becomes the
  -- framework's error response.
  pub load_too_large :
      (c m : ℕ)
      → 0 < c
      → c * 1000000 ≤ exact_limit
      → c * 1000000 < fuel
      → 32768 ≤ m
      → m ≤ memory_limit
      → r.method ≡ "GET"
      → express.match_path "/primos/:number" r.path ≡ none
      → express.match_path "/load/:cpu/:mem" r.path ≡ some (to_decimal c ∷ to_decimal m ∷ [])
      → express.serve (app fl express host fuel) r [] ≡ reply (express.error_response cors_headers)
  load_too_large c m c_pos exact cpu_fuel large limit get missed matched =
      serve_routes
      ∙ express.serve_get_unmatched _ _ _ r cors_headers missed
      ∙ express.serve_get _ _ _ r cors_headers _ get matched
      ∙ ap (continue express.error_response (express.serve _ r) cors_headers) (
          get_load_of fl host fuel (to_decimal c) (to_decimal m) cors_headers (
            load-throws fl host fuel (to_decimal c) (to_decimal m) (c * 1000000) m
              (iterations_decimal c c_pos exact) (mebibytes_decimal m (omega arith) (omega arith))
              exact cpu_fuel large limit))

  -- A request without a body whose path matches no route, or that is neither GET nor HEAD (so every
  -- OPTIONS request without a body), is answered with status 404, the CORS headers and the usage.
  pub not_found_otherwise :
      ((r.method ≢ "GET") × (r.method ≢ "HEAD"))
        ⊎ ((express.match_path "/primos/:number" r.path ≡ none)
            × (express.match_path "/load/:cpu/:mem" r.path ≡ none)
            × (express.match_path "/health" r.path ≡ none))
      → express.serve (app fl express host fuel) r []
        ≡ respond fl 404 cors_headers
            (not_found_body "No Encontrado" "GET /primos/:number" "GET /primos/21")
  unfolding not_found
  not_found_otherwise (inl (not_get, not_head)) =
      serve_routes
      ∙ express.serve_get_other _ _ _ r cors_headers not_get not_head
      ∙ express.serve_get_other _ _ _ r cors_headers not_get not_head
      ∙ express.serve_get_other _ _ _ r cors_headers not_get not_head
      ∙ express.serve_use _ _ r cors_headers
  not_found_otherwise (inr (no_primos, no_load, no_health)) =
      serve_routes
      ∙ express.serve_get_unmatched _ _ _ r cors_headers no_primos
      ∙ express.serve_get_unmatched _ _ _ r cors_headers no_load
      ∙ express.serve_get_unmatched _ _ _ r cors_headers no_health
      ∙ express.serve_use _ _ r cors_headers
