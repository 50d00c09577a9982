-- ===== src/Express/Sample.antt =====
-- A concrete router with the laws of the interface, for any matching of paths: it shows that the laws
-- can hold, and runs the witnesses.
use Prim.Native.String.{String}
use text.Mathlib.Text.{◌==◌}
use text.Mathlib.TextEquality.{eq_iff}
use kubernetes_up_running.Base.{
  ◌≡◌, ◌≢◌, refl, Option, none, some, Bool, ◌||◌, List, [], ◌∷◌, arith, if◌then◌else◌, Bool-cases,
  inl, inr,
}
use kubernetes_up_running.Js.Text.{Text}
use kubernetes_up_running.Express.{
  Headers, Request, Response, Outcome, next, reply, Layer, use_layer, get_layer, continue, Express,
}

module _ {B : Type 0} (match : String → String → Option (List Text)) (failed : B) where
  abbrev pub failure : Headers → Response B
  failure hs = record { status = 500; headers = hs; body = failed }

  abbrev handles : Request → Bool
  handles r = r.method == "GET" || r.method == "HEAD"

  abbrev run_get :
      (List Text → Headers → Outcome B)
      → (Headers → Outcome B)
      → Headers
      → Option (List Text)
      → Outcome B
  run_get h rest hs none = rest hs
  run_get h rest hs (some params) = continue failure rest hs (h params hs)

  unfoldable pub run : List (Layer B) → Request → Headers → Outcome B
  run [] r hs = reply (record { status = 404; headers = hs; body = failed })
  run (use_layer h ∷ ls) r hs = continue failure (λ hs'. run ls r hs') hs (h r hs)
  run (get_layer p h ∷ ls) r hs =
      if handles r then run_get h (λ hs'. run ls r hs') hs (match p r.path) else run ls r hs

  pub run_get_layer :
      (p : String) (h : List Text → Headers → Outcome B) (ls : List (Layer B)) (r : Request)
      (hs : Headers) (params : List Text)
      → r.method ≡ "GET"
      → match p r.path ≡ some params
      → run (get_layer p h ∷ ls) r hs ≡ continue failure (run ls r) hs (h params hs)
  unfolding run
  run_get_layer p h ls r hs params get e = rw ((eq_iff r.method "GET").1 get, e)

  pub run_unmatched :
      (p : String) (h : List Text → Headers → Outcome B) (ls : List (Layer B)) (r : Request)
      (hs : Headers)
      → match p r.path ≡ none
      → run (get_layer p h ∷ ls) r hs ≡ run ls r hs
  unfolding run
  run_unmatched p h ls r hs e = elim (Bool-cases (handles r)) [
    | inl get ↦ rw (get, e)
    | inr other ↦ rw other
  ]

  pub run_other :
      (p : String) (h : List Text → Headers → Outcome B) (ls : List (Layer B)) (r : Request)
      (hs : Headers)
      → r.method ≢ "GET"
      → r.method ≢ "HEAD"
      → run (get_layer p h ∷ ls) r hs ≡ run ls r hs
  unfolding run
  run_other p h ls r hs not_get not_head =
      ground (arith, eq_iff r.method "GET", eq_iff r.method "HEAD")

  pub run_use :
      (h : Request → Headers → Outcome B) (ls : List (Layer B)) (r : Request) (hs : Headers)
      → run (use_layer h ∷ ls) r hs ≡ continue failure (run ls r) hs (h r hs)
  unfolding run
  run_use h ls r hs = refl

  abbrev pub sample : Express B
  sample = record {
    match_path = match;
    error_response = failure;
    json = λ r hs. next hs;
    serve = run;
    error_status = λ hs. refl;
    json_no_body = λ r hs e. refl;
    serve_use = run_use;
    serve_get = run_get_layer;
    serve_get_unmatched = run_unmatched;
    serve_get_other = run_other;
  }
