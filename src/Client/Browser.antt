-- ===== src/Client/Browser.antt =====
-- What the components use of the browser: intervals, and the settling of a `fetch` chain; with
-- kuard/client/src/fetcherror.js.
pub mod Intervals
use Prim.Native.String.{String}
use kubernetes_up_running.Base.{
  ℕ, zero, suc, ◌+◌, Option, some, none, Bool, true, false, List, [], ◌∷◌, ◌==◌, if◌then◌else◌,
}

-- The intervals that are set and not cleared. Their ids are positive.
pub record Timers : Type 0 where
  pub last_id : ℕ
  pub live : List ℕ

unfoldable pub set_interval : Timers → ℕ × Timers
set_interval t =
    (suc t.last_id, record t { last_id = suc t.last_id; live = suc t.last_id ∷ t.live })

unfoldable pub remove : ℕ → List ℕ → List ℕ
remove id [] = []
remove id (x ∷ xs) = if x == id then remove id xs else x ∷ remove id xs

-- `clearInterval(undefined)` and `clearInterval(null)` do nothing.
unfoldable pub clear_interval : Option ℕ → Timers → Timers
clear_interval none t = t
clear_interval (some id) t = record t { live = remove id t.live }

-- `if (this.timer)`: ids are positive, so only a missing one is falsy.
abbrev pub is_set : Option ℕ → Bool
is_set (some (suc id)) = true
is_set _ = false

-- A response whose body is parsed on demand: `json` is `none` where that fails.
pub record HttpResponse (R : Type 0) : Type 0 where
  pub ok : Bool
  pub status_text : String
  pub json : Option R

-- A promise that has settled, with the reason of a rejection.
pub data Promise (R : Type 0) : Type 0 where
  fulfilled : R → Promise R
  rejected : String → Promise R

infixl 5 ◌>>=◌
abbrev pub ◌>>=◌ : {A B : Type 0} → Promise A → (A → Promise B) → Promise B
fulfilled a >>= f = f a
rejected e >>= f = rejected e

-- fetcherror.js: a response that is not ok becomes an exception.
unfoldable pub fetch_error : {R : Type 0} → HttpResponse R → Promise (HttpResponse R)
fetch_error response = if response.ok then fulfilled response else rejected response.status_text

unfoldable pub parse_json : {R : Type 0} → HttpResponse R → Promise R
parse_json response = elim response.json [
  | none ↦ rejected "SyntaxError"
  | some body ↦ fulfilled body
]

-- `fetch(…).then(fetchError).then(response => response.json())`
unfoldable pub checked_json : {R : Type 0} → Promise (HttpResponse R) → Promise R
unfolding fetch_error parse_json
checked_json fetched = fetched >>= fetch_error >>= parse_json

-- `fetch(…).then(response => response.json())`
unfoldable pub unchecked_json : {R : Type 0} → Promise (HttpResponse R) → Promise R
unfolding parse_json
unchecked_json fetched = fetched >>= parse_json

-- What a component asks of the browser and of the application.
pub data Method : Type 0 where
  get put post : Method

pub data Effect (B : Type 0) : Type 0 where
  fetch : Method → (url : List ℕ) → Option B → Effect B
  report_conn_error : Effect B
