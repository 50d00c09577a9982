-- ===== src/Express.antt =====
-- The interface of the Express framework, which is not in the repository: an application is its list
-- of layers, in the order of the `app.use` and `app.get` calls, and `serve` answers a request. The
-- laws are the documented behaviour: layers are tried in order; `app.get` is for GET (and HEAD)
-- requests whose path matches; an exception goes to the default error handler, which answers 500;
-- `express.json()` lets a request with no body through.
pub mod Sample
use Prim.Native.String.{String}
use kubernetes_up_running.Base.{ℕ, ◌≡◌, ◌≢◌, Option, none, some, List, ◌∷◌}
use kubernetes_up_running.Js.Text.{Text}

abbrev pub Headers : Type 0
Headers = List (String × String)

pub record Request : Type 0 where
  pub method : String
  pub path : String
  pub body : Option Text

-- The headers are those that the application sets itself.
pub record Response (B : Type 0) : Type 0 where
  pub status : ℕ
  pub headers : Headers
  pub body : B

-- What a handler does: `next()`, a response, an exception, or a computation that does not end.
pub data Outcome (B : Type 0) : Type 0 where
  next : Headers → Outcome B
  reply : Response B → Outcome B
  throws : Outcome B
  hangs : Outcome B

pub data Layer (B : Type 0) : Type 0 where
  use_layer : (Request → Headers → Outcome B) → Layer B
  get_layer : String → (List Text → Headers → Outcome B) → Layer B

-- What follows a layer's outcome.
abbrev pub continue :
    {B : Type 0} → (Headers → Response B) → (Headers → Outcome B) → Headers → Outcome B → Outcome B
continue failed rest hs (next hs') = rest hs'
continue failed rest hs (reply r) = reply r
continue failed rest hs throws = reply (failed hs)
continue failed rest hs hangs = hangs

pub record Express (B : Type 0) : Type 0 where
  pub match_path : String → String → Option (List Text)
  pub error_response : Headers → Response B
  pub json : Request → Headers → Outcome B
  pub serve : List (Layer B) → Request → Headers → Outcome B
  pub error_status : (hs : Headers) → (error_response hs).status ≡ 500
  pub json_no_body : (r : Request) (hs : Headers) → r.body ≡ none → json r hs ≡ next hs
  pub serve_use :
      (h : Request → Headers → Outcome B) (ls : List (Layer B)) (r : Request) (hs : Headers)
      → serve (use_layer h ∷ ls) r hs ≡ continue error_response (serve ls r) hs (h r hs)
  pub serve_get :
      (pattern : String) (h : List Text → Headers → Outcome B) (ls : List (Layer B)) (r : Request)
      (hs : Headers) (params : List Text)
      → r.method ≡ "GET"
      → match_path pattern r.path ≡ some params
      → serve (get_layer pattern h ∷ ls) r hs
        ≡ continue error_response (serve ls r) hs (h params hs)
  pub serve_get_unmatched :
      (pattern : String) (h : List Text → Headers → Outcome B) (ls : List (Layer B)) (r : Request)
      (hs : Headers)
      → match_path pattern r.path ≡ none
      → serve (get_layer pattern h ∷ ls) r hs ≡ serve ls r hs
  pub serve_get_other :
      (pattern : String) (h : List Text → Headers → Outcome B) (ls : List (Layer B)) (r : Request)
      (hs : Headers)
      → r.method ≢ "GET"
      → r.method ≢ "HEAD"
      → serve (get_layer pattern h ∷ ls) r hs ≡ serve ls r hs
