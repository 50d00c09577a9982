-- ===== src/Server/Broker/Client.antt =====
-- kuard/pkg/memq/client/client.go: what the client makes of a reply. `none` is a request that was not
-- answered, or that could not be made. (The decoder of JSON is the inverse of `ServeJSON`.)
use kubernetes_up_running.Base.{ℕ, Option, some, none, List, leb, ◌==◌, if◌then◌else◌}
use kubernetes_up_running.Server.Broker.{Message, Stat}
use kubernetes_up_running.Server.Broker.Api.{Body, no_body, error_text, read_error, json, Reply}

-- Why a call of the client fails.
pub data Failure : Type 0 where
  no_reply : Failure
  http_error : ℕ → Failure
  bad_json : Failure

pub data Answer (A : Type 0) : Type 0 where
  got : A → Answer A
  fails : Failure → Answer A

infixl 5 ◌>>=◌
abbrev pub ◌>>=◌ : {A B : Type 0} → Answer A → (A → Answer B) → Answer B
got a >>= f = f a
fails e >>= f = fails e

abbrev pub sent : {A : Type 0} → Option (Reply A) → Answer (Reply A)
sent none = fails no_reply
sent (some r) = got r

unfoldable pub error_from_response : {A : Type 0} → Reply A → Answer Unit
error_from_response r = if leb 300 r.status then fails (http_error r.status) else got tt

-- `json.NewDecoder(resp.Body).Decode`: an error's text is no JSON.
abbrev decode : {A : Type 0} → Body A → Answer A
decode (json a) = got a
decode no_body = fails bad_json
decode (error_text e) = fails bad_json
decode read_error = fails bad_json

-- `CreateQueue`, `DeleteQueue` and `DrainQueue`
unfoldable pub plain_answer : Option (Reply Unit) → Answer Unit
unfolding error_from_response
plain_answer reply = do r ← sent reply; error_from_response r

-- `Enqueue`
unfoldable pub enqueue_answer : Option (Reply Message) → Answer Message
unfolding error_from_response
enqueue_answer reply = do r ← sent reply; _ ← error_from_response r; decode r.body

-- `Dequeue`: `none` is an empty queue.
unfoldable pub dequeue_answer : Option (Reply Message) → Answer (Option Message)
unfolding error_from_response
dequeue_answer reply = do
  r ← sent reply
  _ ← error_from_response r
  if r.status == 204 then got none else (decode r.body >>= λ m. got (some m))

-- `Stats`
unfoldable pub stats_answer : Option (Reply (List Stat)) → Answer (List Stat)
unfolding error_from_response
stats_answer reply = do r ← sent reply; _ ← error_from_response r; decode r.body
