-- ===== src/Server/Broker/Api.antt =====
-- kuard/pkg/memq/server/api.go: the HTTP handlers of the broker. A handler returns the broker and the
-- reply. The name of a queue is the parameter of the route; a body is `none` if it cannot be read.
use kubernetes_up_running.Base.{ℕ, Option, some, none, List, [], ◌∷◌}
use kubernetes_up_running.Js.Text.{Text}
use kubernetes_up_running.Server.Broker.{
  Error, empty_queue, not_exist, already_exist, empty_name, no_random, Result, ok, err, Message,
  Stat, Broker, create_queue, delete_queue, drain_queue, put_message, get_message, stats,
}

-- A body: the JSON of `ServeJSON`, the text of `http.Error`, or nothing.
pub data Body (A : Type 0) : Type 0 where
  no_body : Body A
  error_text : Error → Body A
  read_error : Body A
  json : A → Body A

pub record Reply (A : Type 0) : Type 0 where
  pub status : ℕ
  pub body : Body A

abbrev pub plain : {A : Type 0} → ℕ → Reply A
plain status = record { status = status; body = no_body }

abbrev pub failed : {A : Type 0} → Error → Reply A
failed e = record { status = 400; body = error_text e }

abbrev pub answered : {A : Type 0} → A → Reply A
answered a = record { status = 200; body = json a }

-- A handler of which only the error matters: with no error the status is 200.
abbrev error_reply : Broker × Option Error → Broker × Reply Unit
error_reply (b, none) = (b, plain 200)
error_reply (b, some e) = (b, failed e)

unfoldable pub create_handler : Text → Broker → Broker × Reply Unit
create_handler [] b = (b, failed empty_name)
create_handler (c ∷ name) b = error_reply (create_queue (c ∷ name) b)

unfoldable pub delete_handler : Text → Broker → Broker × Reply Unit
delete_handler [] b = (b, failed empty_name)
delete_handler (c ∷ name) b = error_reply (delete_queue (c ∷ name) b)

unfoldable pub drain_handler : Text → Broker → Broker × Reply Unit
drain_handler [] b = (b, failed empty_name)
drain_handler (c ∷ name) b = error_reply (drain_queue (c ∷ name) b)

abbrev put_reply : Broker × Result Message → Broker × Reply Message
put_reply (b, ok m) = (b, answered m)
put_reply (b, err e) = (b, failed e)

-- `id` and `now` are what `newMessage` draws.
unfoldable pub enqueue_handler :
    Option Text → ℕ → Text → Option Text → Broker → Broker × Reply Message
enqueue_handler id now name none b = (b, record { status = 500; body = read_error })
enqueue_handler id now [] (some body) b = (b, failed empty_name)
enqueue_handler id now (c ∷ name) (some body) b = put_reply (put_message (c ∷ name) id now body b)

abbrev pub get_reply : Broker × Result Message → Broker × Reply Message
get_reply (b, ok m) = (b, answered m)
get_reply (b, err empty_queue) = (b, plain 204)
get_reply (b, err not_exist) = (b, failed not_exist)
get_reply (b, err already_exist) = (b, failed already_exist)
get_reply (b, err empty_name) = (b, failed empty_name)
get_reply (b, err no_random) = (b, failed no_random)

unfoldable pub dequeue_handler : Text → Broker → Broker × Reply Message
dequeue_handler [] b = (b, failed empty_name)
dequeue_handler (c ∷ name) b = get_reply (get_message (c ∷ name) b)

unfoldable pub stats_handler : List (Text × ℕ) → Broker → Reply (List Stat)
stats_handler visited b = answered (stats visited b)
