-- ===== src/Server/Broker.antt =====
-- kuard/pkg/memq/server/broker.go: named queues of messages in memory. `getQueue` hands out a
-- reference to a queue, which is used after the broker's lock is released; so the queues lie in a
-- store, and the broker's map holds references. Each critical section is one step. The counters are
-- int64, here by their 64 bits.
pub mod Counters
pub mod Fifo
pub mod Deleted
pub mod Shown
pub mod Api
pub mod Client
mod Tests
use kubernetes_up_running.Base.{
  ℕ, zero, suc, ◌+◌, ◌%◌, Option, some, none, Bool, true, false, List, [], ◌∷◌, ◌++◌, map, ◌==◌,
  if◌then◌else◌,
}
use kubernetes_up_running.Js.Text.{Text, text_eq}

-- The 64 bits of a sum.
abbrev pub word : ℕ → ℕ
word n = n % 18446744073709551616

pub data Error : Type 0 where
  empty_queue not_exist already_exist empty_name : Error
  -- the error of `rand.Read`
  no_random : Error

pub data Result (A : Type 0) : Type 0 where
  ok : A → Result A
  err : Error → Result A

-- `Kind` is always "message".
pub record Message : Type 0 where
  pub id : Text
  pub body : Text
  pub created : ℕ

pub record Queue : Type 0 where
  pub depth : ℕ
  pub enqueued : ℕ
  pub dequeued : ℕ
  pub drained : ℕ
  pub messages : List Message

pub record Broker : Type 0 where
  pub queues : List (Text × ℕ)
  -- the queue at each reference, and the first reference that is free
  pub store : ℕ → Queue
  pub free : ℕ

pub record Stat : Type 0 where
  pub name : Text
  pub depth : ℕ
  pub enqueued : ℕ
  pub dequeued : ℕ
  pub drained : ℕ

unfoldable pub new_queue : Queue
new_queue = record { depth = 0; enqueued = 0; dequeued = 0; drained = 0; messages = [] }

unfoldable pub new_broker : Broker
unfolding new_queue
new_broker = record { queues = []; store = λ ref. new_queue; free = 0 }

-- `b.Queues[name]`, and `delete(b.Queues, name)`
unfoldable pub find : Text → List (Text × ℕ) → Option ℕ
find name [] = none
find name ((key, ref) ∷ rest) = if text_eq name key then some ref else find name rest

unfoldable pub delete : Text → List (Text × ℕ) → List (Text × ℕ)
delete name [] = []
delete name ((key, ref) ∷ rest) =
    let others = delete name rest in if text_eq name key then others else (key, ref) ∷ others

abbrev pub write : ℕ → Queue → Broker → Broker
write ref q b = record b { store = λ r. if r == ref then q else b.store r }

unfoldable pub create_queue : Text → Broker → Broker × Option Error
unfolding find new_queue
create_queue name b = elim (find name b.queues) [
  | some _ ↦ (b, some already_exist)
  | none ↦ (
    record (write b.free new_queue b) { queues = (name, b.free) ∷ b.queues; free = suc b.free },
    none,
  )
]

unfoldable pub delete_queue : Text → Broker → Broker × Option Error
unfolding find delete
delete_queue name b = elim (find name b.queues) [
  | some _ ↦ (record b { queues = delete name b.queues }, none)
  | none ↦ (b, some not_exist)
]

unfoldable pub drained_queue : Queue → Queue
drained_queue q = record q { messages = []; drained = word (q.drained + q.depth); depth = 0 }

unfoldable pub drain_queue : Text → Broker → Broker × Option Error
unfolding find drained_queue
drain_queue name b = elim (find name b.queues) [
  | some ref ↦ (write ref (drained_queue (b.store ref)) b, none)
  | none ↦ (b, some not_exist)
]

unfoldable pub get_queue : Text → Broker → Result ℕ
unfolding find
get_queue name b = elim (find name b.queues) [ some ref ↦ ok ref | none ↦ err not_exist ]

-- `newMessage`: the id is missing when `rand.Read` fails.
unfoldable pub new_message : Option Text → ℕ → Text → Result Message
new_message none now body = err no_random
new_message (some id) now body = ok (record { id = id; body = body; created = now })

-- What `PutMessage` does under the lock of the queue.
unfoldable pub appended : Message → Queue → Queue
appended message q = record q {
  messages = q.messages ++ message ∷ [];
  depth = word (q.depth + 1);
  enqueued = word (q.enqueued + 1);
}

abbrev put_new : ℕ → Result Message → Broker → Broker × Result Message
put_new ref (ok message) b = (write ref (appended message (b.store ref)) b, ok message)
put_new ref (err e) b = (b, err e)

abbrev put_at : Result ℕ → Result Message → Broker → Broker × Result Message
put_at (ok ref) message b = put_new ref message b
put_at (err e) message b = (b, err e)

unfoldable pub put_message : Text → Option Text → ℕ → Text → Broker → Broker × Result Message
unfolding get_queue new_message appended
put_message queue id now body b = put_at (get_queue queue b) (new_message id now body) b

-- What `GetMessage` does under the lock of the queue. (2 ^ 64 - 1 is the word of -1.)
abbrev taken : List Message → Queue → Queue × Result Message
taken [] q = (q, err empty_queue)
taken (m ∷ rest) q = (
  record q {
    messages = rest;
    depth = word (q.depth + 18446744073709551615);
    dequeued = word (q.dequeued + 1);
  },
  ok m,
)

unfoldable pub take_message : Queue → Queue × Result Message
take_message q = taken q.messages q

abbrev get_at : Result ℕ → Broker → Broker × Result Message
get_at (ok ref) b = let (q, answer) = take_message (b.store ref) in (write ref q b, answer)
get_at (err e) b = (b, err e)

unfoldable pub get_message : Text → Broker → Broker × Result Message
unfolding get_queue take_message
get_message queue b = get_at (get_queue queue b) b

abbrev pub stat_of : Text → Queue → Stat
stat_of name q = record {
  name = name;
  depth = q.depth;
  enqueued = q.enqueued;
  dequeued = q.dequeued;
  drained = q.drained;
}

-- The rows of `Stats`; `visited` are the entries of the map in the order in which Go visits them.
unfoldable pub stats : List (Text × ℕ) → Broker → List Stat
stats visited b = map (λ (name, ref). stat_of name (b.store ref)) visited
