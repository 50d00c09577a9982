-- ===== src/Server/Broker/Fifo.antt =====
-- Messages are taken from a queue in the order in which they were put.
use kubernetes_up_running.Base.{
  ℕ, zero, suc, ◌+◌, ◌≡◌, refl, ap, sym, ◌∙◌, some, true, List, [], ◌∷◌, ◌++◌, map, arith, ◌==◌,
  length, replicate,
}
use mathlib.Core.Path.{ap₂}
use mathlib.Core.List.{append-nil, append_assoc}
use kubernetes_up_running.Js.Text.{Text}
use kubernetes_up_running.Server.Broker.{
  Result, ok, err, empty_queue, Message, Queue, Broker, find, write, appended, take_message,
  put_message, get_message, get_queue, new_message,
}

-- The messages put in this order, each with the id and the time that `newMessage` gives it.
abbrev pub put_all : Text → List Message → Broker → Broker
put_all name [] b = b
put_all name (m ∷ ms) b = put_all name ms (put_message name (some m.id) m.created m.body b).0

-- The answers to this many calls of `GetMessage`.
abbrev pub get_all : ℕ → Text → Broker → List (Result Message)
get_all zero name b = []
get_all (suc n) name b = let (after, answer) = get_message name b in answer ∷ get_all n name after

==_refl : (n : ℕ) → (n == n) ≡ true
==_refl n = ground arith

write_same : (ref : ℕ) (q : Queue) (b : Broker) → (write ref q b).store ref ≡ q
write_same ref q b = rw (==_refl ref)

module _ (name : Text) (ref : ℕ) where
  -- The messages of the queue that the map has at the name.
  pub record Holds (ms : List Message) (b : Broker) : Type 0 where
    pub found : find name b.queues ≡ some ref
    pub stored : (b.store ref).messages ≡ ms

  put_message-Holds :
      (m : Message) (ms : List Message) (b : Broker)
      → Holds ms b
      → Holds (ms ++ m ∷ []) (put_message name (some m.id) m.created m.body b).0
  unfolding put_message get_queue new_message appended
  put_message-Holds m ms b h =
      rw (put_message, get_queue, h.found)
        (record {
          found = h.found;
          stored =
              ap (λ q. q.messages) (write_same ref (appended m (b.store ref)) b)
              ∙ ap (λ l. l ++ m ∷ []) h.stored;
        })

  put_all-Holds :
      (ms old : List Message) (b : Broker) → Holds old b → Holds (old ++ ms) (put_all name ms b)
  put_all-Holds [] old b h = rw (append-nil old) h
  put_all-Holds (m ∷ ms) old b h =
      rw (sym (append_assoc old (m ∷ []) ms))
        (put_all-Holds ms (old ++ m ∷ []) _ (put_message-Holds m old b h))

  -- A call of `GetMessage` on a queue with messages, and on one without.
  pub get_message-Holds :
      (m : Message) (ms : List Message) (b : Broker)
      → Holds (m ∷ ms) b
      → Holds ms (get_message name b).0 × ((get_message name b).1 ≡ ok m)
  unfolding get_message get_queue take_message
  get_message-Holds m ms b h =
      rw (get_message, get_queue, h.found, h.stored)
        (record { found = h.found; stored = ap (λ q. q.messages) (write_same ref _ b) }, refl)

  pub get_message-Holds_none :
      (b : Broker)
      → Holds [] b
      → Holds [] (get_message name b).0 × ((get_message name b).1 ≡ err empty_queue)
  unfolding get_message get_queue take_message
  get_message-Holds_none b h =
      rw (get_message, get_queue, h.found, h.stored)
        (record { found = h.found; stored = ap (λ q. q.messages) (write_same ref _ b) }, refl)

  get_all-Holds_none :
      (n : ℕ) (b : Broker) → Holds [] b → get_all n name b ≡ replicate n (err empty_queue)
  get_all-Holds_none zero b h = refl
  get_all-Holds_none (suc n) b h =
      let (left, answer) = get_message-Holds_none b h in
      ap₂ ◌∷◌ answer (get_all-Holds_none n _ left)

  get_all-Holds :
      (ms : List Message) (extra : ℕ) (b : Broker)
      → Holds ms b
      → get_all (length ms + extra) name b ≡ map ok ms ++ replicate extra (err empty_queue)
  get_all-Holds [] extra b h =
      ap (λ n. get_all n name b) (omega arith) ∙ get_all-Holds_none extra b h
  get_all-Holds (m ∷ ms) extra b h =
      let (left, answer) = get_message-Holds m ms b h in
      let count : suc (length ms) + extra ≡ suc (length ms + extra) = omega arith in
      ap (λ n. get_all n name b) count ∙ ap₂ ◌∷◌ answer (get_all-Holds ms extra _ left)

-- If a queue that exists holds some messages and others are put into it, calls of `GetMessage` give
-- the old messages and then the new ones, each once and in order; every call after them answers that
-- the queue is empty.
pub get_all-put_all :
    (name : Text) (ref : ℕ) (b : Broker) (old new : List Message) (extra : ℕ)
    → find name b.queues ≡ some ref
    → (b.store ref).messages ≡ old
    → get_all (length (old ++ new) + extra) name (put_all name new b)
      ≡ map ok (old ++ new) ++ replicate extra (err empty_queue)
get_all-put_all name ref b old new extra found stored =
    get_all-Holds name ref (old ++ new) extra _
      (put_all-Holds name ref new old b (record { found = found; stored = stored }))
