-- ===== src/Server/Broker/Counters.antt =====
-- The counters of the queues agree with each other and with the stored messages.
use kubernetes_up_running.Base.{
  ℕ, suc, ◌+◌, ◌≡◌, ◌⊎◌, refl, ap, sym, ◌∙◌, Option, some, none, Option-cases, inl, inr, true,
  false, List, [], ◌∷◌, arith, ◌==◌, if◌then◌else◌, length, length-append, All,
}
use kubernetes_up_running.Js.Text.{Text}
use kubernetes_up_running.Server.Broker.{
  word, Message, Queue, Broker, Stat, new_queue, new_broker, find, write, create_queue,
  delete_queue, drained_queue, drain_queue, appended, take_message, taken, stats, put_message,
  get_message, get_queue, new_message,
}

-- The depth counts the messages, and every message that was put was taken, drained or is there.
pub record IsBalanced (q : Queue) : Type 0 where
  pub counted : q.depth ≡ word (length q.messages)
  pub balanced : q.enqueued ≡ word (q.dequeued + q.drained + q.depth)

-- A critical section of the broker; `ref` is whatever reference `getQueue` handed out earlier.
pub data Step : Broker → Broker → Type 0 where
  create : (name : Text) (b : Broker) → Step b (create_queue name b).0
  delete : (name : Text) (b : Broker) → Step b (delete_queue name b).0
  drain : (name : Text) (b : Broker) → Step b (drain_queue name b).0
  put : (ref : ℕ) (m : Message) (b : Broker) → Step b (write ref (appended m (b.store ref)) b)
  take : (ref : ℕ) (b : Broker) → Step b (write ref (take_message (b.store ref)).0 b)

pub data Reach : Broker → Type 0 where
  start : Reach new_broker
  after : {b c : Broker} → Reach b → Step b c → Reach c

new_queue-IsBalanced : IsBalanced new_queue
unfolding new_queue
new_queue-IsBalanced = record { counted = refl; balanced = refl }

appended-IsBalanced : (m : Message) (q : Queue) → IsBalanced q → IsBalanced (appended m q)
unfolding appended
appended-IsBalanced m q h = record {
  counted = omega (arith, h.counted, length-append q.messages (m ∷ []));
  balanced = omega (arith, h.balanced);
}

taken-IsBalanced :
    (ms : List Message) (q : Queue) → ms ≡ q.messages → IsBalanced q → IsBalanced (taken ms q).0
taken-IsBalanced [] q e h = h
taken-IsBalanced (m ∷ ms) q e h =
    let counted : q.depth ≡ word (suc (length ms)) =
      h.counted ∙ ap (λ l. word (length l)) (sym e) in
    record { counted = omega (arith, counted); balanced = omega (arith, h.balanced) }

take-IsBalanced : (q : Queue) → IsBalanced q → IsBalanced (take_message q).0
unfolding take_message
take-IsBalanced q h = taken-IsBalanced q.messages q refl h

drained-IsBalanced : (q : Queue) → IsBalanced q → IsBalanced (drained_queue q)
unfolding drained_queue
drained-IsBalanced q h = record { counted = refl; balanced = omega (arith, h.balanced) }

abbrev AllBalanced : Broker → Type 0
AllBalanced b = (ref : ℕ) → IsBalanced (b.store ref)

write-AllBalanced :
    (ref : ℕ) (q : Queue) (b : Broker) → AllBalanced b → IsBalanced q → AllBalanced (write ref q b)
write-AllBalanced ref q b h k r =
    elim (r == ref) as (λ t. IsBalanced (if t then q else b.store r)) [ true ↦ k | false ↦ h r ]

find-AllBalanced :
    (name : Text) (b : Broker)
    → AllBalanced b
    → AllBalanced (create_queue name b).0
      × AllBalanced (delete_queue name b).0
      × AllBalanced (drain_queue name b).0
unfolding create_queue delete_queue drain_queue
find-AllBalanced name b h = elim (Option-cases (find name b.queues)) [
  | inl e ↦ (
    rw (create_queue, e) (write-AllBalanced b.free _ b h new_queue-IsBalanced),
    rw (delete_queue, e) h,
    rw (drain_queue, e) h,
  )
  | inr (ref, e) ↦ (
    rw (create_queue, e) h,
    rw (delete_queue, e) h,
    rw (drain_queue, e) (write-AllBalanced ref _ b h (drained-IsBalanced _ (h ref))),
  )
]

Step-AllBalanced : {b c : Broker} → Step b c → AllBalanced b → AllBalanced c
Step-AllBalanced (create name b) h = (find-AllBalanced name b h).0
Step-AllBalanced (delete name b) h = (find-AllBalanced name b h).1
Step-AllBalanced (drain name b) h = (find-AllBalanced name b h).2
Step-AllBalanced (put ref m b) h =
    write-AllBalanced ref _ b h (appended-IsBalanced m (b.store ref) (h ref))
Step-AllBalanced (take ref b) h =
    write-AllBalanced ref _ b h (take-IsBalanced (b.store ref) (h ref))

Reach-AllBalanced : {b : Broker} → Reach b → AllBalanced b
unfolding new_broker
Reach-AllBalanced start = λ ref. new_queue-IsBalanced
Reach-AllBalanced (after reached step) = Step-AllBalanced step (Reach-AllBalanced reached)

-- A call of `PutMessage` or `GetMessage` that nothing interrupts is at most one such step.
put_message-Step :
    (queue : Text) (id : Option Text) (now : ℕ) (body : Text) (b : Broker)
    → ((put_message queue id now body b).0 ≡ b) ⊎ Step b (put_message queue id now body b).0
unfolding put_message get_queue new_message
put_message-Step queue none now body b = elim (Option-cases (find queue b.queues)) [
  | inl e ↦ rw (put_message, get_queue, e) (inl refl)
  | inr (ref, e) ↦ rw (put_message, get_queue, e) (inl refl)
]
put_message-Step queue (some id) now body b = elim (Option-cases (find queue b.queues)) [
  | inl e ↦ rw (put_message, get_queue, e) (inl refl)
  | inr (ref, e) ↦ rw (put_message, get_queue, e) (inr (put ref _ b))
]

get_message-Step :
    (queue : Text) (b : Broker) → ((get_message queue b).0 ≡ b) ⊎ Step b (get_message queue b).0
unfolding get_message get_queue
get_message-Step queue b = elim (Option-cases (find queue b.queues)) [
  | inl e ↦ rw (get_message, get_queue, e) (inl refl)
  | inr (ref, e) ↦ rw (get_message, get_queue, e) (inr (take ref b))
]

-- A row of the statistics: what was put is what was taken, drained or is still there.
abbrev pub AddsUp : Stat → Type 0
AddsUp s = s.enqueued ≡ word (s.dequeued + s.drained + s.depth)

-- After any critical sections in any order, at any references, every row of the statistics adds up,
-- in whatever order the map is visited: the messages enqueued are, modulo 2 ^ 64, those dequeued, those
-- drained and the depth together.
pub stats-AddsUp :
    {b : Broker} → Reach b → (visited : List (Text × ℕ)) → All AddsUp (stats visited b)
unfolding stats
stats-AddsUp reached [] = tt
stats-AddsUp reached ((name, ref) ∷ rest) =
    ((Reach-AllBalanced reached ref).balanced, stats-AddsUp reached rest)
