-- ===== src/Server/Broker/Deleted.antt =====
-- A queue that is deleted while a call of `PutMessage` holds a reference to it.
use kubernetes_up_running.Base.{
  ℕ, suc, ◌<◌, ◌≡◌, refl, sym, ◌∙◌, Option, some, none, Option-cases, Bool-cases, inl, inr, true,
  false, List, [], ◌∷◌, arith, ◌==◌,
}
use kubernetes_up_running.Js.Text.{Text, text_eq, text_eq_refl}
use kubernetes_up_running.Server.Broker.{
  ok, err, empty_queue, not_exist, Message, Queue, Broker, new_queue, new_broker, find, delete,
  write, create_queue, delete_queue, drain_queue, appended, take_message, get_message, get_queue,
  put_message,
}
use kubernetes_up_running.Server.Broker.Counters.{Step, Reach}

find-delete_same : (name : Text) (qs : List (Text × ℕ)) → find name (delete name qs) ≡ none
unfolding find delete
find-delete_same name [] = refl
find-delete_same name ((key, ref) ∷ rest) = elim (Bool-cases (text_eq name key)) [
  | inl e ↦ rw (delete, e) (find-delete_same name rest)
  | inr e ↦ rw (delete, e) (rw (find, e) (find-delete_same name rest))
]

-- Every reference in the map is one that was allocated.
abbrev Below : ℕ → List (Text × ℕ) → Type 0
Below free [] = Unit
Below free ((key, ref) ∷ rest) = (ref < free) × Below free rest

Below-suc : (free : ℕ) (qs : List (Text × ℕ)) → Below free qs → Below (suc free) qs
Below-suc free [] h = tt
Below-suc free ((key, ref) ∷ rest) h = (omega (arith, h.0), Below-suc free rest h.1)

Below-delete :
    (free : ℕ) (name : Text) (qs : List (Text × ℕ)) → Below free qs → Below free (delete name qs)
unfolding delete
Below-delete free name [] h = tt
Below-delete free name ((key, ref) ∷ rest) h = elim (Bool-cases (text_eq name key)) [
  | inl e ↦ rw (delete, e) (Below-delete free name rest h.1)
  | inr e ↦ rw (delete, e) (h.0, Below-delete free name rest h.1)
]

find_other :
    (name key : Text) (ref : ℕ) (qs : List (Text × ℕ))
    → text_eq name key ≡ false
    → find name ((key, ref) ∷ qs) ≡ find name qs
unfolding find
find_other name key ref qs e = rw e refl

find-Below :
    (free : ℕ) (name : Text) (qs : List (Text × ℕ)) (ref : ℕ)
    → Below free qs
    → find name qs ≡ some ref
    → ref < free
unfolding find
find-Below free name [] ref h e = cc
find-Below free name ((key, other) ∷ rest) ref h e = elim (Bool-cases (text_eq name key)) [
  | inl t ↦ ground (arith, t, e, h.0)
  | inr t ↦ find-Below free name rest ref h.1 (sym (find_other name key other rest t) ∙ e)
]

abbrev IsAllocated : Broker → Type 0
IsAllocated b = Below b.free b.queues

Step-IsAllocated : {b c : Broker} → Step b c → IsAllocated b → IsAllocated c
unfolding create_queue delete_queue drain_queue
Step-IsAllocated (Step.create name b) h = elim (Option-cases (find name b.queues)) [
  | inl e ↦ rw (create_queue, e) (omega arith, Below-suc b.free b.queues h)
  | inr (ref, e) ↦ rw (create_queue, e) h
]
Step-IsAllocated (Step.delete name b) h = elim (Option-cases (find name b.queues)) [
  | inl e ↦ rw (delete_queue, e) h
  | inr (ref, e) ↦ rw (delete_queue, e) (Below-delete b.free name b.queues h)
]
Step-IsAllocated (Step.drain name b) h = elim (Option-cases (find name b.queues)) [
  | inl e ↦ rw (drain_queue, e) h
  | inr (ref, e) ↦ rw (drain_queue, e) h
]
Step-IsAllocated (Step.put ref m b) h = h
Step-IsAllocated (Step.take ref b) h = h

Reach-IsAllocated : {b : Broker} → Reach b → IsAllocated b
unfolding new_broker
Reach-IsAllocated Reach.start = tt
Reach-IsAllocated (Reach.after reached step) = Step-IsAllocated step (Reach-IsAllocated reached)

find_created :
    (name : Text) (b : Broker)
    → find name b.queues ≡ none
    → find name (create_queue name b).0.queues ≡ some b.free
unfolding create_queue find
find_created name b e = rw (create_queue, e) (rw (find, text_eq_refl name) refl)

-- What is written at an old reference is not in a queue created later.
get_message_fresh :
    (name : Text) (ref : ℕ) (q : Queue) (b : Broker)
    → ref < b.free
    → find name b.queues ≡ none
    → let c = (create_queue name b).0 in (get_message name (write ref q c)).1 ≡ err empty_queue
unfolding create_queue get_message get_queue take_message new_queue
get_message_fresh name ref q b old e =
    let other : (b.free == ref) ≡ false = ground arith in
    let same : (b.free == b.free) ≡ true = ground arith in
    rw (create_queue, e)
      (rw (get_message, get_queue, find, text_eq_refl name)
        (rw (take_message, other, same, new_queue) refl))

get_queue-find :
    (name : Text) (ref : ℕ) (b : Broker) → get_queue name b ≡ ok ref → find name b.queues ≡ some ref
unfolding get_queue
get_queue-find name ref b got = elim (Option-cases (find name b.queues)) [
  | inl e ↦ let failed : get_queue name b ≡ err not_exist = rw (get_queue, e) refl in cc
  | inr (found, e) ↦ let same : get_queue name b ≡ ok found = rw (get_queue, e) refl in cc
]

-- In any reachable state: if `PutMessage` has its reference to a queue, and the queue is then deleted
-- and created again before the message is appended, the next `GetMessage` answers that the queue is
-- empty.
pub put_deleted_lost :
    {b : Broker} (name : Text) (ref : ℕ) (m : Message)
    → Reach b
    → get_queue name b ≡ ok ref
    → let c = (create_queue name (delete_queue name b).0).0 in
      (get_message name (write ref (appended m (c.store ref)) c)).1 ≡ err empty_queue
unfolding get_queue delete_queue
put_deleted_lost {b} name ref m reached got =
    let found = get_queue-find name ref b got in
    let allocated = find-Below b.free name b.queues ref (Reach-IsAllocated reached) found in
    rw (delete_queue, found)
      (get_message_fresh name ref _ (record b { queues = delete name b.queues }) allocated
        (find-delete_same name b.queues))

delete_queue-find : (name : Text) (b : Broker) → find name (delete_queue name b).0.queues ≡ none
unfolding delete_queue
delete_queue-find name b = elim (Option-cases (find name b.queues)) [
  | inl e ↦ rw (delete_queue, e) e
  | inr (ref, e) ↦ rw (delete_queue, e) (find-delete_same name b.queues)
]

absent :
    (name : Text) (id : Option Text) (now : ℕ) (body : Text) (b : Broker)
    → find name b.queues ≡ none
    → (delete_queue name b ≡ (b, some not_exist))
      × (drain_queue name b ≡ (b, some not_exist))
      × (put_message name id now body b ≡ (b, err not_exist))
      × (get_message name b ≡ (b, err not_exist))
      × ((create_queue name b).1 ≡ none)
unfolding delete_queue drain_queue put_message get_message get_queue create_queue
absent name id now body b e = (
  rw (delete_queue, e) refl,
  rw (drain_queue, e) refl,
  rw (put_message, get_queue, e) refl,
  rw (get_message, get_queue, e) refl,
  rw (create_queue, e) refl,
)

-- After `DeleteQueue`, whatever its answer, every operation on the name answers that the queue does
-- not exist and changes nothing (whether or not an id could be drawn for a message), except that
-- `CreateQueue` succeeds.
pub deleted_not_exist :
    (name : Text) (id : Option Text) (now : ℕ) (body : Text) (b : Broker)
    → let c = (delete_queue name b).0 in
      (delete_queue name c ≡ (c, some not_exist))
      × (drain_queue name c ≡ (c, some not_exist))
      × (put_message name id now body c ≡ (c, err not_exist))
      × (get_message name c ≡ (c, err not_exist))
      × ((create_queue name c).1 ≡ none)
deleted_not_exist name id now body b =
    let gone = delete_queue-find name b in absent name id now body (delete_queue name b).0 gone
