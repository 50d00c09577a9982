-- ===== src/Server/KeyGen/Worker/Draining.antt =====
-- A worker on the queue of a broker: every message is worked on, and then the worker ends the process.
use kubernetes_up_running.Base.{
  ℕ, zero, suc, ◌<◌, ◌≡◌, refl, ap, ◌∙◌, Option, some, true, false, List, [], ◌∷◌, arith, length,
  if◌then◌else◌,
}
use kubernetes_up_running.Js.Text.{Text, codes}
use kubernetes_up_running.Server.Broker.{
  Broker, Message, Result, ok, err, empty_queue, find, get_message,
}
use kubernetes_up_running.Server.Broker.Api.{Reply, answered, plain, dequeue_handler, get_reply}
use kubernetes_up_running.Server.Broker.Fifo.{Holds, get_message-Holds, get_message-Holds_none}
use kubernetes_up_running.Server.Broker.Client.{dequeue_answer, error_from_response}
use kubernetes_up_running.Server.KeyGen.{Config}
use kubernetes_up_running.Server.KeyGen.Workload.{exits, returns}
use kubernetes_up_running.Server.KeyGen.Worker.{
  World, Outcome, item_done, log_first, handle_answer, loop, start_work,
}

-- The broker's server, when every request reaches it and every reply comes back.
abbrev pub serve : Text → Broker → Broker × Option (Reply Message)
serve queue b = let (after, reply) = dequeue_handler queue b in (after, some reply)

-- The lines of so many rounds with a message, from a round on.
abbrev pub items : World → ℕ → ℕ → List Text
items w round zero = []
items w round (suc n) = item_done (w.key round) ∷ items w (suc round) n

get_reply-ok :
    (r : Broker × Result Message) (m : Message) → r.1 ≡ ok m → get_reply r ≡ (r.0, answered m)
get_reply-ok (b, r) m e = rw e refl

get_reply-empty_queue :
    (r : Broker × Result Message) → r.1 ≡ err empty_queue → get_reply r ≡ (r.0, plain 204)
get_reply-empty_queue (b, r) e = rw e refl

-- A round that is not cancelled.
loop_step :
    {Server : Type 0} (dequeue : Text → Server → Server × Option (Reply Message)) (fuel : ℕ)
    (w : World) (c : Config) (round : ℕ) (server after : Server) (reply : Option (Reply Message))
    → w.cancelled round ≡ false
    → dequeue c.mem_q_queue server ≡ (after, reply)
    → loop dequeue (suc fuel) w c round server
      ≡ handle_answer dequeue w c round
          (dequeue_answer reply)
          after
          (loop dequeue fuel w c (suc round) after)
unfolding loop
loop_step {Server} dequeue fuel w c round server after reply going e =
    let rest : Server × Option (Reply Message) → Outcome Server = λ r.
      handle_answer dequeue w c round (dequeue_answer r.1) r.0
        (loop dequeue fuel w c (suc round) r.0) in
    ap
      (λ t.
        if t
        then some (server, codes "MemQ Worker shutting down" ∷ [], returns)
        else rest (dequeue c.mem_q_queue server))
      going
    ∙ ap rest e

module _ (letter : ℕ) (rest : Text) (ref : ℕ) where
  abbrev queue : Text
  queue = letter ∷ rest

  -- A request to dequeue, when the queue has a message and when it has none.
  serve_message :
      (m : Message) (ms : List Message) (b : Broker)
      → Holds queue ref (m ∷ ms) b
      → (after : Broker) × Holds queue ref ms after × (serve queue b ≡ (after, some (answered m)))
  unfolding dequeue_handler
  serve_message m ms b h =
      let (left, answer) = get_message-Holds queue ref m ms b h in
      let reply = get_reply-ok (get_message queue b) m answer in
      ((get_message queue b).0, left, ap (λ r. (r.0, some r.1)) reply)

  serve_empty :
      (b : Broker)
      → Holds queue ref [] b
      → (after : Broker) × Holds queue ref [] after × (serve queue b ≡ (after, some (plain 204)))
  unfolding dequeue_handler
  serve_empty b h =
      let (left, answer) = get_message-Holds_none queue ref b h in
      let reply = get_reply-empty_queue (get_message queue b) answer in
      ((get_message queue b).0, left, ap (λ r. (r.0, some r.1)) reply)

  module _ (w : World) (c : Config) (queued : c.mem_q_queue ≡ queue)
      (exiting : c.exit_on_complete ≡ true) where
    round_message :
        (fuel round : ℕ) (m : Message) (b after : Broker)
        → w.cancelled round ≡ false
        → serve queue b ≡ (after, some (answered m))
        → loop serve (suc fuel) w c round b
          ≡ log_first (item_done (w.key round)) (loop serve fuel w c (suc round) after)
    unfolding dequeue_answer error_from_response
    round_message fuel round m b after going e =
        loop_step serve fuel w c round b after _ going (ap (λ q. serve q b) queued ∙ e)

    round_empty :
        (fuel round : ℕ) (b after : Broker)
        → w.cancelled round ≡ false
        → serve queue b ≡ (after, some (plain 204))
        → loop serve (suc fuel) w c round b ≡ some (after, [], exits c.exit_code)
    unfolding dequeue_answer error_from_response
    round_empty fuel round b after going e =
        loop_step serve fuel w c round b after _ going (ap (λ q. serve q b) queued ∙ e)
        ∙ ap
            (λ t.
              if t
              then some (after, [], exits c.exit_code)
              else log_first (codes "Queue is empty. Retrying after 1s.")
                  (loop serve fuel w c (suc round) after))
            exiting

    -- What is left when the worker has ended the process.
    record Drained (fuel round n : ℕ) (b : Broker) : Type 0 where
      after : Broker
      empty : Holds queue ref [] after
      says : loop serve fuel w c round b ≡ some (after, items w round n, exits c.exit_code)

    loop-Drained :
        (ms : List Message) (fuel round : ℕ) (b : Broker)
        → length ms < fuel
        → ((i : ℕ) → w.cancelled i ≡ false)
        → Holds queue ref ms b
        → Drained fuel round (length ms) b
    loop-Drained ms zero round b enough going h = absurd (omega arith)
    loop-Drained [] (suc fuel) round b enough going h =
        let (after, left, e) = serve_empty b h in
        record {
          after = after;
          empty = left;
          says = round_empty fuel round b after (going round) e;
        }
    loop-Drained (m ∷ ms) (suc fuel) round b enough going h =
        let (after, left, e) = serve_message m ms b h in
        let r = loop-Drained ms fuel (suc round) after (omega arith) going left in
        record {
          after = r.after;
          empty = r.empty;
          says =
              round_message fuel round m b after (going round) e
              ∙ ap (log_first (item_done (w.key round))) r.says;
        }

-- If the queue of the configuration holds some messages, every request reaches the broker's server and
-- every reply comes back, the context is not cancelled, and the configuration says to exit on
-- completion, then with fuel for each message and a last round the worker says that it starts, then a
-- line for each message, and then ends the process with the configured code. The queue is then empty.
pub start_work_drains :
    (letter : ℕ) (rest : Text) (ref : ℕ) (w : World) (c : Config) (b : Broker) (ms : List Message)
    (fuel : ℕ)
    → c.mem_q_queue ≡ letter ∷ rest
    → c.exit_on_complete ≡ true
    → ((i : ℕ) → w.cancelled i ≡ false)
    → find (letter ∷ rest) b.queues ≡ some ref
    → (b.store ref).messages ≡ ms
    → length ms < fuel
    → (after : Broker) × (find (letter ∷ rest) after.queues ≡ some ref)
      × ((after.store ref).messages ≡ [])
      × (start_work serve fuel w c b
          ≡ some (after, codes "MemQ Worker starting" ∷ items w 0 (length ms), exits c.exit_code))
unfolding start_work
start_work_drains letter rest ref w c b ms fuel queued exiting going found stored enough =
    let r =
      loop-Drained letter rest ref w c queued exiting ms fuel 0 b enough going
        (record { found = found; stored = stored }) in
    (r.after, r.empty.found, r.empty.stored, ap (log_first (codes "MemQ Worker starting")) r.says)
