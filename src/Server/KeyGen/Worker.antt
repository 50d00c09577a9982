-- ===== src/Server/KeyGen/Worker.antt =====
-- kuard/pkg/keygen/memq.go: the worker that takes work items from a queue. The server is a parameter:
-- what a request to dequeue does to its state, and the reply (`none` if there is none).
pub mod Draining
use kubernetes_up_running.Base.{
  ℕ, zero, suc, Option, some, none, Bool, List, [], ◌∷◌, ◌++◌, if◌then◌else◌,
}
use kubernetes_up_running.Js.Text.{Text, codes}
use kubernetes_up_running.Server.Broker.{Message}
use kubernetes_up_running.Server.Broker.Api.{Reply}
use kubernetes_up_running.Server.Broker.Client.{Failure, Answer, got, fails, dequeue_answer}
use kubernetes_up_running.Server.KeyGen.{Config}
use kubernetes_up_running.Server.KeyGen.Workload.{End, returns, exits, described}

-- What the worker meets: whether each look at its context finds it cancelled, the key that
-- `generateKey` describes in each round, and the texts of errors.
pub record World : Type 0 where
  pub cancelled : ℕ → Bool
  pub key : ℕ → Text
  pub error_text : Failure → Text

unfoldable pub item_done : Text → Text
unfolding described
item_done desc = codes "Item done" ++ described desc

-- What the worker has at the end: the state of the server, its lines, and how it ended.
abbrev pub Outcome : Type 0 → Type 0
Outcome Server = Option (Server × List Text × End)

abbrev pub log_first : {Server : Type 0} → Text → Outcome Server → Outcome Server
log_first line none = none
log_first line (some (server, lines, end)) = some (server, line ∷ lines, end)

module _ {Server : Type 0} (dequeue : Text → Server → Server × Option (Reply Message)) where
  -- The rest of a round after `Dequeue`; `more` is the rest of the loop.
  abbrev pub handle_answer :
      World → Config → ℕ → Answer (Option Message) → Server → Outcome Server → Outcome Server
  handle_answer w c round (fails e) server more =
      log_first
        (codes "Error talking to server: " ++ w.error_text e ++ codes ". Retrying after 1s.") more
  handle_answer w c round (got none) server more =
      if c.exit_on_complete
      then some (server, [], exits c.exit_code)
      else log_first (codes "Queue is empty. Retrying after 1s.") more
  handle_answer w c round (got (some m)) server more = log_first (item_done (w.key round)) more

  -- The loop, by fuel, one unit for each round.
  unfoldable pub loop : ℕ → World → Config → ℕ → Server → Outcome Server
  unfolding item_done dequeue_answer
  loop zero w c round server = none
  loop (suc fuel) w c round server =
      let (after, reply) = dequeue c.mem_q_queue server in
      let more = loop fuel w c (suc round) after in
      let rest = handle_answer w c round (dequeue_answer reply) after more in
      if w.cancelled round
      then some (server, codes "MemQ Worker shutting down" ∷ [], returns)
      else rest

  unfoldable pub start_work : ℕ → World → Config → Server → Outcome Server
  unfolding loop
  start_work fuel w c server = log_first (codes "MemQ Worker starting") (loop fuel w c 0 server)
