-- ===== src/Server/KeyGen/Tests.antt =====
-- The theorems on the synthetic workload at a concrete configuration.
use kubernetes_up_running.Base.{
  ℕ, ◌≤◌, ◌≡◌, refl, some, true, false, List, [], ◌∷◌, ◌++◌, length, arith,
}
use kubernetes_up_running.Base.Int.{pos}
use kubernetes_up_running.Js.Text.{Text, codes, text_eq}
use kubernetes_up_running.Client.Browser.{fulfilled}
use kubernetes_up_running.Client.KeyGen as Page
use kubernetes_up_running.Server.Newest.{newest}
use kubernetes_up_running.Server.Broker.{
  Broker, Message, find, write, new_queue, new_broker, create_queue, appended,
}
use kubernetes_up_running.Server.KeyGen.{Config, new, write_config, load_config, api_get}
use kubernetes_up_running.Server.KeyGen.Workload as Workload
use kubernetes_up_running.Server.KeyGen.Workload.{Signal, nothing, exits, starting, exiting}
use kubernetes_up_running.Server.KeyGen.Workload.Ending.{Stops, found, end_after, start_work-Stops}
use kubernetes_up_running.Server.KeyGen.Workload.Ending as Ending
use kubernetes_up_running.Server.KeyGen.Running.{
  Reach, Step, IsSingle, running, restarted, Reach-IsSingle, load_config-running,
}
use kubernetes_up_running.Server.KeyGen.Output.{
  Event, output, put, after, said, shown, answer_with, history_shown,
}
use kubernetes_up_running.Server.KeyGen.Worker as Worker
use kubernetes_up_running.Server.KeyGen.Worker.Draining.{serve, items, start_work_drains}

abbrev config : Config
config = record {
  enable = true;
  num_to_gen = pos 2;
  time_to_run = pos 0;
  mem_q_server = codes "http://localhost:8080/memq/server";
  mem_q_queue = codes "work";
  exit_on_complete = true;
  exit_code = pos 3;
}

abbrev world : Workload.World
world = record { signal = λ i. nothing; key = λ i. codes "SHA256:k"; left = λ i. [] }

start_work-Stops_example :
    (made : ℕ) × Stops world 7 config 2 0 made
    × (Workload.start_work 3 world 7 config
        ≡ some (
          starting 7 ∷ (Ending.items world 7 config 0 made ++ exiting 7 ∷ []),
          end_after config (found world 7 config made),
        ))
start_work-Stops_example = start_work-Stops world 7 config 1 3 refl (omega arith)

loaded-Reach : Reach (load_config config new)
unfolding load_config
loaded-Reach = Reach.after (Reach.after Reach.fresh (Step.write config new)) (Step.restarts _)

Reach-IsSingle_example : IsSingle (load_config config new)
Reach-IsSingle_example = Reach-IsSingle loaded-Reach

load_config-running_example :
    running (load_config config (load_config config new)).started
    ≡ restarted (write_config config (load_config config new))
load_config-running_example = load_config-running config loaded-Reach

abbrev events : List Event
events = output (codes "one") ∷ put config ∷ output (codes "two") ∷ []

abbrev page : Page.KeyGen
page = Page.construct (codes "/keygen")

history_shown_example :
    (Page.render_history
        (Page.load_settled false page (fulfilled (answer_with (api_get (after events new))))).0
      ≡ shown (newest 20 (said events)))
    × (length (after events new).history ≤ 20)
history_shown_example = history_shown false page events

abbrev work : Text
work = codes "work"

abbrev item : Message
item = record { id = codes "0a"; body = codes "one"; created = 1 }

abbrev filled : Broker
filled = let b = (create_queue work new_broker).0 in write 0 (appended item (b.store 0)) b

abbrev worker_world : Worker.World
worker_world = record {
  cancelled = λ i. false;
  key = λ i. codes "SHA256:k";
  error_text = λ e. codes "error";
}

start_work_drains_example :
    (left : Broker) × (find work left.queues ≡ some 0)
    × ((left.store 0).messages ≡ [])
    × (Worker.start_work serve 2 worker_world config filled
        ≡ some (left, codes "MemQ Worker starting" ∷ items worker_world 0 1, exits (pos 3)))
unfolding create_queue new_broker find text_eq appended new_queue
start_work_drains_example =
    start_work_drains _ _ 0 worker_world config filled _ 2 refl refl (λ i. refl) refl refl
      (omega arith)
