-- ===== src/Server/KeyGen.antt =====
-- kuard/pkg/keygen: config.go, keygen.go and api.go, the synthetic workload that the KeyGen page
-- configures. A goroutine that has been started stays in `started`, with its context; calling the
-- cancel function of a context cancels its goroutine. Each section under the mutex is one step.
-- (The counters of ids are 64-bit, here unbounded.)
pub mod Workload
pub mod Running
pub mod Output
pub mod Worker
mod Tests
use kubernetes_up_running.Base.{
  is_empty, ℕ, suc, ◌-◌, Option, some, none, Bool, true, false, ◌&&◌, not, List, [], ◌∷◌, ◌++◌,
  ◌==◌, ltb, length, if◌then◌else◌,
}
use kubernetes_up_running.Base.Int.{ℤ, pos}
use kubernetes_up_running.Js.Text.{Text}
use kubernetes_up_running.Server.Newest.{drop}

pub record Config : Type 0 where
  pub enable : Bool
  pub num_to_gen : ℤ
  pub time_to_run : ℤ
  pub mem_q_server : Text
  pub mem_q_queue : Text
  pub exit_on_complete : Bool
  pub exit_code : ℤ

pub record History : Type 0 where
  pub id : ℕ
  pub text : Text

-- What a goroutine runs: `startWork` of a workload with its id, or of a MemQ worker.
pub data Work : Type 0 where
  workload : ℕ → Config → Work
  mem_q_worker : Config → Work

pub record Goroutine : Type 0 where
  pub context : ℕ
  pub work : Work
  pub cancelled : Bool

pub record KeyGen : Type 0 where
  pub config : Config
  pub history : List History
  pub next_history_id : ℕ
  pub next_workload_id : ℕ
  -- the context that `cancelFunc` cancels
  pub cancel_func : Option ℕ
  -- the contexts made so far
  pub contexts : ℕ
  pub started : List Goroutine

unfoldable pub new : KeyGen
new = record {
  config = record {
    enable = false;
    num_to_gen = pos 0;
    time_to_run = pos 0;
    mem_q_server = [];
    mem_q_queue = [];
    exit_on_complete = false;
    exit_code = pos 0;
  };
  history = [];
  next_history_id = 0;
  next_workload_id = 0;
  cancel_func = none;
  contexts = 0;
  started = [];
}

-- What a call of the cancel function does to the goroutines.
unfoldable pub cancel : ℕ → List Goroutine → List Goroutine
cancel context [] = []
cancel context (g ∷ gs) =
    (if g.context == context then record g { cancelled = true } else g) ∷ cancel context gs

-- "Cancel currently running workload"
unfoldable pub cancel_running : KeyGen → KeyGen
unfolding cancel
cancel_running kg = elim kg.cancel_func [
  | none ↦ kg
  | some context ↦ record kg { started = cancel context kg.started; cancel_func = none }
]

-- A goroutine with a new context.
unfoldable pub start : Work → KeyGen → KeyGen
start work kg = record kg {
  cancel_func = some kg.contexts;
  contexts = suc kg.contexts;
  started = record { context = kg.contexts; work = work; cancelled = false } ∷ kg.started;
}

unfoldable pub uses_mem_q : Config → Bool
uses_mem_q c = not (is_empty c.mem_q_queue) && not (is_empty c.mem_q_server)

unfoldable pub start_enabled : KeyGen → KeyGen
unfolding start uses_mem_q
start_enabled kg =
    if uses_mem_q kg.config
    then start (mem_q_worker kg.config) kg
    else start (workload kg.next_workload_id kg.config)
        (record kg { next_workload_id = suc kg.next_workload_id })

unfoldable pub restart : KeyGen → KeyGen
unfolding cancel_running start_enabled
restart kg = let idle = cancel_running kg in if kg.config.enable then start_enabled idle else idle

abbrev pub max_history : ℕ
max_history = 20

unfoldable pub trim : List History → List History
trim history =
    if ltb max_history (length history)
    then drop (length history - max_history) history
    else history

unfoldable pub workload_output : Text → KeyGen → KeyGen
unfolding trim
workload_output s kg = record kg {
  history = trim (kg.history ++ record { id = kg.next_history_id; text = s } ∷ []);
  next_history_id = suc kg.next_history_id;
}

-- The assignment of `LoadConfig`, which stands outside the mutex.
unfoldable pub write_config : Config → KeyGen → KeyGen
write_config c kg = record kg { config = c }

unfoldable pub load_config : Config → KeyGen → KeyGen
unfolding write_config restart
load_config c kg = restart (write_config c kg)

pub record KeyGenStatus : Type 0 where
  pub config : Config
  pub history : List History

unfoldable pub api_get : KeyGen → KeyGenStatus
api_get kg = record { config = kg.config; history = kg.history }

-- `none` is a body that does not decode, answered with status 400.
unfoldable pub api_put : Option Config → KeyGen → KeyGen × Option KeyGenStatus
unfolding load_config api_get
api_put none kg = (kg, none)
api_put (some c) kg = (load_config c kg, some (api_get (load_config c kg)))
