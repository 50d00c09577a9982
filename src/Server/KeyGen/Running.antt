-- ===== src/Server/KeyGen/Running.antt =====
-- Which workloads run: at most one at a time.
use mathlib.Core.Path.{subst}
use kubernetes_up_running.Base.{
  ℕ, ◌≡◌, refl, ap, sym, ◌∙◌, inl, inr, some, none, Bool, true, false, List, [], ◌∷◌, arith, ◌==◌,
  Bool-cases, Option-cases, if◌then◌else◌,
}
use kubernetes_up_running.Js.Text.{Text}
use kubernetes_up_running.Server.KeyGen.{
  Config, Work, workload, mem_q_worker, Goroutine, KeyGen, new, cancel, cancel_running, start,
  uses_mem_q, start_enabled, restart, workload_output, write_config, load_config,
}

-- The goroutines that are not cancelled, the newest first.
abbrev pub running : List Goroutine → List Goroutine
running [] = []
running (g ∷ gs) = let others = running gs in if g.cancelled then others else g ∷ others

abbrev without : ℕ → List Goroutine → List Goroutine
without context [] = []
without context (g ∷ gs) =
    let others = without context gs in if g.context == context then others else g ∷ others

running-cancel :
    (context : ℕ) (gs : List Goroutine) → running (cancel context gs) ≡ without context (running gs)
unfolding cancel
running-cancel context [] = refl
running-cancel context (g ∷ gs) = ground (arith, running-cancel context gs)

-- The sections that requests and workloads run, in any order: the assignment of `LoadConfig`,
-- `Restart`, and a line of a workload's log.
pub data Step : KeyGen → KeyGen → Type 0 where
  write : (c : Config) (kg : KeyGen) → Step kg (write_config c kg)
  restarts : (kg : KeyGen) → Step kg (restart kg)
  output : (s : Text) (kg : KeyGen) → Step kg (workload_output s kg)

pub data Reach : KeyGen → Type 0 where
  fresh : Reach new
  after : {kg later : KeyGen} → Reach kg → Step kg later → Reach later

-- What `cancelFunc` cancels is what runs.
pub data IsSingle (kg : KeyGen) : Type 0 where
  idle : kg.cancel_func ≡ none → running kg.started ≡ [] → IsSingle kg
  busy :
      (g : Goroutine) → kg.cancel_func ≡ some g.context → running kg.started ≡ g ∷ [] → IsSingle kg

cancel_running-idle :
    (kg : KeyGen)
    → IsSingle kg
    → ((cancel_running kg).cancel_func ≡ none) × (running (cancel_running kg).started ≡ [])
unfolding cancel_running
cancel_running-idle kg (idle c r) = rw (cancel_running, c) (c, r)
cancel_running-idle kg (busy g c r) =
    let same : (g.context == g.context) ≡ true = ground arith in
    rw (cancel_running, c)
      (refl, running-cancel g.context kg.started ∙ ap (without g.context) r ∙ rw same refl)

-- What runs after a start: a MemQ worker if a queue and a server are given, else a workload.
abbrev pub chosen : (queue server : Text) → ℕ → Config → Work
chosen [] server id c = workload id c
chosen (x ∷ queue) [] id c = workload id c
chosen (x ∷ queue) (y ∷ server) id c = mem_q_worker c

abbrev pub newest_goroutine : KeyGen → Goroutine
newest_goroutine kg = record {
  context = kg.contexts;
  work = chosen kg.config.mem_q_queue kg.config.mem_q_server kg.next_workload_id kg.config;
  cancelled = false;
}

start_enabled-started :
    (kg : KeyGen)
    → ((start_enabled kg).started ≡ newest_goroutine kg ∷ kg.started)
      × ((start_enabled kg).cancel_func ≡ some kg.contexts)
unfolding start_enabled start uses_mem_q
start_enabled-started kg = go kg.config.mem_q_queue kg.config.mem_q_server refl refl
  where
    go :
        (queue server : Text)
        → kg.config.mem_q_queue ≡ queue
        → kg.config.mem_q_server ≡ server
        → ((start_enabled kg).started ≡ newest_goroutine kg ∷ kg.started)
          × ((start_enabled kg).cancel_func ≡ some kg.contexts)
    go [] server q s = rw (start_enabled, q) (refl, refl)
    go (x ∷ queue) [] q s = rw (start_enabled, q, s) (refl, refl)
    go (x ∷ queue) (y ∷ server) q s = rw (start_enabled, q, s) (refl, refl)

-- What `cancel_running` leaves alone.
cancel_running-kept :
    (kg : KeyGen)
    → ((cancel_running kg).config ≡ kg.config)
      × ((cancel_running kg).contexts ≡ kg.contexts)
      × ((cancel_running kg).next_workload_id ≡ kg.next_workload_id)
unfolding cancel_running
cancel_running-kept kg = elim (Option-cases kg.cancel_func) [
  | inl c ↦ rw (cancel_running, c) (refl, refl, refl)
  | inr (context, c) ↦ rw (cancel_running, c) (refl, refl, refl)
]

newest_goroutine-cancel_running :
    (kg : KeyGen) → newest_goroutine (cancel_running kg) ≡ newest_goroutine kg
newest_goroutine-cancel_running kg =
    let (config, contexts, ids) = cancel_running-kept kg in rw (config, contexts, ids) refl

start_enabled-running :
    (kg : KeyGen)
    → running kg.started ≡ []
    → running (start_enabled kg).started ≡ newest_goroutine kg ∷ []
start_enabled-running kg r =
    ap running (start_enabled-started kg).0 ∙ ap (λ gs. newest_goroutine kg ∷ gs) r

-- What runs after `Restart`.
abbrev pub restarted : KeyGen → List Goroutine
restarted kg = if kg.config.enable then newest_goroutine kg ∷ [] else []

restart_on :
    (kg : KeyGen) → kg.config.enable ≡ true → restart kg ≡ start_enabled (cancel_running kg)
unfolding restart
restart_on kg e = ap (λ b. if b then start_enabled (cancel_running kg) else cancel_running kg) e

restart_off : (kg : KeyGen) → kg.config.enable ≡ false → restart kg ≡ cancel_running kg
unfolding restart
restart_off kg e = ap (λ b. if b then start_enabled (cancel_running kg) else cancel_running kg) e

if_eq : {A : Type 0} (b c : Bool) (x y : A) → b ≡ c → (if b then x else y) ≡ (if c then x else y)
if_eq b c x y e = ap (λ t. if t then x else y) e

restart-running : (kg : KeyGen) → IsSingle kg → running (restart kg).started ≡ restarted kg
restart-running kg h =
    let (none_left, quiet) = cancel_running-idle kg h in
    elim (Bool-cases kg.config.enable) [
      | inl on ↦
          ap (λ t. running t.started) (restart_on kg on)
          ∙ start_enabled-running (cancel_running kg) quiet
          ∙ ap (λ g. g ∷ []) (newest_goroutine-cancel_running kg)
          ∙ sym (if_eq _ true (newest_goroutine kg ∷ []) [] on)
      | inr off ↦
          ap (λ t. running t.started) (restart_off kg off)
          ∙ quiet
          ∙ sym (if_eq _ false (newest_goroutine kg ∷ []) [] off)
    ]

restart-IsSingle : (kg : KeyGen) → IsSingle kg → IsSingle (restart kg)
restart-IsSingle kg h =
    let (none_left, quiet) = cancel_running-idle kg h in
    elim (Bool-cases kg.config.enable) [
      | inl on ↦ subst IsSingle (sym (restart_on kg on)) (
          busy (newest_goroutine (cancel_running kg)) (start_enabled-started (cancel_running kg)).1
            (start_enabled-running (cancel_running kg) quiet))
      | inr off ↦ subst IsSingle (sym (restart_off kg off)) (idle none_left quiet)
    ]

write_config-IsSingle : (c : Config) (kg : KeyGen) → IsSingle kg → IsSingle (write_config c kg)
unfolding write_config
write_config-IsSingle c kg (idle n r) = idle n r
write_config-IsSingle c kg (busy g n r) = busy g n r

workload_output-IsSingle : (s : Text) (kg : KeyGen) → IsSingle kg → IsSingle (workload_output s kg)
unfolding workload_output
workload_output-IsSingle s kg (idle n r) = idle n r
workload_output-IsSingle s kg (busy g n r) = busy g n r

-- In every state that requests and workloads reach, in whatever order their sections run, either
-- nothing runs and there is nothing to cancel, or one goroutine runs and `cancelFunc` cancels it.
pub Reach-IsSingle : {kg : KeyGen} → Reach kg → IsSingle kg
unfolding new
Reach-IsSingle fresh = idle refl refl
Reach-IsSingle (after reached (write c kg)) = write_config-IsSingle c kg (Reach-IsSingle reached)
Reach-IsSingle (after reached (restarts kg)) = restart-IsSingle kg (Reach-IsSingle reached)
Reach-IsSingle (after reached (output s kg)) =
    workload_output-IsSingle s kg (Reach-IsSingle reached)

-- After `LoadConfig` in such a state nothing runs, if the configuration is not enabled, and otherwise
-- one new goroutine: a MemQ worker, if the configuration has a queue and a server, and else a
-- workload with the next id. It has the whole configuration.
pub load_config-running :
    {kg : KeyGen} (c : Config)
    → Reach kg
    → running (load_config c kg).started ≡ restarted (write_config c kg)
unfolding load_config
load_config-running {kg} c reached =
    restart-running (write_config c kg) (write_config-IsSingle c kg (Reach-IsSingle reached))
