-- ===== src/Server/KeyGen/Output.antt =====
-- The log that the KeyGen page shows is what the workloads said last.
use mathlib.Core.List.{append_assoc, append-nil}
use kubernetes_up_running.Base.{
  ℕ, suc, ◌≤◌, ◌≡◌, refl, sym, ap, ◌∙◌, Option, some, none, true, List, [], ◌∷◌, ◌++◌, map, reverse,
  length, arith, Bool, false,
}
use kubernetes_up_running.Js.Text.{Text, codes}
use kubernetes_up_running.Client.Browser.{HttpResponse, fulfilled, checked_json}
use kubernetes_up_running.Client.KeyGen as Page
use kubernetes_up_running.Server.Newest.{
  newest, trimmed-newest, newest-newest-concat, length-newest, map-newest,
}
use kubernetes_up_running.Server.KeyGen.{
  KeyGen, Config, History, KeyGenStatus, new, trim, workload_output, load_config, write_config,
  restart, api_get, cancel_running, start_enabled, start,
}

-- What happens to the log: a line of output, or a new configuration.
pub data Event : Type 0 where
  output : Text → Event
  put : Config → Event

pub after : List Event → KeyGen → KeyGen
after [] kg = kg
after (output s ∷ events) kg = after events (workload_output s kg)
after (put c ∷ events) kg = after events (load_config c kg)

-- All lines, numbered, with nothing forgotten.
pub lines : ℕ → List Event → List History
lines id [] = []
lines id (output s ∷ events) = record { id = id; text = s } ∷ lines (suc id) events
lines id (put c ∷ events) = lines id events

trim-newest : (xs : List History) → trim xs ≡ newest 20 xs
unfolding trim
trim-newest = trimmed-newest

history-output :
    (s : Text) (kg : KeyGen) (past : List History)
    → kg.history ≡ newest 20 past
    → (workload_output s kg).history
      ≡ newest 20 (past ++ record { id = kg.next_history_id; text = s } ∷ [])
unfolding workload_output
history-output s kg past h =
    let line : History = record { id = kg.next_history_id; text = s } in
    trim-newest (kg.history ++ line ∷ [])
    ∙ ap (λ l. newest 20 (l ++ line ∷ [])) h
    ∙ newest-newest-concat past line

-- What a new configuration leaves alone.
load_config-kept :
    (c : Config) (kg : KeyGen)
    → ((load_config c kg).history ≡ kg.history)
      × ((load_config c kg).next_history_id ≡ kg.next_history_id)
unfolding load_config write_config restart cancel_running start_enabled start
load_config-kept c kg = ground arith

after-history :
    (events : List Event) (kg : KeyGen) (past : List History)
    → kg.history ≡ newest 20 past
    → (after events kg).history ≡ newest 20 (past ++ lines kg.next_history_id events)
unfolding after lines workload_output
after-history [] kg past h = h ∙ ap (newest 20) (sym (append-nil past))
after-history (output s ∷ events) kg past h =
    after-history events (workload_output s kg)
      (past ++ record { id = kg.next_history_id; text = s } ∷ []) (history-output s kg past h)
    ∙ ap (newest 20) (append_assoc past (record { id = kg.next_history_id; text = s } ∷ []) _)
after-history (put c ∷ events) kg past h =
    let (same, id) = load_config-kept c kg in
    after-history events (load_config c kg) past (same ∙ h)
    ∙ ap (λ n. newest 20 (past ++ lines n events)) id

-- The texts of the output, with nothing forgotten.
pub said : List Event → List Text
said [] = []
said (output s ∷ events) = s ∷ said events
said (put c ∷ events) = said events

map-lines :
    (id : ℕ) (events : List Event) → map (λ (h : History). h.text) (lines id events) ≡ said events
unfolding lines said
map-lines id [] = refl
map-lines id (output s ∷ events) = ap (λ l. s ∷ l) (map-lines (suc id) events)
map-lines id (put c ∷ events) = map-lines id events

-- The server's JSON as the client reads it: the same fields.
abbrev pub read_status : KeyGenStatus → Page.Workload
read_status status = record {
  config = record {
    enable = status.config.enable;
    exit_on_complete = status.config.exit_on_complete;
    exit_code = status.config.exit_code;
    num_to_gen = status.config.num_to_gen;
    time_to_run = status.config.time_to_run;
    mem_q_server = some status.config.mem_q_server;
    mem_q_queue = some status.config.mem_q_queue;
  };
  history = map (λ (h : History). record { id = h.id; text = h.text }) status.history;
}

abbrev pub answer_with : KeyGenStatus → HttpResponse Page.Workload
answer_with status = record { ok = true; status_text = "OK"; json = some (read_status status) }

-- A page that shows these lines, the first one at the bottom.
abbrev pub shown : List Text → Option (List Text)
shown [] = none
shown (t ∷ ts) = some (reverse (map (λ l. l ++ codes "\n") (t ∷ ts)))

map-line :
    (hs : List History)
    → map Page.line (map (λ (h : History). record { id = h.id; text = h.text }) hs)
      ≡ map (λ l. l ++ codes "\n") (map (λ (h : History). h.text) hs)
map-line [] = refl
map-line (h ∷ hs) = ap (λ l. (h.text ++ codes "\n") ∷ l) (map-line hs)

log-shown :
    (hs : List History)
    → Page.log (map (λ (h : History). record { id = h.id; text = h.text }) hs)
      ≡ shown (map (λ (h : History). h.text) hs)
log-shown [] = refl
log-shown (h ∷ hs) = ap (λ l. some (reverse l)) (map-line (h ∷ hs))

render_history-loaded :
    (initial : Bool) (page : Page.KeyGen) (status : KeyGenStatus)
    → Page.render_history (Page.load_settled initial page (fulfilled (answer_with status))).0
      ≡ shown (map (λ (h : History). h.text) status.history)
unfolding Page.render_history Page.load_settled Page.on_load checked_json
render_history-loaded true page status = log-shown status.history
render_history-loaded false page status = log-shown status.history

-- Whatever the workloads of a new server have said, with any configurations between, a poll of the page
-- (the first or a later one) makes it show the newest twenty lines (or all of them), the newest at the
-- top; it says that there is no history if there is no line. The server keeps no more than twenty.
pub history_shown :
    (initial : Bool) (page : Page.KeyGen) (events : List Event)
    → let kg = after events new in
      (Page.render_history (Page.load_settled initial page (fulfilled (answer_with (api_get kg)))).0
        ≡ shown (newest 20 (said events)))
      × (length kg.history ≤ 20)
unfolding new api_get
history_shown initial page events =
    let kept = after-history events new [] refl in
    (
      render_history-loaded initial page (api_get (after events new))
          ∙ ap shown (
              ap (map (λ (h : History). h.text)) kept
              ∙ map-newest (λ (h : History). h.text) (lines 0 events)
              ∙ ap (newest 20) (map-lines 0 events)),
      rw kept (length-newest (lines 0 events)),
    )
