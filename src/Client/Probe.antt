-- ===== src/Client/Probe.antt =====
-- kuard/client/src/probe.jsx: the page of a health probe.
pub mod Page
pub mod Markup
use kubernetes_up_running.Base.{ℕ, zero, suc, Option, some, none, List, [], ◌∷◌, ◌++◌}
use kubernetes_up_running.Base.Int.{ℤ, pos, negsuc}
use kubernetes_up_running.Js.Text.{Text, codes}
use kubernetes_up_running.Client.Browser.{
  Timers, set_interval, clear_interval, HttpResponse, Promise, fulfilled, rejected, checked_json,
  Effect, fetch, report_conn_error, Method,
}

pub record HistoryRow : Type 0 where
  pub id : ℕ
  pub when : Text
  pub rel_when : Text
  pub code : ℕ

-- The JSON of the server's API, which becomes the component's state.
pub record ProbeState : Type 0 where
  pub probe_path : Text
  pub fail_next : ℤ
  pub history : List HistoryRow

pub record Probe : Type 0 where
  pub state : ProbeState
  pub timer : Option ℕ
  pub server_path : Text

-- The body of a PUT: `{failNext: n}`
pub record Payload : Type 0 where
  pub fail_next : ℤ

unfoldable pub construct : Text → Probe
construct server_path = record {
  state = record { probe_path = []; fail_next = pos 0; history = [] };
  timer = none;
  server_path = server_path;
}

unfoldable pub load_state : Probe → Effect Payload
load_state s = fetch Method.get (s.server_path ++ codes "/api") none

-- `setState(response)` and `reportConnError`, which both `loadState` and `configure` end in.
unfoldable pub on_state : Probe → Promise ProbeState → Probe × List (Effect Payload)
on_state s (fulfilled response) = (record s { state = response }, [])
on_state s (rejected reason) = (s, report_conn_error ∷ [])

unfoldable pub state_settled :
    Probe → Promise (HttpResponse ProbeState) → Probe × List (Effect Payload)
state_settled s fetched = on_state s (checked_json fetched)

unfoldable pub configure : Probe → ℤ → Effect Payload
configure s n = fetch Method.put (s.server_path ++ codes "/api") (some (record { fail_next = n }))

unfoldable pub did_mount : Probe → Timers → Probe × Timers × List (Effect Payload)
unfolding set_interval load_state
did_mount s timers =
    let (id, after) = set_interval timers in
    (record s { timer = some id }, after, load_state s ∷ [])

unfoldable pub will_unmount : Probe → Timers → Timers
will_unmount s timers = clear_interval s.timer timers

-- The sentence that `render` shows, and the rows of its table, if it has one.
pub data Description : Type 0 where
  permanently_succeeds : Description
  fails_for_next : ℕ → Description
  permanently_fails : Description

unfoldable pub describe : ℤ → Description
describe (pos zero) = permanently_succeeds
describe (pos (suc n)) = fails_for_next (suc n)
describe (negsuc n) = permanently_fails

abbrev history_table : List HistoryRow → Option (List HistoryRow)
history_table [] = none
history_table (h ∷ hs) = some (h ∷ hs)

unfoldable pub render : Probe → Description × Option (List HistoryRow)
unfolding describe
render s = (describe s.state.fail_next, history_table s.state.history)

-- The numbers of calls that the links of `render` configure.
abbrev pub offered : List ℤ
offered = pos 0 ∷ negsuc 0 ∷ pos 1 ∷ pos 2 ∷ pos 3 ∷ pos 5 ∷ pos 10 ∷ []
