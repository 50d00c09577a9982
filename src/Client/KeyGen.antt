-- ===== src/Client/KeyGen.antt =====
-- kuard/client/src/keygen.jsx: the form of the synthetic workload, and its log.
pub mod Editing
pub mod Markup
use kubernetes_up_running.Base.{
  ℕ, Option, some, none, Bool, true, false, List, [], ◌∷◌, ◌++◌, map, reverse,
}
use kubernetes_up_running.Base.Int.{ℤ, pos}
use kubernetes_up_running.Js.Text.{Text, codes}
use kubernetes_up_running.Client.Browser.{
  Timers, set_interval, clear_interval, HttpResponse, Promise, fulfilled, rejected, checked_json,
  Effect, fetch, report_conn_error, Method,
}

-- The fields of the form; the two of MemQ are missing until the server or the user gives them.
pub record Config : Type 0 where
  pub enable : Bool
  pub exit_on_complete : Bool
  pub exit_code : ℤ
  pub num_to_gen : ℤ
  pub time_to_run : ℤ
  pub mem_q_server : Option Text
  pub mem_q_queue : Option Text

pub record Entry : Type 0 where
  pub id : ℕ
  pub text : Text

-- The JSON of the server, which becomes the component's state.
pub record Workload : Type 0 where
  pub config : Config
  pub history : List Entry

pub record KeyGen : Type 0 where
  pub state : Workload
  pub timer : Option ℕ
  pub server_path : Text

unfoldable pub construct : Text → KeyGen
construct server_path = record {
  state = record {
    config = record {
      enable = false;
      exit_on_complete = false;
      exit_code = pos 0;
      num_to_gen = pos 0;
      time_to_run = pos 0;
      mem_q_server = none;
      mem_q_queue = none;
    };
    history = [];
  };
  timer = none;
  server_path = server_path;
}

unfoldable pub load_state : KeyGen → Effect Config
load_state s = fetch Method.get s.server_path none

-- What `loadState(initial)` does with the reply: only the first load takes the configuration.
unfoldable pub on_load : Bool → KeyGen → Promise Workload → KeyGen × List (Effect Config)
on_load true s (fulfilled response) = (record s { state = response }, [])
on_load false s (fulfilled response) =
    (record s { state = record { config = s.state.config; history = response.history } }, [])
on_load initial s (rejected reason) = (s, report_conn_error ∷ [])

unfoldable pub load_settled :
    Bool → KeyGen → Promise (HttpResponse Workload) → KeyGen × List (Effect Config)
load_settled initial s fetched = on_load initial s (checked_json fetched)

unfoldable pub handle_change : KeyGen → Config → KeyGen
handle_change s form_data = record s {
  state = record { config = form_data; history = s.state.history };
}

unfoldable pub handle_submit : KeyGen → Effect Config
handle_submit s = fetch Method.put s.server_path (some s.state.config)

unfoldable pub on_submitted : KeyGen → Promise Workload → KeyGen × List (Effect Config)
on_submitted s (fulfilled response) = (record s { state = response }, [])
on_submitted s (rejected reason) = (s, report_conn_error ∷ [])

unfoldable pub submit_settled :
    KeyGen → Promise (HttpResponse Workload) → KeyGen × List (Effect Config)
submit_settled s fetched = on_submitted s (checked_json fetched)

unfoldable pub did_mount : KeyGen → Timers → KeyGen × Timers × List (Effect Config)
unfolding set_interval load_state
did_mount s timers =
    let (id, after) = set_interval timers in
    (record s { timer = some id }, after, load_state s ∷ [])

unfoldable pub will_unmount : KeyGen → Timers → Timers
will_unmount s timers = clear_interval s.timer timers

-- The log that `render` shows: a line for each entry, the last entry first.
abbrev pub line : Entry → Text
line h = h.text ++ codes "\n"

abbrev pub log : List Entry → Option (List Text)
log [] = none
log (h ∷ hs) = some (reverse (map line (h ∷ hs)))

unfoldable pub render_history : KeyGen → Option (List Text)
render_history s = log s.state.history
