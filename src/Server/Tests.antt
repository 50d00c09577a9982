-- ===== src/Server/Tests.antt =====
-- The theorems on the probe at concrete calls. A time is a number of seconds.

use kubernetes_up_running.Base.{ℕ, ◌≤◌, ◌≡◌, some, List, [], ◌∷◌, length}
use kubernetes_up_running.Base.Int.{pos}
use kubernetes_up_running.Js.Text.{codes, to_decimal}
use kubernetes_up_running.Client.Browser.{fulfilled}
use kubernetes_up_running.Client.Probe as Page
use kubernetes_up_running.Server.Newest.{newest}
use kubernetes_up_running.Server.Probe.{Probe, new, set_config, api_put, locked_get}
use kubernetes_up_running.Server.Probe.Answers.{run, statuses}
use kubernetes_up_running.Server.Probe.History.{Event, call, put, after, calls, history_newest}
use kubernetes_up_running.Server.Probe.EndToEnd.{answer_with, says, click_then_calls}

abbrev times : List ℕ
times = 10 ∷ 20 ∷ 30 ∷ []

abbrev page : Page.Probe
page = Page.construct (codes "/healthy")

-- A call between the two sections of the handler.
abbrev between : Probe ℕ → Probe ℕ
between q = (run (5 ∷ []) q).0

click_then_calls_example :
    let configured = (api_put ℕ to_decimal to_decimal between (some (pos 2)) (new ℕ)).0 in
    let (later, answers) = run times configured in
    ((api_put ℕ to_decimal to_decimal between (some (pos 2)) (new ℕ)).1
      ≡ some (locked_get ℕ to_decimal to_decimal configured))
    × ((Page.render
          (Page.state_settled page
            (fulfilled (answer_with (locked_get ℕ to_decimal to_decimal configured)))).0).0
        ≡ says 1)
    × ((run (5 ∷ []) (set_config ℕ (pos 2) (new ℕ))).1 ≡ statuses 1 0)
    × (answers ≡ statuses 1 2)
    × ((Page.render
          (Page.state_settled page
            (fulfilled (answer_with (locked_get ℕ to_decimal to_decimal later)))).0).0
        ≡ says 0)
click_then_calls_example = click_then_calls to_decimal to_decimal page (new ℕ) 2 (5 ∷ []) times

abbrev events : List (Event ℕ)
events = call 1 ∷ put (pos 1) ∷ call 2 ∷ call 3 ∷ []

history_newest_example :
    ((after events (new ℕ)).history ≡ newest 20 (calls 0 (pos 0) events))
    × (length (after events (new ℕ)).history ≤ 20)
history_newest_example = history_newest events
