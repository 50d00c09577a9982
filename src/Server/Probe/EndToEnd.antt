-- ===== src/Server/Probe/EndToEnd.antt =====
-- The probe page and the probe together: what the page says after a click is what the calls then do.
use Prim.Native.Nat.{min}
use kubernetes_up_running.Base.{
  ℕ, zero, suc, ◌-◌, ◌≡◌, refl, ◌∙◌, ap, some, true, List, map, length,
}
use kubernetes_up_running.Base.Int.{pos}
use kubernetes_up_running.Js.Text.{Text}
use kubernetes_up_running.Client.Browser.{HttpResponse, fulfilled}
use kubernetes_up_running.Client.Probe as Page
use kubernetes_up_running.Client.Probe.Page.{state_settled_ok}
use kubernetes_up_running.Server.Probe.{
  Probe, HistoryStatus, ProbeStatus, set_config, locked_get, api_put,
}
use kubernetes_up_running.Server.Probe.Answers.{
  run, statuses, configured_to_fail, run_failing, run-fail_next,
}

-- The server's JSON as the client reads it: the same fields.
abbrev pub read_row : HistoryStatus → Page.HistoryRow
read_row h = record { id = h.id; when = h.when; rel_when = h.rel_when; code = h.code }

abbrev pub read_status : ProbeStatus → Page.ProbeState
read_status status = record {
  probe_path = status.probe_path;
  fail_next = status.fail_next;
  history = map read_row status.history;
}

abbrev pub answer_with : ProbeStatus → HttpResponse Page.ProbeState
answer_with status = record { ok = true; status_text = "OK"; json = some (read_status status) }

-- What the page should say while `n` calls are left to fail.
abbrev pub says : ℕ → Page.Description
says zero = Page.permanently_succeeds
says (suc n) = Page.fails_for_next (suc n)

describe-pos : (n : ℕ) → Page.describe (pos n) ≡ says n
unfolding Page.describe
describe-pos zero = refl
describe-pos (suc n) = refl

module _ {Time : Type 0} (friendly relative : Time → Text) where
  shows_status :
      (s : Page.Probe) (p : Probe Time) (n : ℕ)
      → p.fail_next ≡ pos n
      → (Page.render
          (Page.state_settled s
            (fulfilled (answer_with (locked_get Time friendly relative p)))).0).0
        ≡ says n
  unfolding Page.render locked_get
  shows_status s p n e =
      rw (state_settled_ok s (answer_with (locked_get Time friendly relative p)) _ refl refl)
        (ap Page.describe e ∙ describe-pos n)

  -- A click that configures n failures, with any calls of the probe between the two sections of the
  -- server's handler: the server's reply makes the page say how many of the next calls fail, those
  -- between taken off (that all succeed, if none is left). Of the calls between and those that follow,
  -- the first n in all are answered with status 500 and the others with status 200, and a poll after
  -- them makes the page say how many are left.
  pub click_then_calls :
      (s : Page.Probe) (p : Probe Time) (n : ℕ) (early times : List Time)
      → let between = λ (q : Probe Time). (run early q).0 in
        let configured = (api_put Time friendly relative between (some (pos n)) p).0 in
        let (later, answers) = run times configured in
        let left = n - length early in
        ((api_put Time friendly relative between (some (pos n)) p).1
          ≡ some (locked_get Time friendly relative configured))
        × ((Page.render
              (Page.state_settled s
                (fulfilled (answer_with (locked_get Time friendly relative configured)))).0).0
            ≡ says left)
        × ((run early (set_config Time (pos n) p)).1
            ≡ statuses (min n (length early)) (length early - n))
        × (answers ≡ statuses (min left (length times)) (length times - left))
        × ((Page.render
              (Page.state_settled s
                (fulfilled (answer_with (locked_get Time friendly relative later)))).0).0
            ≡ says (left - length times))
  unfolding api_put set_config
  click_then_calls s p n early times =
      let counted = run-fail_next n early (set_config Time (pos n) p) refl in
      (
        refl,
        shows_status s _ (n - length early) counted,
        configured_to_fail n early p,
        run_failing (n - length early) times _ counted,
        shows_status s _ (n - length early - length times)
            (run-fail_next (n - length early) times _ counted),
      )
