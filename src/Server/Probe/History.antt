-- ===== src/Server/Probe/History.antt =====
-- The probe keeps its newest twenty calls.
use mathlib.Core.List.{append_assoc, append-nil}
use kubernetes_up_running.Base.{ℕ, suc, ◌≤◌, ◌≡◌, refl, sym, ◌∙◌, ap, List, [], ◌∷◌, ◌++◌, length}
use kubernetes_up_running.Base.Int.{ℤ, pos}
use kubernetes_up_running.Js.Text.{Text}
use kubernetes_up_running.Server.Newest.{
  newest, trimmed-newest, newest-newest-concat, length-newest,
}
use kubernetes_up_running.Server.Probe.{
  ProbeHistory, Probe, new, set_config, trim, outcome, record_request, handle, add_routes,
  locked_get,
}

-- What reaches the probe: a call at some time, or a configuration.
pub data Event (Time : Type 0) : Type 0 where
  call : Time → Event Time
  put : ℤ → Event Time

module _ {Time : Type 0} where
  pub after : List (Event Time) → Probe Time → Probe Time
  after [] p = p
  after (call now ∷ events) p = after events (handle Time now p).0
  after (put n ∷ events) p = after events (set_config Time n p)

  -- All calls among the events with their answers, numbered from `id + 1`, with nothing forgotten.
  pub calls : ℕ → ℤ → List (Event Time) → List (ProbeHistory Time)
  calls id n [] = []
  calls id n (call now ∷ events) =
      record { id = suc id; when = now; code = (outcome Time n).0 }
      ∷ calls (suc id) (outcome Time n).2 events
  calls id n (put m ∷ events) = calls id m events

  trim-newest : (xs : List (ProbeHistory Time)) → trim Time xs ≡ newest 20 xs
  unfolding trim
  trim-newest = trimmed-newest

  abbrev entry : Time → Probe Time → ProbeHistory Time
  entry now p = record { id = suc p.last_id; when = now; code = (outcome Time p.fail_next).0 }

  history-call :
      (now : Time) (p : Probe Time) (past : List (ProbeHistory Time))
      → p.history ≡ newest 20 past
      → (handle Time now p).0.history ≡ newest 20 (past ++ entry now p ∷ [])
  unfolding handle record_request
  history-call now p past h =
      trim-newest (p.history ++ entry now p ∷ [])
      ∙ ap (λ l. newest 20 (l ++ entry now p ∷ [])) h
      ∙ newest-newest-concat past (entry now p)

  after-history :
      (events : List (Event Time)) (p : Probe Time) (past : List (ProbeHistory Time))
      → p.history ≡ newest 20 past
      → (after events p).history ≡ newest 20 (past ++ calls p.last_id p.fail_next events)
  unfolding after calls handle record_request set_config
  after-history [] p past h = h ∙ ap (newest 20) (sym (append-nil past))
  after-history (call now ∷ events) p past h =
      after-history events (handle Time now p).0 (past ++ entry now p ∷ [])
        (history-call now p past h)
      ∙ ap (newest 20) (append_assoc past (entry now p ∷ []) _)
  after-history (put n ∷ events) p past h = after-history events (set_config Time n p) past h

  -- Of all calls that a new probe receives, with any configurations between them, the history holds the
  -- newest twenty (or all of them), in order, each with its number and the status that it was answered.
  pub history_newest :
      (events : List (Event Time))
      → ((after events (new Time)).history ≡ newest 20 (calls 0 (pos 0) events))
        × (length (after events (new Time)).history ≤ 20)
  unfolding new
  history_newest events =
      let kept = after-history events (new Time) [] refl in
      (kept, rw kept (length-newest (calls 0 (pos 0) events)))

  after-base_path :
      (events : List (Event Time)) (p : Probe Time) → (after events p).base_path ≡ p.base_path
  unfolding after handle record_request set_config
  after-base_path [] p = refl
  after-base_path (call now ∷ events) p = after-base_path events (handle Time now p).0
  after-base_path (put n ∷ events) p = after-base_path events (set_config Time n p)

  -- The API reports an empty probe path, whatever base the routes of a new probe are added under and
  -- whatever happens afterwards.
  probe_path_empty :
      (friendly relative : Time → Text) (base : Text) (events : List (Event Time))
      → (locked_get Time friendly relative
          (after events (add_routes Time base (new Time)))).probe_path
        ≡ []
  unfolding locked_get add_routes new
  probe_path_empty friendly relative base events = after-base_path events _
