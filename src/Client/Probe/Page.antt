-- ===== src/Client/Probe/Page.antt =====
-- What the page shows of a reply, and what it leaves behind.
use kubernetes_up_running.Base.{
  ◌≤◌, ◌≡◌, refl, ◌∙◌, some, none, true, false, List, [], ◌∷◌, arith, All, ◌⊎◌,
}
use kubernetes_up_running.Client.Browser.{
  Timers, HttpResponse, Promise, fulfilled, rejected, checked_json, report_conn_error,
}
use kubernetes_up_running.Client.Browser.Intervals.{clear-set}
use kubernetes_up_running.Client.Probe.{
  ProbeState, Probe, on_state, state_settled, did_mount, will_unmount,
}

-- A reply that is ok and parses becomes the state, and nothing is reported.
pub state_settled_ok :
    (s : Probe) (response : HttpResponse ProbeState) (state : ProbeState)
    → response.ok ≡ true
    → response.json ≡ some state
    → state_settled s (fulfilled response) ≡ (record s { state = state }, [])
unfolding state_settled on_state checked_json
state_settled_ok s response state good parsed = rw (good, parsed)

-- Any other reply leaves the page as it was and is reported.
pub state_settled_failed :
    (s : Probe) (fetched : Promise (HttpResponse ProbeState))
    → ((response : HttpResponse ProbeState)
        → fetched ≡ fulfilled response
        → (response.ok ≡ false) ⊎ (response.json ≡ none))
    → state_settled s fetched ≡ (s, report_conn_error ∷ [])
unfolding state_settled on_state checked_json
state_settled_failed s (rejected reason) h = refl
state_settled_failed s (fulfilled response) h = ground (arith, h response refl)

-- The page after a sequence of settled polls and configurations.
pub settle_replies : Probe → List (Promise (HttpResponse ProbeState)) → Probe
settle_replies s [] = s
settle_replies s (fetched ∷ rest) = settle_replies (state_settled s fetched).0 rest

settled-timer :
    (s : Probe) (fetched : Promise (HttpResponse ProbeState))
    → (state_settled s fetched).0.timer ≡ s.timer
unfolding state_settled on_state
settled-timer s fetched = ground arith

settle_replies-timer :
    (s : Probe) (replies : List (Promise (HttpResponse ProbeState)))
    → (settle_replies s replies).timer ≡ s.timer
unfolding settle_replies
settle_replies-timer s [] = refl
settle_replies-timer s (fetched ∷ rest) =
    settle_replies-timer (state_settled s fetched).0 rest ∙ settled-timer s fetched

-- Mounting the page, any replies to its polls and configurations, and unmounting it leave the
-- intervals as they were.
pub unmount_restores_timers :
    (s : Probe) (timers : Timers) (replies : List (Promise (HttpResponse ProbeState)))
    → All (λ id. id ≤ timers.last_id) timers.live
    → let (mounted, after, effects) = did_mount s timers in
      (will_unmount (settle_replies mounted replies) after).live ≡ timers.live
unfolding did_mount will_unmount
unmount_restores_timers s timers replies h =
    rw (settle_replies-timer (did_mount s timers).0 replies) (clear-set timers h)
