-- ===== src/Client/KeyGen/Editing.antt =====
-- What becomes of the user's edits of the form.
use kubernetes_up_running.Base.{◌≡◌, refl, ◌∙◌, some, true, false, List, [], ◌∷◌, arith, All, ◌≤◌}
use kubernetes_up_running.Client.Browser.{
  Timers, HttpResponse, Promise, fulfilled, checked_json, fetch, Method,
}
use kubernetes_up_running.Client.Browser.Intervals.{clear-set}
use kubernetes_up_running.Client.KeyGen.{
  Config, Workload, KeyGen, on_load, load_settled, handle_change, handle_submit, on_submitted,
  submit_settled, did_mount, will_unmount,
}

-- The page after a sequence of settled polls.
pub poll_all : KeyGen → List (Promise (HttpResponse Workload)) → KeyGen
poll_all s [] = s
poll_all s (fetched ∷ rest) = poll_all (load_settled false s fetched).0 rest

-- What a poll leaves alone.
record SameForm (s t : KeyGen) : Type 0 where
  config : t.state.config ≡ s.state.config
  timer : t.timer ≡ s.timer
  server_path : t.server_path ≡ s.server_path

poll-SameForm :
    (s : KeyGen) (fetched : Promise (HttpResponse Workload))
    → SameForm s (load_settled false s fetched).0
unfolding load_settled on_load
poll-SameForm s fetched = ground arith

poll_all-SameForm :
    (s : KeyGen) (replies : List (Promise (HttpResponse Workload)))
    → SameForm s (poll_all s replies)
unfolding poll_all
poll_all-SameForm s [] = record { config = refl; timer = refl; server_path = refl }
poll_all-SameForm s (fetched ∷ rest) =
    let one = poll-SameForm s fetched in
    let more = poll_all-SameForm (load_settled false s fetched).0 rest in
    record {
      config = more.config ∙ one.config;
      timer = more.timer ∙ one.timer;
      server_path = more.server_path ∙ one.server_path;
    }

-- However many polls settle, and however they do, between the last edit and the click on "Submit", the
-- request carries the configuration as edited, to the page's server path.
pub submit-edited :
    (s : KeyGen) (form_data : Config) (replies : List (Promise (HttpResponse Workload)))
    → handle_submit (poll_all (handle_change s form_data) replies)
      ≡ fetch Method.put s.server_path (some form_data)
unfolding handle_submit handle_change
submit-edited s form_data replies =
    let kept = poll_all-SameForm (handle_change s form_data) replies in
    rw (kept.config, kept.server_path)

-- The first load and a submission that settle well after an edit replace the edited configuration by
-- the server's.
edit_lost :
    (s : KeyGen) (form_data : Config) (response : HttpResponse Workload) (workload : Workload)
    → response.ok ≡ true
    → response.json ≡ some workload
    → ((load_settled true (handle_change s form_data) (fulfilled response)).0.state ≡ workload)
      × ((submit_settled (handle_change s form_data) (fulfilled response)).0.state ≡ workload)
unfolding load_settled submit_settled on_load on_submitted checked_json
edit_lost s form_data response workload good parsed = (rw (good, parsed), rw (good, parsed))

-- Mounting the page, any replies to its polls, and unmounting it leave the intervals as they were.
pub unmount_restores_intervals :
    (s : KeyGen) (timers : Timers) (replies : List (Promise (HttpResponse Workload)))
    → All (λ id. id ≤ timers.last_id) timers.live
    → let (mounted, after, effects) = did_mount s timers in
      (will_unmount (poll_all mounted replies) after).live ≡ timers.live
unfolding did_mount will_unmount
unmount_restores_intervals s timers replies h =
    rw (poll_all-SameForm (did_mount s timers).0 replies).timer (clear-set timers h)
