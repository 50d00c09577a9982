-- ===== src/Client/MemQ/Table.antt =====
-- The table of queues shows the server's statistics in the order of the names.
use Prim.Native.Nat.{Ordering}
use mathlib.Core.Path.{subst}
use mathlib.Core.List.{Perm}
use mathlib.Core.List.Perm
use kubernetes_up_running.Base.{
  ◌≡◌, ◌≢◌, refl, some, none, true, false, List, [], ◌∷◌, arith, ◌↔◌, ◌⊎◌, ◌∙◌, sym, All, ◌≤◌,
}
use kubernetes_up_running.Js.Sort.{text_lt, sort}
use kubernetes_up_running.Js.Sort.Order.{
  text_lt-cotrans, text_lt-asymm, IsSorted, sort-perm, sort-IsSorted, All-weaken,
}
use kubernetes_up_running.Client.Browser.{
  HttpResponse, Promise, fulfilled, rejected, checked_json, report_conn_error, Timers, parse_json,
}
use kubernetes_up_running.Client.Browser.Intervals.{clear-set}
use kubernetes_up_running.Client.MemQ.{
  Stat, Stats, MemQ, compare_names, on_stats, stats_settled, no_queues, render, did_mount,
  will_unmount,
}

compare_names-gt_lt : (a b : Stat) → compare_names a b ≡ Ordering.gt → text_lt b.name a.name ≡ true
unfolding compare_names
compare_names-gt_lt a b h = ground arith

compare_names_gt : (a b : Stat) → text_lt b.name a.name ≡ true → compare_names a b ≡ Ordering.gt
unfolding compare_names
compare_names_gt a b h = ground (arith, text_lt-asymm b.name a.name)

compare_names_total :
    (a b : Stat) → compare_names a b ≡ Ordering.gt → compare_names b a ≢ Ordering.gt
compare_names_total a b h k =
    ground
      (arith, compare_names-gt_lt a b h, compare_names-gt_lt b a k, text_lt-asymm b.name a.name)

compare_names_trans :
    (a b c : Stat)
    → compare_names a b ≢ Ordering.gt
    → compare_names b c ≢ Ordering.gt
    → compare_names a c ≢ Ordering.gt
compare_names_trans a b c h k e = ground (
  arith,
  compare_names-gt_lt a c e,
  text_lt-cotrans c.name b.name a.name,
  compare_names_gt a b,
  compare_names_gt b c,
)

-- No queue stands after one with a greater name.
abbrev pub InNameOrder : List Stat → Type 0
InNameOrder [] = Unit
InNameOrder (q ∷ qs) = All (λ r. text_lt r.name q.name ≡ false) qs × InNameOrder qs

not_after : (a b : Stat) → compare_names a b ≢ Ordering.gt → text_lt b.name a.name ≡ false
not_after a b h = ground (arith, compare_names_gt a b)

InNameOrder-of_IsSorted : (qs : List Stat) → IsSorted compare_names qs → InNameOrder qs
InNameOrder-of_IsSorted [] h = tt
InNameOrder-of_IsSorted (q ∷ qs) h =
    (All-weaken qs (not_after q) h.0, InNameOrder-of_IsSorted qs h.1)

pub Perm-nil_iff : {A : Type 0} (xs ys : List A) → Perm xs ys → (xs ≡ []) ↔ (ys ≡ [])
Perm-nil_iff xs ys p = (
  λ e. sym (Perm.nil-eq (subst (λ l. Perm l ys) e p)),
  λ e. Perm.eq-nil (subst (λ l. Perm xs l) e p),
)

render-no_queues_iff : (s : MemQ) → (render s ≡ no_queues) ↔ (s.stats.queues ≡ [])
unfolding render
render-no_queues_iff s = ground arith

-- A response that is ok and parses replaces the statistics: the queues are those of the response, each
-- as often, in the order of their names, the notice of no queues is shown exactly if there are none,
-- and nothing is reported.
pub stats_settled_ok :
    (s : MemQ) (response : HttpResponse Stats) (stats : Stats)
    → response.ok ≡ true
    → response.json ≡ some stats
    → let (after, effects) = stats_settled s (fulfilled response) in
      Perm after.stats.queues stats.queues
      × InNameOrder after.stats.queues
      × ((render after ≡ no_queues) ↔ (stats.queues ≡ []))
      × (effects ≡ [])
unfolding stats_settled on_stats checked_json
stats_settled_ok s response stats good parsed =
    let shuffled = sort-perm compare_names stats.queues in
    let shown = sort compare_names stats.queues in
    rw (good, parsed, parse_json)
      (
        shuffled,
        InNameOrder-of_IsSorted shown
            (sort-IsSorted compare_names compare_names_total compare_names_trans stats.queues),
        (
          λ e. (Perm-nil_iff shown stats.queues shuffled).0 ((render-no_queues_iff _).0 e),
          λ e. (render-no_queues_iff _).1 ((Perm-nil_iff shown stats.queues shuffled).1 e),
        ),
        refl,
      )

-- A failed request, a response that is not ok, and a body that does not parse leave the page as it was
-- and report a connection error.
stats_settled_failed :
    (s : MemQ) (fetched : Promise (HttpResponse Stats))
    → ((response : HttpResponse Stats)
        → fetched ≡ fulfilled response
        → (response.ok ≡ false) ⊎ (response.json ≡ none))
    → stats_settled s fetched ≡ (s, report_conn_error ∷ [])
unfolding stats_settled on_stats checked_json
stats_settled_failed s (rejected reason) h = refl
stats_settled_failed s (fulfilled response) h = ground (arith, h response refl)

-- The page after a sequence of settled polls.
pub settle_all : MemQ → List (Promise (HttpResponse Stats)) → MemQ
settle_all s [] = s
settle_all s (fetched ∷ rest) = settle_all (stats_settled s fetched).0 rest

settled-timer :
    (s : MemQ) (fetched : Promise (HttpResponse Stats))
    → (stats_settled s fetched).0.timer ≡ s.timer
unfolding stats_settled on_stats
settled-timer s fetched = ground arith

settle_all-timer :
    (s : MemQ) (replies : List (Promise (HttpResponse Stats)))
    → (settle_all s replies).timer ≡ s.timer
unfolding settle_all
settle_all-timer s [] = refl
settle_all-timer s (fetched ∷ rest) =
    settle_all-timer (stats_settled s fetched).0 rest ∙ settled-timer s fetched

-- Mounting the page, any replies to its polls, and unmounting it leave the intervals as they were.
unmount_restores :
    (s : MemQ) (timers : Timers) (replies : List (Promise (HttpResponse Stats)))
    → All (λ id. id ≤ timers.last_id) timers.live
    → let (mounted, after, effects) = did_mount s timers in
      (will_unmount (settle_all mounted replies) after).live ≡ timers.live
unfolding did_mount will_unmount
unmount_restores s timers replies h =
    rw (settle_all-timer (did_mount s timers).0 replies) (clear-set timers h)
