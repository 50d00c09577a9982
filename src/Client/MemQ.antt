-- ===== src/Client/MemQ.antt =====
-- kuard/client/src/memq.jsx: the page of queue statistics.
pub mod Table
pub mod Markup
use Prim.Native.Nat.{Ordering}
use kubernetes_up_running.Base.{
  ℕ, Option, some, none, Bool, true, false, List, [], ◌∷◌, ◌++◌, map, if◌then◌else◌,
}
use kubernetes_up_running.Base.Int.{ℤ}
use kubernetes_up_running.Js.Text.{Text, codes}
use kubernetes_up_running.Js.Sort.{text_lt, sort}
use kubernetes_up_running.Client.Browser.{
  Timers, set_interval, clear_interval, HttpResponse, Promise, fulfilled, rejected, checked_json,
  Effect, fetch, report_conn_error, Method,
}

pub record Stat : Type 0 where
  pub name : Text
  pub depth : ℤ
  pub enqueued : ℤ
  pub dequeued : ℤ
  pub drained : ℤ

pub record Stats : Type 0 where
  pub kind : Text
  pub queues : List Stat

pub record MemQ : Type 0 where
  pub stats : Stats
  pub timer : Option ℕ
  pub server_path : Text

unfoldable pub construct : Text → MemQ
construct server_path = record {
  stats = record { kind = codes "stats"; queues = [] };
  timer = none;
  server_path = server_path;
}

-- The comparison that `loadState` sorts by.
unfoldable pub compare_names : Stat → Stat → Ordering
compare_names a b =
    if text_lt a.name b.name
    then Ordering.lt
    else if text_lt b.name a.name
    then Ordering.gt
    else Ordering.eq

unfoldable pub load_state : MemQ → Effect Unit
load_state s = fetch Method.get (s.server_path ++ codes "/server/stats") none

-- The functions that `loadState` hands to `then` and `catch`.
unfoldable pub on_stats : MemQ → Promise Stats → MemQ × List (Effect Unit)
on_stats s (fulfilled response) =
    (record s { stats = record response { queues = sort compare_names response.queues } }, [])
on_stats s (rejected reason) = (s, report_conn_error ∷ [])

unfoldable pub stats_settled : MemQ → Promise (HttpResponse Stats) → MemQ × List (Effect Unit)
stats_settled s fetched = on_stats s (checked_json fetched)

unfoldable pub did_mount : MemQ → Timers → MemQ × Timers × List (Effect Unit)
unfolding set_interval load_state
did_mount s timers =
    let (id, after) = set_interval timers in
    (record s { timer = some id }, after, load_state s ∷ [])

unfoldable pub will_unmount : MemQ → Timers → Timers
unfolding clear_interval
will_unmount s timers = clear_interval s.timer timers

-- What `render` shows above the manual: a notice, or a table with a row for each queue.
pub data Status : Type 0 where
  no_queues : Status
  table : List Stat → Status

abbrev status_of : List Stat → Status
status_of [] = no_queues
status_of (q ∷ qs) = table (q ∷ qs)

unfoldable pub render : MemQ → Status
render s = status_of s.stats.queues
