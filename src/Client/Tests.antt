-- ===== src/Client/Tests.antt =====
-- The theorems on the client's components at concrete pages.
use Prim.Native.String.{String}
use kubernetes_up_running.Base.{
  ℕ, ◌≡◌, refl, ◌⊎◌, ◌↔◌, some, none, true, false, List, [], ◌∷◌, arith,
}
use kubernetes_up_running.Base.Int.{pos}
use kubernetes_up_running.Js.Text.{Text, codes}
use kubernetes_up_running.Client.Browser.{Timers, HttpResponse, fulfilled, fetch, Method}
use kubernetes_up_running.Client.Router.{
  Handler, dns, Page, locations, nav_href, shown_by, is_active, handle_click,
}
use kubernetes_up_running.Client.Router.Navigation.{server_path, click_shows}
use kubernetes_up_running.Client.Disconnected as Banner
use kubernetes_up_running.Client.Disconnected.{Disconnected}
use kubernetes_up_running.Client.Disconnected.Banner as Intervals
use kubernetes_up_running.Client.App.{App}
use kubernetes_up_running.Client.MemQ as Queues
use kubernetes_up_running.Client.KeyGen as Keys
use kubernetes_up_running.Client.KeyGen.Editing as Editing
use kubernetes_up_running.Client.Mem as Memory
use kubernetes_up_running.Client.Dns as Query
use kubernetes_up_running.Client.Dns.Form as Form

abbrev base : Text
base = codes "/kuard"

abbrev start_page : Page
start_page = record { pathname = codes "/kuard/"; listening = true; rendered = codes "/kuard/" }

click_shows_example :
    let after = handle_click (nav_href base dns) start_page in
    (after.pathname ≡ nav_href base dns)
    × (shown_by after.rendered (locations base) ≡ (dns, server_path base dns) ∷ [])
    × ((k : Handler) → (is_active after.rendered (nav_href base k) ≡ true) ↔ (k ≡ dns))
click_shows_example = click_shows base dns start_page refl

-- One interval of another component.
abbrev timers : Timers
timers = record { last_id = 4; live = 4 ∷ [] }

quiet : Intervals.IsQuiet (4 ∷ []) (Banner.construct timers)
unfolding Banner.construct
quiet = record { no_timer = refl; hidden = refl; untouched = refl; older = (omega arith, tt) }

reported :
    Intervals.Reach
      (4 ∷ [])
      (Banner.construct timers)
      (Banner.report_conn_error (Banner.construct timers))
reported = Intervals.then Intervals.here (Intervals.report (Banner.construct timers))

Reach-IsQuiet_or_IsAlerting_example :
    Intervals.IsQuiet (4 ∷ []) (Banner.report_conn_error (Banner.construct timers))
    ⊎ Intervals.IsAlerting (4 ∷ []) (Banner.report_conn_error (Banner.construct timers))
Reach-IsQuiet_or_IsAlerting_example = Intervals.Reach-IsQuiet_or_IsAlerting (4 ∷ []) quiet reported

fire_after_reports_example :
    let t = Banner.report_conn_error (Banner.construct timers) in
    (Banner.banner_style (Banner.report_conn_error t) ≡ ("visible", "block"))
    × (Banner.banner_style (Banner.clear_conn_error (Banner.report_conn_error t))
        ≡ ("hidden", "none"))
    × ((Banner.clear_conn_error (Banner.report_conn_error t)).timers.live ≡ 4 ∷ [])
fire_after_reports_example =
    Intervals.fire_after_reports (4 ∷ []) (Banner.construct timers)
      (Banner.report_conn_error (Banner.construct timers)) quiet reported

abbrev app : App
app = record { disconnected = Banner.construct timers; timer = none }

abbrev stat : String → Queues.Stat
stat name = record {
  name = codes name;
  depth = pos 1;
  enqueued = pos 2;
  dequeued = pos 1;
  drained = pos 0;
}

abbrev two_queues : Queues.Stats
two_queues = record { kind = codes "stats"; queues = stat "work" ∷ stat "keys" ∷ [] }

abbrev ok_response : {R : Type 0} → R → HttpResponse R
ok_response body = record { ok = true; status_text = "OK"; json = some body }

abbrev queues_page : Queues.MemQ
queues_page = Queues.construct (codes "/memq")

abbrev keys_page : Keys.KeyGen
keys_page = Keys.construct (codes "/keygen")

abbrev edited : Keys.Config
edited = record {
  enable = true;
  exit_on_complete = false;
  exit_code = pos 0;
  num_to_gen = pos 5;
  time_to_run = pos 0;
  mem_q_server = none;
  mem_q_queue = none;
}

abbrev workload : Keys.Workload
workload = record { config = record edited { enable = false }; history = [] }

submit-edited_example :
    Keys.handle_submit (
      Editing.poll_all
        (Keys.handle_change keys_page edited)
        (fulfilled (ok_response workload) ∷ []))
    ≡ fetch Method.put keys_page.server_path (some edited)
submit-edited_example =
    Editing.submit-edited keys_page edited (fulfilled (ok_response workload) ∷ [])

abbrev mem_stats : Memory.MemStats ℕ
mem_stats = record {
  heap_alloc = Memory.number (pos 700);
  heap_idle = Memory.number (pos 300);
  heap_released = Memory.number (pos 100);
  stack_inuse = Memory.number (pos 50);
  pause_ns = some 1;
  pause_end = none;
  by_size = none;
}

abbrev query_page : Query.Dns
query_page = Query.construct (codes "/dns")

abbrev typed : List Form.Event
typed =
    Form.change Query.name_field (codes "kuard")
    ∷ Form.change Query.kind_field (codes "AAAA")
    ∷ Form.change Query.name_field (codes "kuard.svc")
    ∷ []
