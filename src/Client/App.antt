-- ===== src/Client/App.antt =====
-- kuard/client/src/app.jsx: the handler of connection errors, which the other components call.
-- (What `render` shows is in Shell.)
pub mod Reports
use Prim.Native.String.{String}
use text.Mathlib.Text.{◌==◌}
use kubernetes_up_running.Base.{
  ℕ, Option, some, none, Bool, true, false, ◌||◌, List, [], ◌∷◌, ◌++◌, if◌then◌else◌,
}
use kubernetes_up_running.Client.Browser.{Timers, set_interval}
use kubernetes_up_running.Client.Disconnected.{Disconnected}
use kubernetes_up_running.Client.Disconnected as Banner

-- The component: the banner that `this.disconnected.current` refers to, and `this.timer`.
pub record App : Type 0 where
  pub disconnected : Disconnected
  pub timer : Option ℕ

-- How a call ends: normally, or by a TypeError; either way with what it has done.
pub data Call : Type 0 where
  returned : App → Call
  type_error : App → Call

abbrev pub state_after : Call → App
state_after (returned app) = app
state_after (type_error app) = app

-- The methods of the class and those of `React.Component`.
abbrev pub methods : List String
methods = "handleNavigation" ∷ "reportConnError" ∷ "render" ∷ "setState" ∷ "forceUpdate" ∷ []

unfoldable pub has_method : String → List String → Bool
has_method name [] = false
has_method name (m ∷ ms) = m == name || has_method name ms

-- `this.timer = setInterval(this.NAME.bind(this), 1000)`: `bind` of a missing method is a TypeError.
unfoldable pub start_interval : String → App → Call
unfolding has_method set_interval
start_interval name app =
    if has_method name methods
    then (let (id, timers) = set_interval app.disconnected.timers in
        returned (record {
          disconnected = record {
            is_disconnected = app.disconnected.is_disconnected;
            timer = app.disconnected.timer;
            timers = timers;
          };
          timer = some id;
        }))
    else type_error app

unfoldable pub report_conn_error : App → Call
report_conn_error app =
    start_interval "loadState"
      (record app { disconnected = Banner.report_conn_error app.disconnected })
