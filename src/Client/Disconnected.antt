-- ===== src/Client/Disconnected.antt =====
-- kuard/client/src/disconnected.jsx: the banner that is shown while a report of a lost connection is
-- less than two seconds old.
pub mod Banner
pub mod Markup
use Prim.Native.String.{String}
use kubernetes_up_running.Base.{
  ℕ, Option, some, none, Bool, true, false, List, [], ◌∷◌, if◌then◌else◌,
}
use kubernetes_up_running.Client.Browser.{Timers, set_interval, clear_interval, is_set}

-- The component, with the browser's intervals.
pub record Disconnected : Type 0 where
  pub is_disconnected : Bool
  pub timer : Option ℕ
  pub timers : Timers

unfoldable pub construct : Timers → Disconnected
construct timers = record { is_disconnected = false; timer = none; timers = timers }

unfoldable pub report_conn_error : Disconnected → Disconnected
unfolding set_interval clear_interval
report_conn_error s =
    let cleared = if is_set s.timer then clear_interval s.timer s.timers else s.timers in
    let (id, timers) = set_interval cleared in
    record { is_disconnected = true; timer = some id; timers = timers }

unfoldable pub clear_conn_error : Disconnected → Disconnected
unfolding clear_interval
clear_conn_error s = record {
  is_disconnected = false;
  timer = none;
  timers = clear_interval s.timer s.timers;
}

unfoldable pub will_unmount : Disconnected → Disconnected
unfolding clear_interval
will_unmount s = record s { timers = clear_interval s.timer s.timers }

-- The style of the banner: visibility and display.
unfoldable pub banner_style : Disconnected → String × String
banner_style s = (
  if s.is_disconnected then "visible" else "hidden",
  if s.is_disconnected then "block" else "none",
)
