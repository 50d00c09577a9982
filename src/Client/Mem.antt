-- ===== src/Client/Mem.antt =====
-- kuard/client/src/mem.jsx: the page of memory statistics. A field of the statistics that has not been
-- loaded is `undefined`; arithmetic on it gives NaN. Numbers of bytes are integers below 2 ^ 53.
pub mod Totals
pub mod Markup
use kubernetes_up_running.Base.{ℕ, Option, some, none, List, [], ◌∷◌, ◌++◌}
use kubernetes_up_running.Base.Int.{ℤ, pos, ◌+ℤ◌, ◌-ℤ◌}
use kubernetes_up_running.Js.Text.{Text, codes, to_decimal}
use kubernetes_up_running.Client.Browser.{
  Timers, set_interval, clear_interval, HttpResponse, Promise, fulfilled, rejected, ◌>>=◌,
  unchecked_json, fetch_error, Effect, fetch, report_conn_error, Method,
}

-- A value of a row: `undefined`, NaN or a number.
pub data Value : Type 0 where
  undefined : Value
  not_a_number : Value
  number : ℤ → Value

unfoldable pub plus : Value → Value → Value
plus (number a) (number b) = number (a +ℤ b)
plus _ _ = not_a_number

unfoldable pub minus : Value → Value → Value
minus (number a) (number b) = number (a -ℤ b)
minus _ _ = not_a_number

-- The statistics, with the fields that the page reads or deletes.
module _ (Json : Type 0) where
  pub record MemStats : Type 0 where
    pub heap_alloc : Value
    pub heap_idle : Value
    pub heap_released : Value
    pub stack_inuse : Value
    pub pause_ns : Option Json
    pub pause_end : Option Json
    pub by_size : Option Json

  pub record Mem : Type 0 where
    pub mem_stats : MemStats
    pub timer : Option ℕ
    pub api_path : Text

  unfoldable pub construct : Text → Mem
  construct api_path = record {
    mem_stats = record {
      heap_alloc = undefined;
      heap_idle = undefined;
      heap_released = undefined;
      stack_inuse = undefined;
      pause_ns = none;
      pause_end = none;
      by_size = none;
    };
    timer = none;
    api_path = api_path;
  }

  unfoldable pub load_state : Mem → Effect Unit
  load_state s = fetch Method.get s.api_path none

  -- The function that `loadState` hands to `then`: the statistics without their long fields. A failed
  -- load is handled nowhere, and leaves the page as it was.
  unfoldable pub on_loaded : Mem → Promise MemStats → Mem
  on_loaded s (fulfilled stats) = record s {
    mem_stats = record stats { pause_ns = none; pause_end = none; by_size = none };
  }
  on_loaded s (rejected reason) = s

  unfoldable pub load_settled : Mem → Promise (HttpResponse MemStats) → Mem
  load_settled s fetched = on_loaded s (unchecked_json fetched)

  unfoldable pub did_mount : Mem → Timers → Mem × Timers × List (Effect Unit)
  unfolding set_interval load_state
  did_mount s timers =
      let (id, after) = set_interval timers in
      (record s { timer = some id }, after, load_state s ∷ [])

  unfoldable pub will_unmount : Mem → Timers → Timers
  will_unmount s timers = clear_interval s.timer timers

  unfoldable pub alloc : Mem → ℕ → Effect Unit
  alloc s n = fetch Method.post (s.api_path ++ codes "/alloc?size=" ++ to_decimal n) none

  unfoldable pub clear : Mem → Effect Unit
  clear s = fetch Method.post (s.api_path ++ codes "/clear") none

  -- `.then(fetchError).catch(…)` of `alloc` and `clear`
  unfoldable pub post_settled : Promise (HttpResponse Unit) → List (Effect Unit)
  unfolding fetch_error
  post_settled fetched = elim (fetched >>= fetch_error) [
    | fulfilled response ↦ []
    | rejected reason ↦ report_conn_error ∷ []
  ]

  -- The rows of `render`, before `numeral` formats their values.
  unfoldable pub rows : Mem → List (Text × Value)
  unfolding plus minus
  rows s =
      let m = s.mem_stats in
      let idle = minus m.heap_idle m.heap_released in
      let total = plus (plus (plus (number (pos 0)) m.heap_alloc) idle) m.stack_inuse in
      (codes "HeapAlloc", m.heap_alloc)
      ∷ (codes "HeapIdle - HeapReleased", idle)
      ∷ (codes "StackInuse", m.stack_inuse)
      ∷ (codes "Total", total)
      ∷ []
