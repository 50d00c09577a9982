-- ===== src/Server/KeyGen/Workload.antt =====
-- kuard/pkg/keygen/workload.go: the loop of a workload, from its start to the end of its goroutine or
-- of the process. Before each key it looks whether its context is cancelled or its time is over.
pub mod Ending
use kubernetes_up_running.Base.{
  ℕ, zero, suc, ◌-◌, Option, some, none, Bool, true, false, ◌&&◌, not, List, [], ◌∷◌, ◌++◌, leb,
  ltb, if◌then◌else◌,
}
use kubernetes_up_running.Base.Int.{ℤ, pos, negsuc, ltb_ℤ}
use kubernetes_up_running.Js.Text.{Text, codes, to_decimal}
use kubernetes_up_running.Server.KeyGen.{Config}

-- What the `select` of `isDone` finds. (If both channels are ready, Go chooses one.)
pub data Signal : Type 0 where
  cancelled timed_out nothing : Signal

-- How `startWork` ends: the goroutine returns, or the process exits with a code.
pub data End : Type 0 where
  returns : End
  exits : ℤ → End

-- `%d` of an int
unfoldable pub int_text : ℤ → Text
int_text (pos n) = to_decimal n
int_text (negsuc n) = codes "-" ++ to_decimal (suc n)

-- `desc` with ": " before it, if there is one.
unfoldable pub described : Text → Text
described [] = []
described (c ∷ desc) = codes ": " ++ c ∷ desc

-- What a workload meets: what each look at its channels finds, what `generateKey` says, and how
-- `humanize` puts the time that is left after each key.
pub record World : Type 0 where
  pub signal : ℕ → Signal
  pub key : ℕ → Text
  pub left : ℕ → Text

abbrev pub is_positive : ℤ → Bool
is_positive n = ltb_ℤ (pos 0) n

-- Without a time to run the channel `timeout` is nil, which is never ready.
unfoldable pub seen : Config → Signal → Signal
seen c cancelled = cancelled
seen c timed_out = if is_positive c.time_to_run then timed_out else nothing
seen c nothing = nothing

-- `isDone`: whether the loop stops, and then whether it was cancelled.
unfoldable pub is_done : World → Config → ℕ → Option Bool
unfolding seen
is_done w c generated = elim (seen c (w.signal generated)) [
  | cancelled ↦ some true
  | timed_out ↦ some false
  | nothing ↦
      if is_positive c.num_to_gen && not (ltb_ℤ (pos generated) c.num_to_gen)
      then some false
      else none
]

unfoldable pub starting : ℕ → Text
starting id = codes "(ID " ++ to_decimal id ++ codes ") Workload starting"

unfoldable pub exiting : ℕ → Text
exiting id = codes "(ID " ++ to_decimal id ++ codes ") Workload exiting"

-- `done`: its line of the log, and how the goroutine ends.
unfoldable pub done : ℕ → Config → Bool → List Text × End
unfolding exiting
done id c canceled =
    (exiting id ∷ [], if not canceled && c.exit_on_complete then exits c.exit_code else returns)

-- The line of `itemDone`, with the number of keys after it.
unfoldable pub item_done : World → ℕ → Config → ℕ → Text
unfolding int_text described
item_done w id c generated =
    codes "(ID "
    ++ to_decimal id
    ++ (if is_positive c.num_to_gen
        then codes " " ++ to_decimal generated ++ codes "/" ++ int_text c.num_to_gen
        else codes " " ++ to_decimal generated ++ codes "/Inf")
    ++ (if is_positive c.time_to_run then codes " " ++ w.left generated else [])
    ++ codes ") Item done"
    ++ described (w.key generated)

abbrev pub log_first : Text → Option (List Text × End) → Option (List Text × End)
log_first line none = none
log_first line (some (lines, end)) = some (line ∷ lines, end)

-- The loop, by fuel, one unit for each call of `isDone`.
unfoldable pub loop : ℕ → World → ℕ → Config → ℕ → Option (List Text × End)
unfolding is_done done item_done
loop zero w id c generated = none
loop (suc fuel) w id c generated = elim (is_done w c generated) [
  | some canceled ↦ some (done id c canceled)
  | none ↦ log_first (item_done w id c (suc generated)) (loop fuel w id c (suc generated))
]

unfoldable pub start_work : ℕ → World → ℕ → Config → Option (List Text × End)
unfolding starting loop
start_work fuel w id c = log_first (starting id) (loop fuel w id c 0)
