-- ===== src/Server/KeyGen/Workload/Ending.antt =====
-- When a workload ends, and what it has said by then.
use native.Mathlib.Decide.{ℕ_discrete}
use kubernetes_up_running.Base.{
  ℕ, zero, suc, ◌+◌, ◌≤◌, ◌<◌, ◌≡◌, ◌≢◌, refl, ap, sym, ◌∙◌, ◌⊎◌, inl, inr, Option, some, none,
  Bool, true, false, List, [], ◌∷◌, ◌++◌, arith, if◌then◌else◌,
}
use kubernetes_up_running.Base.Int.{pos}
use kubernetes_up_running.Js.Text.{Text}
use kubernetes_up_running.Server.KeyGen.{Config}
use kubernetes_up_running.Server.KeyGen.Workload.{
  Signal, cancelled, timed_out, nothing, End, returns, exits, World, is_positive, seen, is_done,
  starting, exiting, done, item_done, loop, start_work,
}

-- The lines for `m` keys after the first `k`.
abbrev pub items : World → ℕ → Config → ℕ → ℕ → List Text
items w id c k zero = []
items w id c k (suc m) = item_done w id c (suc k) ∷ items w id c (suc k) m

-- Only a workload that was not cancelled can end the process.
abbrev pub end_after : Config → Signal → End
end_after c cancelled = returns
end_after c timed_out = if c.exit_on_complete then exits c.exit_code else returns
end_after c nothing = if c.exit_on_complete then exits c.exit_code else returns

Signal-cases : (s : Signal) → (s ≡ cancelled) ⊎ (s ≡ timed_out) ⊎ (s ≡ nothing)
Signal-cases cancelled = inl refl
Signal-cases timed_out = inr (inl refl)
Signal-cases nothing = inr (inr refl)

module _ (w : World) (id : ℕ) (c : Config) where
  abbrev pub found : ℕ → Signal
  found k = seen c (w.signal k)

  -- The loop stops at `stop`, and not earlier, for a signal or because `limit` keys are made.
  pub record Stops (limit from stop : ℕ) : Type 0 where
    pub after : from ≤ stop
    pub within : stop ≤ limit
    pub undisturbed : (i : ℕ) → from ≤ i → i < stop → found i ≡ nothing
    pub reason : (stop ≡ limit) ⊎ (found stop ≢ nothing)

  goes_on :
      (n k : ℕ) → c.num_to_gen ≡ pos (suc n) → k ≤ n → found k ≡ nothing → is_done w c k ≡ none
  unfolding is_done
  goes_on n k e h s = rw (is_done, s, e) (ground arith)

  ends_at_limit :
      (n : ℕ)
      → c.num_to_gen ≡ pos (suc n)
      → found (suc n) ≡ nothing
      → is_done w c (suc n) ≡ some false
  unfolding is_done
  ends_at_limit n e s = rw (is_done, s, e) (ground arith)

  cancelled_done : (k : ℕ) → found k ≡ cancelled → is_done w c k ≡ some true
  unfolding is_done
  cancelled_done k s = rw (is_done, s) refl

  timed_out_done : (k : ℕ) → found k ≡ timed_out → is_done w c k ≡ some false
  unfolding is_done
  timed_out_done k s = rw (is_done, s) refl

  -- What the loop says and how it ends, if it stops at `stop`.
  abbrev rest_of : ℕ → ℕ → Option (List Text × End)
  rest_of k m = some (items w id c k m ++ exiting id ∷ [], end_after c (found (k + m)))

  -- The stop of a loop that has made `k` keys, given after so many more.
  record StopsAfter (limit fuel k : ℕ) : Type 0 where
    more : ℕ
    stops : Stops limit k (k + more)
    says : loop fuel w id c k ≡ rest_of k more

  stops_here :
      (n fuel k : ℕ) (canceled : Bool)
      → k ≤ suc n
      → (k ≡ suc n) ⊎ (found k ≢ nothing)
      → is_done w c k ≡ some canceled
      → (done id c canceled).1 ≡ end_after c (found k)
      → StopsAfter (suc n) (suc fuel) k
  unfolding loop done
  stops_here n fuel k canceled h reason d e =
      let zero_more : k + 0 ≡ k = omega arith in
      record {
        more = 0;
        stops = record {
          after = omega arith;
          within = omega arith;
          undisturbed = λ i from to. absurd (omega arith);
          reason = rw zero_more reason;
        };
        says = rw (loop, d, zero_more) (ap (λ t. some (exiting id ∷ [], t)) e);
      }

  one_more :
      (k limit fuel : ℕ)
      → k ≤ limit
      → is_done w c k ≡ none
      → found k ≡ nothing
      → StopsAfter limit fuel (suc k)
      → StopsAfter limit (suc fuel) k
  unfolding loop
  one_more k limit fuel h d s r =
      let shift : suc k + r.more ≡ k + suc r.more = omega arith in
      record {
        more = suc r.more;
        stops = record {
          after = omega arith;
          within = omega (arith, r.stops.within);
          undisturbed = λ i from to. elim (ℕ_discrete i k) [
            | yes this ↦ ap found this ∙ s
            | no later ↦ r.stops.undisturbed i (omega arith) (omega arith)
          ];
          reason = rw (sym shift) r.stops.reason;
        };
        says = rw (loop, d, r.says, sym shift) refl;
      }

  loop-StopsAfter :
      (n fuel k : ℕ)
      → c.num_to_gen ≡ pos (suc n)
      → k ≤ suc n
      → suc n < fuel + k
      → StopsAfter (suc n) fuel k
  unfolding loop
  loop-StopsAfter n zero k e h enough = absurd (omega arith)
  loop-StopsAfter n (suc fuel) k e h enough = elim (Signal-cases (found k)) [
    | inl s ↦
        stops_here n fuel k true h (inr (λ p. cc)) (cancelled_done k s) (ap (end_after c) (sym s))
    | inr (inl s) ↦
        stops_here n fuel k false h (inr (λ p. cc)) (timed_out_done k s) (ap (end_after c) (sym s))
    | inr (inr s) ↦ elim (ℕ_discrete k (suc n)) [
      | yes last ↦
          stops_here n fuel k false h (inl last)
            (ap (is_done w c) last ∙ ends_at_limit n e (ap found (sym last) ∙ s))
            (ap (end_after c) (sym s))
      | no before ↦
          one_more k (suc n) fuel h (goes_on n k e (omega arith) s) s
            (loop-StopsAfter n fuel (suc k) e (omega arith) (omega arith))
    ]
  ]

  -- A workload with a number of keys to make always ends, with fuel for each key: it says that it
  -- starts, then a line for each key that it makes, then that it exits. It stops before a key for which
  -- it finds its context cancelled or its time over, and otherwise when all keys are made. It ends the
  -- process exactly if it was not cancelled and is configured to exit.
  pub start_work-Stops :
      (n fuel : ℕ)
      → c.num_to_gen ≡ pos (suc n)
      → suc n < fuel
      → (made : ℕ) × Stops (suc n) 0 made
        × (start_work fuel w id c
            ≡ some
                (starting id ∷ (items w id c 0 made ++ exiting id ∷ []), end_after c (found made)))
  unfolding start_work
  start_work-Stops n fuel e enough =
      let r = loop-StopsAfter n fuel 0 e (omega arith) (omega arith) in
      let all : 0 + r.more ≡ r.more = omega arith in
      (r.more, rw (sym all) r.stops, rw (r.says, all) refl)

  never_done : (k : ℕ) → is_positive c.num_to_gen ≡ false → found k ≡ nothing → is_done w c k ≡ none
  unfolding is_done
  never_done k unlimited s = rw (is_done, s, unlimited) refl

  loop_endless :
      (fuel k : ℕ)
      → is_positive c.num_to_gen ≡ false
      → ((i : ℕ) → found i ≡ nothing)
      → loop fuel w id c k ≡ none
  unfolding loop
  loop_endless zero k unlimited s = refl
  loop_endless (suc fuel) k unlimited s =
      rw (loop, never_done k unlimited (s k), loop_endless fuel (suc k) unlimited s) refl

  -- A workload with no number of keys to make, that is never cancelled and whose time is never over,
  -- never ends, whatever the fuel.
  pub start_work_endless :
      (fuel : ℕ)
      → is_positive c.num_to_gen ≡ false
      → ((i : ℕ) → found i ≡ nothing)
      → start_work fuel w id c ≡ none
  unfolding start_work
  start_work_endless fuel unlimited s = rw (loop_endless fuel 0 unlimited s) refl
