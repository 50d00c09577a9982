-- ===== src/Server/Probe/Answers.antt =====
-- How many calls of the probe fail.
use mathlib.Core.Path.{ap₂}
use Prim.Native.Nat.{min}
use kubernetes_up_running.Base.{
  ℕ, zero, suc, ◌-◌, ◌≡◌, refl, ◌∙◌, ap, List, [], ◌∷◌, ◌++◌, arith, replicate, length,
}
use kubernetes_up_running.Base.Int.{ℤ, pos, negsuc}
use kubernetes_up_running.Server.Probe.{Probe, set_config, outcome, record_request, handle}

-- `a` failures, then `b` successes.
abbrev pub statuses : ℕ → ℕ → List ℕ
statuses a b = replicate a 500 ++ replicate b 200

statuses-eq : (a b c d : ℕ) → a ≡ c → b ≡ d → statuses a b ≡ statuses c d
statuses-eq a b c d p q = ap₂ statuses p q

module _ {Time : Type 0} where
  -- The calls at the given times: the probe after them, and their statuses.
  pub run : List Time → Probe Time → Probe Time × List ℕ
  run [] p = (p, [])
  run (now ∷ times) p =
      let (p', status, message) = handle Time now p in
      let (q, more) = run times p' in (q, status ∷ more)

  handle_status :
      (now : Time) (p : Probe Time) (n : ℤ)
      → p.fail_next ≡ n
      → ((handle Time now p).1 ≡ (outcome Time n).0)
        × ((handle Time now p).0.fail_next ≡ (outcome Time n).2)
  unfolding handle record_request
  handle_status now p n e = (rw e, rw e)

  run_healthy :
      (times : List Time) (p : Probe Time)
      → p.fail_next ≡ pos 0
      → (run times p).1 ≡ replicate (length times) 200
  unfolding run outcome
  run_healthy [] p e = refl
  run_healthy (now ∷ times) p e =
      let (status, left) = handle_status now p (pos 0) e in
      ap₂ ◌∷◌ status (run_healthy times (handle Time now p).0 left)

  pub run_failing :
      (n : ℕ) (times : List Time) (p : Probe Time)
      → p.fail_next ≡ pos n
      → (run times p).1 ≡ statuses (min n (length times)) (length times - n)
  unfolding run outcome
  run_failing n [] p e = statuses-eq 0 0 _ _ (omega arith) (omega arith)
  run_failing zero (now ∷ times) p e =
      run_healthy (now ∷ times) p e
      ∙ statuses-eq 0 (suc (length times)) _ _ (omega arith) (omega arith)
  run_failing (suc n) (now ∷ times) p e =
      let (status, left) = handle_status now p (pos (suc n)) e in
      ap₂ ◌∷◌ status (run_failing n times (handle Time now p).0 left)
      ∙ statuses-eq (suc (min n (length times))) (length times - n) _ _ (omega arith) (omega arith)

  -- After the probe is configured to fail n times, of any calls that follow the first n are answered
  -- with status 500 and all others with status 200.
  pub configured_to_fail :
      (n : ℕ) (times : List Time) (p : Probe Time)
      → (run times (set_config Time (pos n) p)).1
        ≡ statuses (min n (length times)) (length times - n)
  unfolding set_config
  configured_to_fail n times p = run_failing n times _ refl

  run_permanent :
      (n : ℕ) (times : List Time) (p : Probe Time)
      → p.fail_next ≡ negsuc n
      → (run times p).1 ≡ replicate (length times) 500
  unfolding run outcome
  run_permanent n [] p e = refl
  run_permanent n (now ∷ times) p e =
      let (status, left) = handle_status now p (negsuc n) e in
      ap₂ ◌∷◌ status (run_permanent n times (handle Time now p).0 left)

  -- After it is configured with a negative number, every call is answered with status 500.
  configured_to_fail_forever :
      (n : ℕ) (times : List Time) (p : Probe Time)
      → (run times (set_config Time (negsuc n) p)).1 ≡ replicate (length times) 500
  unfolding set_config
  configured_to_fail_forever n times p = run_permanent n times _ refl

  -- The configured number goes down by one with each call, to 0.
  pub run-fail_next :
      (n : ℕ) (times : List Time) (p : Probe Time)
      → p.fail_next ≡ pos n
      → (run times p).0.fail_next ≡ pos (n - length times)
  unfolding run outcome
  run-fail_next n [] p e = e ∙ ap pos (omega arith)
  run-fail_next zero (now ∷ times) p e =
      run-fail_next zero times (handle Time now p).0 (handle_status now p (pos 0) e).1
      ∙ ap pos (omega arith)
  run-fail_next (suc n) (now ∷ times) p e =
      run-fail_next n times (handle Time now p).0 (handle_status now p (pos (suc n)) e).1
      ∙ ap pos (omega arith)
