-- ===== src/Load/Cpu.antt =====
-- `consumirCPU` returns the sum of its terms, or never returns.
use kubernetes_up_running.Base.{
  ℕ, zero, suc, ◌≤◌, ◌<◌, ◌≡◌, refl, ap, ◌∙◌, some, none, arith, lt→ltb, le→ltb,
}
use kubernetes_up_running.Base.Int.{pos}
use kubernetes_up_running.Js.Number.{int, infinity, exact_limit}
use kubernetes_up_running.Js.Loop.{returns, for_loop-Returns, for_loop-none}
use kubernetes_up_running.Floats.{Floats}
use kubernetes_up_running.Load.{term, consumir_cpu}

module _ (fl : Floats) where
  open fl use {Float}

  -- term 0 + term 1 + … + term (n - 1), added from the left.
  pub sum_below : ℕ → Float
  sum_below zero = fl.of_ℕ 0
  sum_below (suc n) = fl.plus (sum_below n) (term fl n)

  -- With fuel for each round, `consumirCPU` returns the sum over all iterations.
  pub consumir_cpu_sum :
      (n fuel : ℕ)
      → n ≤ exact_limit
      → n < fuel
      → consumir_cpu fl fuel (int (pos n)) ≡ some (sum_below n)
  unfolding consumir_cpu sum_below
  consumir_cpu_sum n fuel exact enough =
      let run =
        for_loop-Returns (λ i s. s ≡ sum_below i) _ _ 0 n exact (le→ltb n n (omega arith))
          (λ i from below. lt→ltb i n below)
          (λ i s from below e. returns _ (ap (λ t. fl.plus t (term fl i)) e)) fuel 0 (fl.of_ℕ 0)
          (omega arith) (omega arith) (omega arith) refl in
      run.returned ∙ ap some run.holds

  -- Past 2 ^ 53 the counter stops growing, and the loop never returns.
  pub consumir_cpu-none :
      (n fuel : ℕ)
      → exact_limit < n
      → (consumir_cpu fl fuel (int (pos n)) ≡ none) × (consumir_cpu fl fuel infinity ≡ none)
  unfolding consumir_cpu
  consumir_cpu-none n fuel large = (
    for_loop-none _ _ fuel 0 (fl.of_ℕ 0) (λ j below. lt→ltb j n (omega arith)) (omega arith),
    for_loop-none _ _ fuel 0 (fl.of_ℕ 0) (λ j below. refl) (omega arith),
  )
