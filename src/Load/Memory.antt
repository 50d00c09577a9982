-- ===== src/Load/Memory.antt =====
-- `consumirMemoria` fills 131072 elements for each MiB, and throws from 32768 MiB on.
use kubernetes_up_running.Base.{
  ℕ, ◌*◌, ◌≤◌, ◌<◌, ◌≡◌, ap, ◌∙◌, some, none, arith, lt→ltb, le→ltb, length, replicate, length-set,
  length-replicate,
}
use kubernetes_up_running.Base.Int.{pos}
use kubernetes_up_running.Js.Number.{int, times, of_ℕ_exact, exact_limit}
use kubernetes_up_running.Js.Loop.{returns, for_loop-Returns}
use kubernetes_up_running.Floats.{Floats}
use kubernetes_up_running.Load.{
  value, throws, of_loop, eighth, array_length, fill_array, consumir_memoria,
}

-- 2 ^ 33 MiB: the number of bytes is exact up to it.
abbrev pub memory_limit : ℕ
memory_limit = 8589934592

pub times_exact : (n k : ℕ) → n * k ≤ exact_limit → times (int (pos n)) k ≡ int (pos (n * k))
unfolding times
times_exact n k h = of_ℕ_exact (n * k) h

elements :
    (m : ℕ)
    → m ≤ memory_limit
    → eighth (times (times (int (pos m)) 1024) 1024) ≡ int (pos (m * 131072))
unfolding eighth
elements m h =
    rw (times_exact m 1024 (omega arith), times_exact (m * 1024) 1024 (omega arith))
      (ap (λ k. int (pos k)) (omega arith))

array_length_small : (n : ℕ) → n < 4294967296 → array_length (int (pos n)) ≡ some n
unfolding array_length
array_length_small n h = rw (lt→ltb n 4294967296 h)

array_length_large : (n : ℕ) → 4294967296 ≤ n → array_length (int (pos n)) ≡ none
unfolding array_length
array_length_large n h = rw (le→ltb n 4294967296 h)

module _ (fl : Floats) where
  open fl use {Float}

  fill_array_value :
      (len fuel : ℕ) → len < 4294967296 → len < fuel → fill_array fl fuel (some len) ≡ value len
  unfolding fill_array
  fill_array_value len fuel small enough =
      let run =
        for_loop-Returns (λ i xs. length xs ≡ len) _ _ 0 len (omega arith)
          (le→ltb len len (omega arith)) (λ i from below. lt→ltb i len below)
          (λ i xs from below h. returns _ (length-set xs i (fl.random i) ∙ h)) fuel 0
          (replicate len (fl.of_ℕ 0)) (omega arith) (omega arith) (omega arith)
          (length-replicate len (fl.of_ℕ 0)) in
      ap (of_loop length) run.returned ∙ ap value run.holds

  -- With fuel for each element, the result is 131072 for each of fewer than 32768 MiB.
  pub consumir_memoria_value :
      (m fuel : ℕ)
      → m < 32768
      → m * 131072 < fuel
      → consumir_memoria fl fuel (int (pos m)) ≡ value (m * 131072)
  unfolding consumir_memoria
  consumir_memoria_value m fuel small enough =
      rw (elements m (omega arith), array_length_small (m * 131072) (omega arith))
        (fill_array_value (m * 131072) fuel (omega arith) enough)

  -- From 32768 MiB on the array would have 2 ^ 32 elements or more, and its creation throws.
  pub consumir_memoria-throws :
      (m fuel : ℕ) → 32768 ≤ m → m ≤ memory_limit → consumir_memoria fl fuel (int (pos m)) ≡ throws
  unfolding consumir_memoria fill_array
  consumir_memoria-throws m fuel large exact =
      rw (elements m exact, array_length_large (m * 131072) (omega arith))
