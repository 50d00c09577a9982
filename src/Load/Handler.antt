-- ===== src/Load/Handler.antt =====
-- GET /load/:cpu/:mem: the report, the defaults, and the ways to fail.
use kubernetes_up_running.Base.{
  ℕ, zero, suc, ◌*◌, ◌≤◌, ◌<◌, ◌≡◌, ◌↔◌, ◌⊎◌, inl, inr, refl, true, arith,
}
use kubernetes_up_running.Base.Int.{pos}
use kubernetes_up_running.Js.Number.{Number, nan, int, times, or_else, is_negative, exact_limit}
use kubernetes_up_running.Js.Text.{Text, parse_int, to_decimal}
use kubernetes_up_running.Js.Text.Decimal.{parse_int-to_decimal}
use kubernetes_up_running.Floats.{Floats}
use kubernetes_up_running.Load.{value, throws, report, bad_request, operation_text, run_load, load}
use kubernetes_up_running.Load.Cpu.{sum_below, consumir_cpu_sum}
use kubernetes_up_running.Load.Memory.{
  memory_limit, times_exact, consumir_memoria_value, consumir_memoria-throws,
}

-- The iterations that the text of a parameter asks for, and the MiB.
abbrev pub iterations : Text → Number
iterations cpu_param = or_else (times (parse_int cpu_param) 1000000) 1000000

abbrev pub mebibytes : Text → Number
mebibytes mem_param = or_else (parse_int mem_param) 10

run_load-bad_request_iff :
    (fl : Floats) (host : Text) (fuel : ℕ) (cpu_param mem_param : Text) (cpu mem : Number)
    → (run_load fl host fuel cpu_param mem_param cpu mem ≡ value bad_request)
      ↔ ((is_negative cpu ≡ true) ⊎ (is_negative mem ≡ true))
unfolding run_load
run_load-bad_request_iff fl host fuel cpu_param mem_param cpu mem = ground arith

module _ (fl : Floats) (host : Text) (fuel : ℕ) (cpu_param mem_param : Text) where
  -- If the two parameters ask for `n` iterations and `m` MiB, 1 to 2 ^ 53 of the one and fewer than
  -- 32768 of the other, and the fuel covers both loops, the handler reports the sum over exactly `n`
  -- iterations and 131072 elements for each MiB.
  pub load-report :
      (n m : ℕ)
      → iterations cpu_param ≡ int (pos n)
      → mebibytes mem_param ≡ int (pos m)
      → n ≤ exact_limit
      → m < 32768
      → n < fuel
      → m * 131072 < fuel
      → load fl host fuel cpu_param mem_param
        ≡ value (
            report (record {
              cpu_iterations = cpu_param;
              cpu_result = sum_below fl n;
              mem_mb = mem_param;
              mem_elements = m * 131072;
              operation = operation_text fl (int (pos n)) (int (pos m));
              host = host;
            }))
  unfolding load run_load
  load-report n m cpu mem exact small cpu_fuel mem_fuel = rw (
    cpu,
    mem,
    consumir_cpu_sum fl n fuel exact cpu_fuel,
    consumir_memoria_value fl m fuel small mem_fuel,
  )

  -- From 32768 MiB on (up to 2 ^ 33) the handler throws after the CPU load.
  pub load-throws :
      (n m : ℕ)
      → iterations cpu_param ≡ int (pos n)
      → mebibytes mem_param ≡ int (pos m)
      → n ≤ exact_limit
      → n < fuel
      → 32768 ≤ m
      → m ≤ memory_limit
      → load fl host fuel cpu_param mem_param ≡ throws
  unfolding load run_load
  load-throws n m cpu mem exact cpu_fuel large limit = rw (
    cpu,
    mem,
    consumir_cpu_sum fl n fuel exact cpu_fuel,
    consumir_memoria-throws fl m fuel large limit,
  )

  -- The answer 400 is given exactly when a parameter is negative, and then nothing is consumed.
  load-bad_request_iff :
      (load fl host fuel cpu_param mem_param ≡ value bad_request)
      ↔ ((is_negative (iterations cpu_param) ≡ true) ⊎ (is_negative (mebibytes mem_param) ≡ true))
  unfolding load run_load
  load-bad_request_iff = run_load-bad_request_iff fl host fuel cpu_param mem_param _ _

or_else_pos : (n fallback : ℕ) → 0 < n → or_else (int (pos n)) fallback ≡ int (pos n)
unfolding or_else
or_else_pos zero fallback h = absurd (omega arith)
or_else_pos (suc n) fallback h = refl

-- What a positive decimal number asks for.
pub iterations_decimal :
    (c : ℕ)
    → 0 < c
    → c * 1000000 ≤ exact_limit
    → iterations (to_decimal c) ≡ int (pos (c * 1000000))
iterations_decimal zero p h = absurd (omega arith)
iterations_decimal (suc c) p h =
    rw (parse_int-to_decimal (suc c) (omega arith), times_exact (suc c) 1000000 h)
      (or_else_pos (suc c * 1000000) 1000000 (omega arith))

pub mebibytes_decimal : (m : ℕ) → 0 < m → m ≤ exact_limit → mebibytes (to_decimal m) ≡ int (pos m)
mebibytes_decimal m p h = rw (parse_int-to_decimal m h) (or_else_pos m 10 p)

-- A text that is no number, or zero, asks for the default.
pub iterations_default :
    (p : Text)
    → (parse_int p ≡ nan) ⊎ (parse_int p ≡ int (pos 0))
    → iterations p ≡ int (pos 1000000)
unfolding or_else times
iterations_default p (inl e) = rw e
iterations_default p (inr e) = rw (e, times_exact 0 1000000 (omega arith))

pub mebibytes_default :
    (p : Text) → (parse_int p ≡ nan) ⊎ (parse_int p ≡ int (pos 0)) → mebibytes p ≡ int (pos 10)
unfolding or_else
mebibytes_default p (inl e) = rw e
mebibytes_default p (inr e) = rw e
