-- ===== src/Load.antt =====
-- The synthetic load that primos/app.js and multiplica/app.js share: `consumirCPU`,
-- `consumirMemoria` and the handler of GET /load/:cpu/:mem.
pub mod Cpu
pub mod Memory
pub mod Handler
use kubernetes_up_running.Base.{
  ℕ, zero, suc, ◌*◌, ◌/◌, ◌^◌, Option, some, none, Bool, true, false, ◌||◌, List, [], ◌∷◌, ◌++◌,
  ltb, if◌then◌else◌, length, set, replicate,
}
use kubernetes_up_running.Base.Int.{pos, negsuc}
use kubernetes_up_running.Js.Number.{
  Number, nan, int, infinity, neg_infinity, negate, times, or_else, is_negative, below,
}
use kubernetes_up_running.Js.Text.{Text, codes, parse_int, to_decimal}
use kubernetes_up_running.Js.Loop.{for_loop}
use kubernetes_up_running.Floats.{Floats}

-- How a computation ends: with a value, by an exception, or not within its fuel.
pub data Completion (A : Type 0) : Type 0 where
  value : A → Completion A
  throws : Completion A
  hangs : Completion A

abbrev pub of_loop : {A B : Type 0} → (A → B) → Option A → Completion B
of_loop f none = hangs
of_loop f (some a) = value (f a)

infixl 5 ◌>>=◌
abbrev pub ◌>>=◌ : {A B : Type 0} → Completion A → (A → Completion B) → Completion B
value a >>= f = f a
throws >>= f = throws
hangs >>= f = hangs

-- `bytes / 8`, exact because `bytes` is a multiple of 1024.
unfoldable pub eighth : Number → Number
eighth (int (pos n)) = int (pos (n / 8))
eighth (int (negsuc n)) = int (negate (suc n / 8))
eighth x = x

-- `new Array(len)`: `none` is the RangeError for what is no integer from 0 to 2 ^ 32 - 1.
unfoldable pub array_length : Number → Option ℕ
array_length (int (pos n)) = if ltb n 4294967296 then some n else none
array_length _ = none

-- The text of a whole number below 10 ^ 21 or of a special one.
unfoldable pub number_text : Number → Text
number_text nan = codes "NaN"
number_text (int (pos n)) = to_decimal n
number_text (int (negsuc n)) = codes "-" ++ to_decimal (suc n)
number_text infinity = codes "Infinity"
number_text neg_infinity = codes "-Infinity"

-- `cpu / 1000000`, exact because the counts that `consumirCPU` gets through are multiples of 1000000.
unfoldable pub millions : Number → Number
millions (int (pos n)) = int (pos (n / 1000000))
millions (int (negsuc n)) = int (negate (suc n / 1000000))
millions x = x

module _ (fl : Floats) where
  open fl use {Float}

  -- `Math.sqrt(i) * Math.sin(i)`
  abbrev pub term : ℕ → Float
  term i = fl.times (fl.sqrt (fl.of_ℕ i)) (fl.sin (fl.of_ℕ i))

  unfoldable pub consumir_cpu : ℕ → Number → Option Float
  consumir_cpu fuel iteraciones =
      for_loop fuel (λ i. below i iteraciones) (λ i s. some (fl.plus s (term i))) 0 (fl.of_ℕ 0)

  -- The loop of `consumirMemoria`, and the array's length after it. A hole of the new array stands
  -- for any value; every one is written before the array is read.
  unfoldable pub fill_array : ℕ → Option ℕ → Completion ℕ
  fill_array fuel none = throws
  fill_array fuel (some len) = of_loop length (
      for_loop fuel (λ i. ltb i len) (λ i array. some (set array i (fl.random i))) 0
        (replicate len (fl.of_ℕ 0)))

  unfoldable pub consumir_memoria : ℕ → Number → Completion ℕ
  consumir_memoria fuel mb =
      let bytes = times (times mb 1024) 1024 in fill_array fuel (array_length (eighth bytes))

  pub record LoadReport : Type 0 where
    pub cpu_iterations : Text
    pub cpu_result : Float
    pub mem_mb : Text
    pub mem_elements : ℕ
    pub operation : Text
    pub host : Text

  -- What the handler of GET /load/:cpu/:mem answers: the report, or the 400 of a negative parameter.
  pub data LoadAnswer : Type 0 where
    report : LoadReport → LoadAnswer
    bad_request : LoadAnswer

  unfoldable pub operation_text : Number → Number → Text
  operation_text cpu mem =
      codes "consumir "
      ++ number_text (millions cpu)
      ++ codes "M iteraciones CPU y "
      ++ number_text mem
      ++ codes " MB memoria"

  unfoldable pub run_load : Text → ℕ → Text → Text → Number → Number → Completion LoadAnswer
  run_load host fuel cpu_param mem_param cpu mem =
      if is_negative cpu || is_negative mem then value bad_request else do
        cpu_result ← of_loop (λ x. x) (consumir_cpu fuel cpu)
        mem_result ← consumir_memoria fuel mem
        value (
            report (record {
              cpu_iterations = cpu_param;
              cpu_result = cpu_result;
              mem_mb = mem_param;
              mem_elements = mem_result;
              operation = operation_text cpu mem;
              host = host;
            }))

  -- GET /load/:cpu/:mem
  unfoldable pub load : Text → ℕ → Text → Text → Completion LoadAnswer
  load host fuel cpu_param mem_param =
      run_load host fuel cpu_param mem_param (or_else (times (parse_int cpu_param) 1000000) 1000000)
        (or_else (parse_int mem_param) 10)
