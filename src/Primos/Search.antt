-- ===== src/Primos/Search.antt =====
-- primos/app.js, `esPrimo` and `obtenerPrimos`. `esPrimo` is over natural numbers up to 2 ^ 53, where
-- the arithmetic of doubles is exact; `obtenerPrimos` calls it with no others.
use kubernetes_up_running.Base.{
  ℕ, zero, suc, ◌+◌, ◌*◌, ◌%◌, Option, some, none, Bool, true, false, ◌||◌, leb, ◌==◌, ltb,
  if◌then◌else◌, List, [], ◌∷◌, ◌++◌, length,
}
use kubernetes_up_running.Js.Number.{Number, at_most, next}
use kubernetes_up_running.Load.{Completion, value, throws, hangs, ◌>>=◌}

-- `for (let i = 5; i * i <= num; i += 6)`; `none` means that the fuel ran out.
unfoldable pub try_divisors : ℕ → ℕ → ℕ → Option Bool
try_divisors zero i num = none
try_divisors (suc fuel) i num =
    let rest = try_divisors fuel (i + 6) num in
    if leb (i * i) num
    then (if num % i == 0 || num % (i + 2) == 0 then some false else rest)
    else some true

unfoldable pub es_primo : ℕ → Option Bool
unfolding try_divisors
es_primo num =
    if leb num 1
    then some false
    else if leb num 3
    then some true
    else if num % 2 == 0 || num % 3 == 0
    then some false
    else try_divisors num 5 num

-- `primos.push(i)`: an array has at most 2 ^ 32 - 1 elements, and the push of one more throws a
-- RangeError.
unfoldable pub push : ℕ → List ℕ → Completion (List ℕ)
push i primos = if ltb (length primos) 4294967295 then value (primos ++ i ∷ []) else throws

abbrev pub push_if : Option Bool → ℕ → List ℕ → Completion (List ℕ)
push_if none i primos = hangs
push_if (some primo) i primos = if primo then push i primos else value primos

-- The loop body of `obtenerPrimos`.
unfoldable pub push_if_primo : ℕ → List ℕ → Completion (List ℕ)
unfolding push es_primo
push_if_primo i primos = push_if (es_primo i) i primos

-- The loop `for (let i = 2; i <= n; i++)` from a given `i`, with one unit of fuel for each test; an
-- exception of the body ends it.
unfoldable pub obtener_from : ℕ → Number → ℕ → List ℕ → Completion (List ℕ)
unfolding push_if_primo
obtener_from zero n i primos = hangs
obtener_from (suc fuel) n i primos = elim (at_most i n) [
  | true ↦ push_if_primo i primos >>= obtener_from fuel n (next i)
  | false ↦ value primos
]

unfoldable pub obtener_primos : ℕ → Number → Completion (List ℕ)
unfolding obtener_from
obtener_primos fuel n = obtener_from fuel n 2 []
