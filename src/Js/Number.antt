-- ===== src/Js/Number.antt =====
-- The JavaScript numbers that are whole, and the three that are not finite. An integer of more than
-- 53 bits is rounded to a multiple of a power of two, ties to even, as IEEE 754 says, and one that
-- reaches 2 ^ 1024 is infinite. (-0 reads as 0: no test of the programs tells them apart.)
use kubernetes_up_running.Base.{
  ℕ, zero, suc, ◌+◌, ◌-◌, ◌*◌, ◌/◌, ◌%◌, ◌^◌, ◌≤◌, ◌≡◌, refl, Bool, true, false, ◌&&◌, ◌||◌, ltb,
  leb, ◌==◌, if◌then◌else◌, le→leb,
}
use kubernetes_up_running.Base.Int.{ℤ, pos, negsuc}

pub data Number : Type 0 where
  nan : Number
  int : ℤ → Number
  infinity : Number
  neg_infinity : Number

-- 2 ^ 53: every integer up to it is a double, and its successor is not.
abbrev pub exact_limit : ℕ
exact_limit = 9007199254740992

-- The number of binary digits, at most `fuel`. (Fuel 1100: past it the result is infinite anyway.)
bit_length : ℕ → ℕ → ℕ
bit_length zero n = 0
bit_length (suc fuel) n = let rest = bit_length fuel (n / 2) in if n == 0 then 0 else suc rest

-- `q` units and a rest `r`, to the nearest number of units.
nearest : ℕ → ℕ → ℕ → ℕ
nearest unit q r = if ltb unit (2 * r) || (2 * r == unit && q % 2 == 1) then q + 1 else q

round_large : ℕ → ℕ → ℕ
unfolding nearest
round_large unit n = nearest unit (n / unit) (n % unit) * unit

-- The double nearest to `n`; `infinite` stands for an overflow.
round_to : {A : Type 0} → (ℕ → A) → A → ℕ → A
unfolding bit_length round_large
round_to exact infinite n =
    if leb n exact_limit
    then exact n
    else let m = round_large (2 ^ (bit_length 1100 n - 53)) n in
      if ltb m (2 ^ 1024) then exact m else infinite

abbrev pub negate : ℕ → ℤ
negate zero = pos 0
negate (suc n) = negsuc n

unfoldable pub of_ℕ : ℕ → Number
unfolding round_to
of_ℕ = round_to (λ m. int (pos m)) infinity

unfoldable pub of_neg : ℕ → Number
unfolding round_to
of_neg = round_to (λ m. int (negate m)) neg_infinity

-- `x * k` for a constant `k` above 0.
unfoldable pub times : Number → ℕ → Number
times nan k = nan
times (int (pos n)) k = of_ℕ (n * k)
times (int (negsuc n)) k = of_neg (suc n * k)
times infinity k = infinity
times neg_infinity k = neg_infinity

-- `x || fallback`
unfoldable pub or_else : Number → ℕ → Number
or_else nan fallback = int (pos fallback)
or_else (int (pos zero)) fallback = int (pos fallback)
or_else x fallback = x

abbrev pub is_nan : Number → Bool
is_nan nan = true
is_nan _ = false

-- `x < 0`
abbrev pub is_negative : Number → Bool
is_negative (int (negsuc n)) = true
is_negative neg_infinity = true
is_negative _ = false

-- `i <= x` and `i < x`, for a counter `i`
abbrev pub at_most : ℕ → Number → Bool
at_most i (int (pos n)) = leb i n
at_most i infinity = true
at_most i _ = false

abbrev pub below : ℕ → Number → Bool
below i (int (pos n)) = ltb i n
below i infinity = true
below i _ = false

-- `i++` on a counter: at 2 ^ 53 the sum rounds back to 2 ^ 53.
abbrev pub next : ℕ → ℕ
next i = if ltb i exact_limit then suc i else i

pub of_ℕ_exact : (n : ℕ) → n ≤ exact_limit → of_ℕ n ≡ int (pos n)
unfolding of_ℕ
of_ℕ_exact n h = rw (le→leb n exact_limit h)

above_limit : of_ℕ 9007199254740993 ≡ int (pos 9007199254740992)
unfolding of_ℕ
above_limit = refl

rounded_up : of_ℕ 9007199254740995 ≡ int (pos 9007199254740996)
unfolding of_ℕ
rounded_up = refl

pub of_neg_exact : (n : ℕ) → n ≤ exact_limit → of_neg n ≡ int (negate n)
unfolding of_neg
of_neg_exact n h = rw (le→leb n exact_limit h)
