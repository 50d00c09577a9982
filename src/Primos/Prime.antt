-- ===== src/Primos/Prime.antt =====
-- `esPrimo` decides whether a number is prime.
use native.Mathlib.Nat.{
  div-add-mod, mul-mod_right, mod-mod_of_dvd, dvd_of_mod-eq-zero, zero-mod, mul_comm, mul-le-mul,
  le-mul_of_pos_right, mul-lt-mul_of_pos_right, mul-le-mul_right,
}
use native.Mathlib.Decide.{dec_lt}
use kubernetes_up_running.Base.{
  ℕ, zero, suc, ◌+◌, ◌*◌, ◌/◌, ◌%◌, ◌≤◌, ◌<◌, ◌≡◌, ◌≢◌, refl, sym, ◌∙◌, ap, ◌⊎◌, inl, inr, Option,
  some, Bool, true, false, arith, leb, ◌==◌, ◌||◌, if◌then◌else◌,
}
use kubernetes_up_running.Primos.Search.{try_divisors, es_primo}

-- Greater than 1, and no product of two smaller numbers.
pub record IsPrime (n : ℕ) : Type 0 where
  pub above_one : 1 < n
  pub indivisible : (a b : ℕ) → n ≡ a * b → (a ≡ 1) ⊎ (a ≡ n)

-- No `d` with `1 < d < i` divides `n`.
abbrev NoDivisorBelow : ℕ → ℕ → Type 0
NoDivisorBelow i n = (d : ℕ) → 1 < d → d < i → n % d ≢ 0

mod-mul : (n a b : ℕ) → n ≡ a * b → n % a ≡ 0
mod-mul n a b e = rw e (mul-mod_right a b)

dvd_trans : (n d k : ℕ) → d % k ≡ 0 → n % d ≡ 0 → n % k ≡ 0
dvd_trans n d k h e =
    sym (mod-mod_of_dvd k n (dvd_of_mod-eq-zero k h)) ∙ ap (λ x. x % k) e ∙ zero-mod k

factor : (n d : ℕ) → n % d ≡ 0 → n ≡ d * (n / d)
factor n d e = omega (arith, div-add-mod n d)

-- A divisor other than 1 and `n` refutes primality.
not-IsPrime_of_divisor : (n d : ℕ) → 1 < d → d < n → n % d ≡ 0 → ¬ IsPrime n
not-IsPrime_of_divisor n d lo hi e p = ground (arith, p.indivisible d (n / d) (factor n d e))

not-IsPrime_of_le_one : (n : ℕ) → n ≤ 1 → ¬ IsPrime n
not-IsPrime_of_le_one n h p = omega (arith, p.above_one)

-- Two factors that are both at least `i` exceed `n` once `n < i * i`.
small_factor : (n i a b : ℕ) → n < i * i → n ≡ a * b → (a < i) ⊎ (b < i)
small_factor n i a b h e = elim (dec_lt a i) [
  | yes small ↦ inl small
  | no large ↦ elim (dec_lt b i) [
    | yes small ↦ inr small
    | no large' ↦
        let far : i * i ≤ a * b = mul-le-mul (omega arith) (omega arith) in absurd (omega arith)
  ]
]

factor_pos : (a b : ℕ) → 0 < a * b → (0 < a) × (0 < b)
factor_pos zero b h = absurd (omega arith)
factor_pos (suc a) zero h = absurd (omega arith)
factor_pos (suc a) (suc b) h = omega arith

factor-le : (a b : ℕ) → 0 < a * b → a ≤ a * b
factor-le a b h = le-mul_of_pos_right a (factor_pos a b h).1

proper_factors :
    (n a b : ℕ) → 1 < n → n ≡ a * b → a ≢ 1 → a ≢ n → ((1 < a) × (a < n)) × (1 < b) × (b < n)
proper_factors n a b lo e p q =
    let (a_pos, b_pos) = factor_pos a b (omega arith) in
    let a_le : a ≤ a * b = factor-le a b (omega arith) in
    let below : 1 * b < a * b = mul-lt-mul_of_pos_right (omega arith) b_pos in
    let b_ne : b ≢ 1 = λ h. q (sym (e ∙ ap (λ x. a * x) h ∙ omega arith)) in
    ((omega arith, omega arith), omega arith, omega arith)

IsPrime-of_NoDivisorBelow : (n i : ℕ) → 1 < n → n < i * i → NoDivisorBelow i n → IsPrime n
IsPrime-of_NoDivisorBelow n i lo h none_below = record {
  above_one = lo;
  indivisible = λ a b e. ground (
    arith,
    small_factor n i a b h e,
    none_below a,
    none_below b,
    mod-mul n a b e,
    mod-mul n b a (e ∙ mul_comm a b),
    proper_factors n a b lo e,
  );
}

multiple_of_two_or_three :
    (i d : ℕ) → i % 6 ≡ 5 → i ≤ d → d < i + 6 → d ≢ i → d ≢ i + 2 → (d % 2 ≡ 0) ⊎ (d % 3 ≡ 0)
multiple_of_two_or_three i d m lo hi p q = omega arith

-- The next round's bound: between `i` and `i + 6` only `i` and `i + 2` need a test.
NoDivisorBelow-next :
    (n i : ℕ)
    → i % 6 ≡ 5
    → 5 ≤ i
    → NoDivisorBelow i n
    → n % i ≢ 0
    → n % (i + 2) ≢ 0
    → NoDivisorBelow (i + 6) n
NoDivisorBelow-next n i m five below p q d lo hi e = ground (
  arith,
  below d,
  below 2,
  below 3,
  dvd_trans n d 2,
  dvd_trans n d 3,
  multiple_of_two_or_three i d,
)

-- The answer that `esPrimo` gives is `true` for a prime number and `false` for any other.
pub data Decides (n : ℕ) : Option Bool → Type 0 where
  prime : IsPrime n → Decides n (some true)
  not_prime : ¬ IsPrime n → Decides n (some false)

composite : (n d : ℕ) → 1 < d → d < n → n % d ≡ 0 → Decides n (some false)
composite n d lo hi e = not_prime (not-IsPrime_of_divisor n d lo hi e)

-- One round of the loop that does not end it by its test.
try_divisors-round :
    (n i : ℕ) (rest : Option Bool)
    → i * i ≤ n
    → i + 2 < n
    → 5 ≤ i
    → (n % i ≢ 0 → n % (i + 2) ≢ 0 → Decides n rest)
    → Decides n (
        if leb (i * i) n
        then (if n % i == 0 || n % (i + 2) == 0 then some false else rest)
        else some true)
try_divisors-round n i rest more lo five continue =
    ground (arith, composite n i, composite n (i + 2), continue)

try_divisors-Decides :
    (fuel i n : ℕ)
    → 1 < n
    → i % 6 ≡ 5
    → 5 ≤ i
    → NoDivisorBelow i n
    → n < i + 6 * fuel
    → Decides n (try_divisors (suc fuel) i n)
unfolding try_divisors
try_divisors-Decides zero i n lo m five below enough =
    let far : 5 * i ≤ i * i = mul-le-mul_right i five in
    ground (arith, prime (IsPrime-of_NoDivisorBelow n i lo (omega arith) below))
try_divisors-Decides (suc fuel) i n lo m five below enough = elim (dec_lt n (i * i)) [
  | yes done ↦ ground (arith, prime (IsPrime-of_NoDivisorBelow n i lo done below))
  | no more ↦
      let far : 5 * i ≤ i * i = mul-le-mul_right i five in
      try_divisors-round n i (try_divisors (suc fuel) (i + 6) n) (omega arith) (omega arith) five
        λ p q.
          try_divisors-Decides fuel (i + 6) n lo (omega arith) (omega arith)
            (NoDivisorBelow-next n i m five below p q) (omega arith)
]

one_to_three : (n : ℕ) → 1 < n → n ≤ 3 → IsPrime n
one_to_three n lo hi = IsPrime-of_NoDivisorBelow n 2 lo (omega arith) (λ d p q e. omega arith)

NoDivisorBelow-five : (n : ℕ) → n % 2 ≢ 0 → n % 3 ≢ 0 → NoDivisorBelow 5 n
NoDivisorBelow-five n p q d lo hi e = ground (arith, dvd_trans n d 2, two_to_four d)
  where
    two_to_four : (k : ℕ) → 1 < k → k < 5 → (k ≡ 3) ⊎ (k % 2 ≡ 0)
    two_to_four k a b = omega arith

try_divisors-five :
    (fuel n : ℕ) → 3 < n → n ≤ fuel → n % 2 ≢ 0 → n % 3 ≢ 0 → Decides n (try_divisors fuel 5 n)
try_divisors-five zero n lo hi p q = absurd (omega arith)
try_divisors-five (suc fuel) n lo hi p q =
    try_divisors-Decides fuel 5 n (omega arith) refl (omega arith) (NoDivisorBelow-five n p q)
      (omega arith)

-- In exact arithmetic the answer of `esPrimo` is right for every natural number, and its loop ends
-- within its fuel.
pub es_primo-Decides : (n : ℕ) → Decides n (es_primo n)
unfolding es_primo
es_primo-Decides n = ground (
  arith,
  λ (lo : 1 < n) (hi : n ≤ 3). prime (one_to_three n lo hi),
  λ (h : n ≤ 1). not_prime (not-IsPrime_of_le_one n h),
  composite n 2,
  composite n 3,
  try_divisors-five n n,
)
