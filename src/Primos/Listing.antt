-- ===== src/Primos/Listing.antt =====
-- `obtenerPrimos` lists the primes up to its argument.
use mathlib.Core.Path.{subst}
use native.Mathlib.Decide.{dec_lt, dec_le}
use kubernetes_up_running.Base.{
  ℕ, zero, suc, ◌+◌, ◌≤◌, ◌<◌, ◌≡◌, refl, ◌↔◌, inl, inr, Option, Bool, arith, List, [], ◌∷◌, ◌++◌,
  ◌∈◌, ∈-concat_iff, All-of_∈, IsAscending, IsAscending-concat, le→leb, lt→leb, lt→ltb, le→ltb, sym,
  ap, length,
}
use kubernetes_up_running.Base.Int.{pos}
use kubernetes_up_running.Js.Number.{int, exact_limit}
use kubernetes_up_running.Js.Loop.{next_of_lt}
use kubernetes_up_running.Load.{Completion, value, throws, ◌>>=◌}
use kubernetes_up_running.Primos.Search.{
  es_primo, push, push_if, push_if_primo, obtener_from, obtener_primos,
}
use kubernetes_up_running.Primos.Prime.{IsPrime, Decides, prime, not_prime, es_primo-Decides}

-- Exactly the primes below `i`, in ascending order.
pub record ListsPrimesBelow (i : ℕ) (l : List ℕ) : Type 0 where
  pub exactly : (p : ℕ) → (p ∈ l) ↔ (IsPrime p × (p < i))
  pub ascending : IsAscending l

ListsPrimesBelow-two : ListsPrimesBelow 2 []
ListsPrimesBelow-two = record {
  exactly = λ p. (λ m. absurd m, λ (h, k). omega (arith, h.above_one));
  ascending = tt;
}

module _ (i : ℕ) (l : List ℕ) (so_far : ListsPrimesBelow i l) where
  ListsPrimesBelow-prime : IsPrime i → ListsPrimesBelow (suc i) (l ++ i ∷ [])
  ListsPrimesBelow-prime h = record {
    exactly = λ p. (
      λ m. elim ((∈-concat_iff p i l).0 m) [
        | inl old ↦ let (q, lt) = (so_far.exactly p).0 old in (q, omega arith)
        | inr e ↦ (subst IsPrime (sym e) h, omega arith)
      ],
      λ (q, lt). elim (dec_lt p i) [
        | yes old ↦ (∈-concat_iff p i l).1 (inl ((so_far.exactly p).1 (q, old)))
        | no new ↦ (∈-concat_iff p i l).1 (inr (omega arith))
      ],
    );
    ascending =
        IsAscending-concat l i so_far.ascending
          (All-of_∈ (λ p. p < i) l (λ p m. ((so_far.exactly p).0 m).1));
  }

  ListsPrimesBelow-not_prime : ¬ IsPrime i → ListsPrimesBelow (suc i) l
  ListsPrimesBelow-not_prime h = record {
    exactly = λ p. (
      λ m. let (q, lt) = (so_far.exactly p).0 m in (q, omega arith),
      λ (q, lt). elim (dec_lt p i) [
        | yes old ↦ (so_far.exactly p).1 (q, old)
        | no new ↦ absurd (h (subst IsPrime (omega arith) q))
      ],
    );
    ascending = so_far.ascending;
  }

length-concat : (l : List ℕ) (i : ℕ) → length (l ++ i ∷ []) ≡ suc (length l)
length-concat [] i = refl
length-concat (x ∷ l) i = ap suc (length-concat l i)

-- There are 2 ^ 32 primes or more up to `n`: one of them is above 2 ^ 32 - 1 others.
abbrev pub AreTooMany : ℕ → Type 0
AreTooMany n =
    (i : ℕ) × (l : List ℕ) × (i ≤ n) × IsPrime i × ListsPrimesBelow i l × (length l ≡ 4294967295)

-- What `obtenerPrimos` does: it returns the primes up to `n`, fewer than 2 ^ 32, or there are more, and
-- it throws.
pub data Listed (n : ℕ) : Completion (List ℕ) → Type 0 where
  listed : (l : List ℕ) → ListsPrimesBelow (suc n) l → length l < 4294967296 → Listed n (value l)
  too_many : AreTooMany n → Listed n throws

module _ (n i : ℕ) (l : List ℕ) (rest : List ℕ → Completion (List ℕ)) (inside : i ≤ n)
    (so_far : ListsPrimesBelow i l) (short : length l < 4294967296)
    (goes_on : (l' : List ℕ)
      → ListsPrimesBelow (suc i) l'
      → length l' < 4294967296
      → Listed n (rest l')) where
  push-Listed : IsPrime i → Listed n (push i l >>= rest)
  unfolding push
  push-Listed h = elim (dec_lt (length l) 4294967295) [
    | yes room ↦
        rw (push, lt→ltb (length l) 4294967295 room)
          (goes_on (l ++ i ∷ []) (ListsPrimesBelow-prime i l so_far h)
            (omega (arith, length-concat l i)))
    | no full ↦
        rw (push, le→ltb (length l) 4294967295 (omega arith))
          (too_many (i, l, inside, h, so_far, omega arith))
  ]

  push_if-Listed : (r : Option Bool) → Decides i r → Listed n (push_if r i l >>= rest)
  push_if-Listed _ (prime h) = push-Listed h
  push_if-Listed _ (not_prime h) = goes_on l (ListsPrimesBelow-not_prime i l so_far h) short

obtener_from-Listed :
    (fuel n i : ℕ) (l : List ℕ)
    → n < exact_limit
    → i ≤ suc n
    → suc n < i + fuel
    → ListsPrimesBelow i l
    → length l < 4294967296
    → Listed n (obtener_from fuel (int (pos n)) i l)
unfolding obtener_from push_if_primo
obtener_from-Listed zero n i l exact below enough so_far short = absurd (omega arith)
obtener_from-Listed (suc fuel) n i l exact below enough so_far short = elim (dec_le i n) [
  | yes inside ↦
      rw (obtener_from, le→leb i n inside, next_of_lt i (omega arith))
        (push_if-Listed n i l (obtener_from fuel (int (pos n)) (suc i)) inside so_far short
          (λ l' p k. obtener_from-Listed fuel n (suc i) l' exact (omega arith) (omega arith) p k)
          (es_primo i) (es_primo-Decides i))
  | no outside ↦
      let here : i ≡ suc n = omega arith in
      rw (obtener_from, lt→leb i n (omega arith))
        (listed l (subst (λ k. ListsPrimesBelow k l) here so_far) short)
]

none_below_two : (n : ℕ) → n < 2 → ListsPrimesBelow (suc n) []
none_below_two n small = record {
  exactly = λ q. (λ m. absurd m, λ (h, lt). omega (arith, h.above_one));
  ascending = tt;
}

-- For a number `n` below 2 ^ 53, with fuel for each round, the loop returns the primes up to `n`, in
-- ascending order and no other number, or throws, where there are 2 ^ 32 of them or more.
pub obtener_primos-Listed :
    (n fuel : ℕ) → n < exact_limit → n < fuel → Listed n (obtener_primos fuel (int (pos n)))
unfolding obtener_primos obtener_from
obtener_primos-Listed n zero exact enough = absurd (omega arith)
obtener_primos-Listed n (suc fuel) exact enough = elim (dec_lt n 2) [
  | yes small ↦
      rw (obtener_primos, obtener_from, lt→leb 2 n small)
        (listed [] (none_below_two n small) (omega arith))
  | no large ↦
      obtener_from-Listed (suc fuel) n 2 [] exact (omega arith) (omega arith) ListsPrimesBelow-two
        (omega arith)
]
