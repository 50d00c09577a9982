-- ===== src/Js/Loop.antt =====
-- The counting loop `for (let i = start; test(i); i++) body(i)`, whose body may itself not return.
-- It takes fuel, one unit for each test; `none` means that the fuel ran out.
use mathlib.Core.Path.{subst}
use native.Mathlib.Decide.{dec_lt}
use kubernetes_up_running.Base.{
  ℕ, zero, suc, ◌+◌, ◌≤◌, ◌<◌, ◌≡◌, refl, Option, some, none, Bool, true, false, arith, lt→ltb,
}
use kubernetes_up_running.Js.Number.{exact_limit, next}

infixl 5 ◌>>=◌
abbrev pub ◌>>=◌ {ℓ κ} : {A : Type ℓ} {B : Type κ} → Option A → (A → Option B) → Option B
none >>= f = none
some a >>= f = f a

unfoldable pub for_loop {ℓ} : {S : Type ℓ} → ℕ → (ℕ → Bool) → (ℕ → S → Option S) → ℕ → S → Option S
for_loop zero test body i s = none
for_loop (suc fuel) test body i s = elim (test i) [
  | true ↦ body i s >>= for_loop fuel test body (next i)
  | false ↦ some s
]

-- The computation returns, with a value that satisfies `P`.
pub record Returns {ℓ κ} {A : Type ℓ} (P : A → Type κ) (r : Option A) : Type (ℓ ⊔ κ) where
  pub value : A
  pub returned : r ≡ some value
  pub holds : P value

pub returns {ℓ κ} : {A : Type ℓ} {P : A → Type κ} (a : A) → P a → Returns P (some a)
returns a p = record { value = a; returned = refl; holds = p }

pub weaken {ℓ κ κ'} :
    {A : Type ℓ} {P : A → Type κ} {Q : A → Type κ'} {r : Option A} (implies : (a : A) → P a → Q a)
    → Returns P r
    → Returns Q r
weaken implies run = record {
  value = run.value;
  returned = run.returned;
  holds = implies run.value run.holds;
}

Returns->>= {ℓ κ ℓ' κ'} :
    {A : Type ℓ} {B : Type ℓ'} (P : A → Type κ) (Q : B → Type κ') {r : Option A} (f : A → Option B)
    → ((a : A) → P a → Returns Q (f a))
    → Returns P r
    → Returns Q (r >>= f)
Returns->>= P Q f goes_on run = rw (run.returned) (goes_on run.value run.holds)

pub next_of_lt : (i : ℕ) → i < exact_limit → next i ≡ suc i
next_of_lt i h = rw (lt→ltb i exact_limit h)

module _ {ℓ κ} {S : Type ℓ} (P : ℕ → S → Type κ) (test : ℕ → Bool) (body : ℕ → S → Option S)
    (start stop : ℕ) (exact : stop ≤ exact_limit) (ends : test stop ≡ false)
    (goes_on : (i : ℕ) → start ≤ i → i < stop → test i ≡ true)
    (keeps : (i : ℕ) (s : S) → start ≤ i → i < stop → P i s → Returns (P (suc i)) (body i s)) where
  -- With fuel for each index and the last test, the loop returns and keeps its invariant.
  pub for_loop-Returns :
      (fuel i : ℕ) (s : S)
      → start ≤ i
      → i ≤ stop
      → stop < i + fuel
      → P i s
      → Returns (P stop) (for_loop fuel test body i s)
  unfolding for_loop
  for_loop-Returns zero i s from below enough p = absurd (omega arith)
  for_loop-Returns (suc fuel) i s from below enough p = elim (dec_lt i stop) [
    | yes inside ↦
        rw (goes_on i from inside, for_loop)
          (Returns->>= (P (suc i)) (P stop) (for_loop fuel test body (next i))
            (λ t q.
              rw (next_of_lt i (omega arith))
                (for_loop-Returns fuel (suc i) t (omega arith) (omega arith) (omega arith) q))
            (keeps i s from inside p))
    | no outside ↦
        let here : i ≡ stop = omega arith in
        rw (here, ends, for_loop) (returns s (subst (λ k. P k s) here p))
  ]

next-le : (i : ℕ) → i ≤ exact_limit → next i ≤ exact_limit
next-le i h = ground arith

bind-none {ℓ κ} :
    {A : Type ℓ} {B : Type κ} (r : Option A) {f : A → Option B}
    → ((a : A) → f a ≡ none)
    → (r >>= f) ≡ none
bind-none none h = refl
bind-none (some a) h = h a

-- A loop whose test holds of every exact integer never returns: its counter stays at 2 ^ 53.
pub for_loop-none {ℓ} :
    {S : Type ℓ} (test : ℕ → Bool) (body : ℕ → S → Option S) (fuel i : ℕ) (s : S)
    → ((j : ℕ) → j ≤ exact_limit → test j ≡ true)
    → i ≤ exact_limit
    → for_loop fuel test body i s ≡ none
unfolding for_loop
for_loop-none test body zero i s all below = refl
for_loop-none test body (suc fuel) i s all below =
    rw (all i below, for_loop)
      (bind-none (body i s) λ t. for_loop-none test body fuel (next i) t all (next-le i below))
