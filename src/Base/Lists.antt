-- ===== src/Base/Lists.antt =====
-- Lists measured and indexed by native numbers, and a predicate on all elements.
use Prim.Native.Nat.{ℕ, zero, suc, ◌+◌, ◌<◌}
use mathlib.Core.Path.{◌≡◌, refl, ap}
use mathlib.Core.Bool.{Bool, true, false}
use mathlib.Core.Logic.{◌⊎◌, ◌↔◌, inl, inr}
use mathlib.Core.List.{map, List, [], ◌∷◌, ◌++◌}
use native.Mathlib.Omega.{arith}

module _ {ℓ} {A : Type ℓ} where
  abbrev pub length : List A → ℕ
  length [] = 0
  length (x ∷ xs) = suc (length xs)

  abbrev pub replicate : ℕ → A → List A
  replicate zero a = []
  replicate (suc n) a = a ∷ replicate n a

  -- A write out of bounds changes nothing.
  abbrev pub set : List A → ℕ → A → List A
  set [] i v = []
  set (x ∷ xs) zero v = v ∷ xs
  set (x ∷ xs) (suc i) v = x ∷ set xs i v

  pub length-append : (xs ys : List A) → length (xs ++ ys) ≡ length xs + length ys
  length-append [] ys = omega arith
  length-append (x ∷ xs) ys = omega (arith, length-append xs ys)

  pub length-replicate : (n : ℕ) (a : A) → length (replicate n a) ≡ n
  length-replicate zero a = refl
  length-replicate (suc n) a = ap suc (length-replicate n a)

  pub length-set : (xs : List A) (i : ℕ) (v : A) → length (set xs i v) ≡ length xs
  length-set [] i v = refl
  length-set (x ∷ xs) zero v = refl
  length-set (x ∷ xs) (suc i) v = ap suc (length-set xs i v)

abbrev pub All {ℓ κ} : {A : Type ℓ} → (A → Type κ) → List A → Type κ
All P [] = Unit
All P (x ∷ xs) = P x × All P xs

pub All-concat {ℓ κ} :
    {A : Type ℓ} (P : A → Type κ) (xs : List A) (x : A) → All P xs → P x → All P (xs ++ x ∷ [])
All-concat P [] x below here = (here, tt)
All-concat P (y ∷ ys) x below here = (below.0, All-concat P ys x below.1 here)

-- The elements of a list. (At `Type 0`, where the negation `⊥` lives.)
infix 4 ◌∈◌
abbrev pub ◌∈◌ : {A : Type 0} → A → List A → Type 0
a ∈ [] = ⊥
a ∈ (x ∷ xs) = (a ≡ x) ⊎ (a ∈ xs)

pub ∈-concat_iff : {A : Type 0} (a x : A) (xs : List A) → (a ∈ xs ++ x ∷ []) ↔ ((a ∈ xs) ⊎ (a ≡ x))
∈-concat_iff a x [] = ground arith
∈-concat_iff a x (y ∷ xs) = ground (arith, ∈-concat_iff a x xs)

pub All-of_∈ : {A : Type 0} (P : A → Type 0) (xs : List A) → ((a : A) → a ∈ xs → P a) → All P xs
All-of_∈ P [] h = tt
All-of_∈ P (x ∷ xs) h = (h x (inl refl), All-of_∈ P xs (λ a m. h a (inr m)))

-- Strictly ascending, so without duplicates.
abbrev pub IsAscending : List ℕ → Type 0
IsAscending [] = Unit
IsAscending (x ∷ xs) = All (λ y. x < y) xs × IsAscending xs

pub IsAscending-concat :
    (xs : List ℕ) (n : ℕ) → IsAscending xs → All (λ x. x < n) xs → IsAscending (xs ++ n ∷ [])
IsAscending-concat [] n h k = (tt, tt)
IsAscending-concat (x ∷ xs) n h k =
    (All-concat (λ y. x < y) xs n h.0 k.0, IsAscending-concat xs n h.1 k.1)

pub All-map :
    {A B : Type 0} (P : A → Type 0) (Q : B → Type 0) (f : A → B)
    → ((a : A) → P a → Q (f a))
    → (xs : List A) → All P xs
    → All Q (map f xs)
All-map P Q f step [] h = tt
All-map P Q f step (x ∷ xs) (p, h) = (step x p, All-map P Q f step xs h)

pub All-at : {A : Type 0} (P : A → Type 0) (xs : List A) → All P xs → (a : A) → a ∈ xs → P a
All-at P (x ∷ xs) h a (inl e) = rw e h.0
All-at P (x ∷ xs) h a (inr m) = All-at P xs h.1 a m
All-at P [] h a m = absurd m

abbrev pub is_empty {ℓ} : {A : Type ℓ} → List A → Bool
is_empty [] = true
is_empty (x ∷ xs) = false
