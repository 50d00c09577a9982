-- ===== src/Js/Sort/Order.antt =====
-- Sorting permutes its input and puts it in order.
use Prim.Native.Nat.{Ordering}
use mathlib.Core.List.{Perm}
use mathlib.Core.List.Perm
use kubernetes_up_running.Base.{
  ◌≡◌, ◌≢◌, refl, ◌⊎◌, inl, inr, true, false, List, [], ◌∷◌, arith, All,
}
use kubernetes_up_running.Js.Text.{Text}
use kubernetes_up_running.Js.Sort.{text_lt, insert, sort}

pub text_lt-cotrans :
    (s t u : Text) → text_lt s u ≡ true → (text_lt s t ≡ true) ⊎ (text_lt t u ≡ true)
unfolding text_lt
text_lt-cotrans [] [] (e ∷ u) h = inr refl
text_lt-cotrans [] (d ∷ t) (e ∷ u) h = inl refl
text_lt-cotrans (c ∷ s) [] (e ∷ u) h = inr refl
text_lt-cotrans (c ∷ s) (d ∷ t) (e ∷ u) h = ground (arith, text_lt-cotrans s t u)
text_lt-cotrans [] t [] h = cc
text_lt-cotrans (c ∷ s) t [] h = cc

pub text_lt-asymm : (s t : Text) → text_lt s t ≡ true → text_lt t s ≡ false
unfolding text_lt
text_lt-asymm [] [] h = refl
text_lt-asymm [] (d ∷ t) h = refl
text_lt-asymm (c ∷ s) [] h = cc
text_lt-asymm (c ∷ s) (d ∷ t) h = ground (arith, text_lt-asymm s t)

Ordering-cases : (o : Ordering) → (o ≡ Ordering.gt) ⊎ (o ≢ Ordering.gt)
Ordering-cases Ordering.gt = inl refl
Ordering-cases Ordering.lt = inr (λ e. cc)
Ordering-cases Ordering.eq = inr (λ e. cc)

module _ {A : Type 0} (compare : A → A → Ordering) where
  -- No element is greater than one after it.
  abbrev pub IsSorted : List A → Type 0
  IsSorted [] = Unit
  IsSorted (x ∷ xs) = All (λ y. compare x y ≢ Ordering.gt) xs × IsSorted xs

  insert-perm : (x : A) (ys : List A) → Perm (insert compare x ys) (x ∷ ys)
  unfolding insert
  insert-perm x [] = Perm.refl _
  insert-perm x (y ∷ ys) =
      elim (compare x y)
        as (λ o.
          Perm (elim o [ Ordering.gt ↦ y ∷ insert compare x ys | _ ↦ x ∷ y ∷ ys ]) (x ∷ y ∷ ys)) [
            | Ordering.gt ↦ Perm.trans (Perm.cons y (insert-perm x ys)) (Perm.swap x y ys)
            | _ ↦ Perm.refl _
          ]

  pub sort-perm : (xs : List A) → Perm (sort compare xs) xs
  unfolding sort
  sort-perm [] = Perm.refl []
  sort-perm (x ∷ xs) = Perm.trans (insert-perm x (sort compare xs)) (Perm.cons x (sort-perm xs))

  insert_before :
      (x y : A) (ys : List A)
      → compare x y ≢ Ordering.gt
      → (P : List A → Type 0) → P (x ∷ y ∷ ys)
      → P (insert compare x (y ∷ ys))
  unfolding insert
  insert_before x y ys n P p = go (compare x y) n
    where
      go :
          (o : Ordering)
          → o ≢ Ordering.gt
          → P (elim o [ Ordering.gt ↦ y ∷ insert compare x ys | _ ↦ x ∷ y ∷ ys ])
      go Ordering.gt m = absurd (m refl)
      go Ordering.lt m = p
      go Ordering.eq m = p

  insert-All : (P : A → Type 0) (x : A) (ys : List A) → P x → All P ys → All P (insert compare x ys)
  unfolding insert
  insert-All P x [] p h = (p, tt)
  insert-All P x (y ∷ ys) p h = elim (Ordering-cases (compare x y)) [
    | inl e ↦ rw (e, insert) (h.0, insert-All P x ys p h.1)
    | inr n ↦ insert_before x y ys n (λ l. All P l) (p, h)
  ]

pub All-weaken :
    {A : Type 0} {P Q : A → Type 0} (xs : List A) → ((a : A) → P a → Q a) → All P xs → All Q xs
All-weaken [] f h = tt
All-weaken (x ∷ xs) f h = (f x h.0, All-weaken xs f h.1)

module _ {A : Type 0} (compare : A → A → Ordering)
    (total : (x y : A) → compare x y ≡ Ordering.gt → compare y x ≢ Ordering.gt)
    (trans : (x y z : A)
      → compare x y ≢ Ordering.gt
      → compare y z ≢ Ordering.gt
      → compare x z ≢ Ordering.gt) where
  insert-IsSorted :
      (x : A) (ys : List A) → IsSorted compare ys → IsSorted compare (insert compare x ys)
  unfolding insert
  insert-IsSorted x [] h = (tt, tt)
  insert-IsSorted x (y ∷ ys) h = elim (Ordering-cases (compare x y)) [
    | inl e ↦
        rw (e, insert)
          (
            insert-All compare (λ z. compare y z ≢ Ordering.gt) x ys (total x y e) h.0,
            insert-IsSorted x ys h.1,
          )
    | inr n ↦
        insert_before compare x y ys n (IsSorted compare)
          ((n, All-weaken ys (λ z le. trans x y z n le) h.0), h)
  ]

  pub sort-IsSorted : (xs : List A) → IsSorted compare (sort compare xs)
  unfolding sort
  sort-IsSorted [] = tt
  sort-IsSorted (x ∷ xs) = insert-IsSorted x (sort compare xs) (sort-IsSorted xs)
