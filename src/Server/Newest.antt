-- ===== src/Server/Newest.antt =====
-- Histories that keep their newest entries: the slice `xs[n:]`, and what forgetting early forgets.
use native.Mathlib.Decide.{dec_lt}
use kubernetes_up_running.Base.{
  ℕ, zero, suc, ◌+◌, ◌-◌, ◌≤◌, ◌≡◌, refl, sym, ◌∙◌, ap, List, [], ◌∷◌, ◌++◌, map, arith, length,
  length-append, lt→ltb, le→ltb, ltb, if◌then◌else◌,
}

module _ {A : Type 0} where
  -- `xs[n:]`
  abbrev pub drop : ℕ → List A → List A
  drop zero xs = xs
  drop (suc n) [] = []
  drop (suc n) (x ∷ xs) = drop n xs

  abbrev pub newest : ℕ → List A → List A
  newest k xs = drop (length xs - k) xs

  drop-append : (n : ℕ) (xs ys : List A) → n ≤ length xs → drop n (xs ++ ys) ≡ drop n xs ++ ys
  drop-append zero xs ys h = refl
  drop-append (suc n) [] ys h = absurd (omega arith)
  drop-append (suc n) (x ∷ xs) ys h = drop-append n xs ys (omega arith)

  drop-nil : (n : ℕ) → drop n [] ≡ []
  drop-nil zero = refl
  drop-nil (suc n) = refl

  drop-drop : (m n : ℕ) (xs : List A) → drop m (drop n xs) ≡ drop (n + m) xs
  drop-drop m zero xs = ap (λ k. drop k xs) (omega arith)
  drop-drop m (suc n) [] = drop-nil m ∙ sym (drop-nil (suc n + m))
  drop-drop m (suc n) (x ∷ xs) =
      drop-drop m n xs ∙ ap (λ k. drop k (x ∷ xs)) {x = suc (n + m)} (omega arith)

  length-drop : (n : ℕ) (xs : List A) → length (drop n xs) ≡ length xs - n
  length-drop zero xs = omega arith
  length-drop (suc n) [] = omega arith
  length-drop (suc n) (x ∷ xs) = omega (arith, length-drop n xs)

  pub length-newest : (xs : List A) → length (newest 20 xs) ≤ 20
  length-newest xs = omega (arith, length-drop (length xs - 20) xs)

  -- What the servers do to a history of more than twenty.
  pub trimmed-newest :
      (xs : List A) → (if ltb 20 (length xs) then drop (length xs - 20) xs else xs) ≡ newest 20 xs
  trimmed-newest xs = elim (dec_lt 20 (length xs)) [
    | yes long ↦ rw (lt→ltb 20 (length xs) long)
    | no short ↦
        rw (le→ltb 20 (length xs) (omega arith)) (ap (λ k. drop k xs) {x = 0} (omega arith))
  ]

  newest-concat :
      (xs : List A) (e : A) → newest 20 (xs ++ e ∷ []) ≡ drop (length xs - 19) xs ++ e ∷ []
  newest-concat xs e =
      ap (λ k. drop k (xs ++ e ∷ [])) (omega (arith, length-append xs (e ∷ [])))
      ∙ drop-append (length xs - 19) xs (e ∷ []) (omega arith)

  -- Forgetting before an entry and after it is forgetting after it.
  pub newest-newest-concat :
      (xs : List A) (e : A) → newest 20 (newest 20 xs ++ e ∷ []) ≡ newest 20 (xs ++ e ∷ [])
  newest-newest-concat xs e =
      newest-concat (newest 20 xs) e
      ∙ ap (λ l. l ++ e ∷ [])
          (drop-drop _ (length xs - 20) xs
            ∙ ap (λ k. drop k xs) (omega (arith, length-drop (length xs - 20) xs)))
      ∙ sym (newest-concat xs e)

map-drop : {A B : Type 0} (f : A → B) (n : ℕ) (xs : List A) → map f (drop n xs) ≡ drop n (map f xs)
map-drop f zero xs = refl
map-drop f (suc n) [] = refl
map-drop f (suc n) (x ∷ xs) = map-drop f n xs

length-map : {A B : Type 0} (f : A → B) (xs : List A) → length (map f xs) ≡ length xs
length-map f [] = refl
length-map f (x ∷ xs) = ap suc (length-map f xs)

pub map-newest :
    {A B : Type 0} (f : A → B) (xs : List A) → map f (newest 20 xs) ≡ newest 20 (map f xs)
map-newest f xs =
    map-drop f (length xs - 20) xs ∙ ap (λ k. drop (k - 20) (map f xs)) (sym (length-map f xs))
