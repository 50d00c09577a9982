-- ===== src/Js/Object.antt =====
-- The order of the properties of an object: the keys that are array indices in ascending order, then
-- the others in the order of their creation. An object is the list of its properties as created.
use Prim.Native.Nat.{compare, Ordering}
use kubernetes_up_running.Base.{
  ℕ, Option, some, none, ◌≡◌, ◌⊎◌, ◌↔◌, ◌&&◌, List, [], ◌∷◌, ◌++◌, arith, ltb, ◌∈◌, if◌then◌else◌,
}
use kubernetes_up_running.Base.Int.{pos}
use kubernetes_up_running.Js.Number.{Number, int}
use kubernetes_up_running.Js.Text.{Text, text_eq, parse_int, to_decimal}
use kubernetes_up_running.Js.Sort.{insert, sort}

abbrev index_of_number : Text → Number → Option ℕ
index_of_number key (int (pos n)) =
    if ltb n 4294967295 && text_eq key (to_decimal n) then some n else none
index_of_number key _ = none

-- The array index that a key spells, if it does.
unfoldable pub array_index : Text → Option ℕ
array_index key = index_of_number key (parse_int key)

abbrev pub Entry : Type 0
Entry = Text × Text

abbrev compare_options : Option ℕ → Option ℕ → Ordering
compare_options (some m) (some n) = compare m n
compare_options _ _ = Ordering.eq

abbrev pub compare_index : Entry → Entry → Ordering
compare_index e f = compare_options (array_index e.0) (array_index f.0)

abbrev pub indexed : List Entry → List Entry
indexed [] = []
indexed (e ∷ es) =
    let rest = indexed es in elim (array_index e.0) [ some n ↦ e ∷ rest | none ↦ rest ]

abbrev pub named : List Entry → List Entry
named [] = []
named (e ∷ es) = let rest = named es in elim (array_index e.0) [ some n ↦ rest | none ↦ e ∷ rest ]

-- What `for (let k in object)` goes through.
unfoldable pub for_in : List Entry → List Entry
for_in es = sort compare_index (indexed es) ++ named es

pub ∈-append_iff : {A : Type 0} (a : A) (xs ys : List A) → (a ∈ xs ++ ys) ↔ ((a ∈ xs) ⊎ (a ∈ ys))
∈-append_iff a [] ys = ground arith
∈-append_iff a (x ∷ xs) ys = ground (arith, ∈-append_iff a xs ys)

module _ {A : Type 0} (order : A → A → Ordering) where
  ∈-insert_iff : (a x : A) (ys : List A) → (a ∈ insert order x ys) ↔ ((a ≡ x) ⊎ (a ∈ ys))
  unfolding insert
  ∈-insert_iff a x [] = ground arith
  ∈-insert_iff a x (y ∷ ys) =
      elim (order x y)
        as (λ o.
          (a ∈ elim o [ Ordering.gt ↦ y ∷ insert order x ys | _ ↦ x ∷ y ∷ ys ])
          ↔ ((a ≡ x) ⊎ (a ∈ y ∷ ys))) [
            | Ordering.gt ↦ ground (arith, ∈-insert_iff a x ys)
            | _ ↦ ground arith
          ]

  pub ∈-sort_iff : (a : A) (xs : List A) → (a ∈ sort order xs) ↔ (a ∈ xs)
  unfolding sort
  ∈-sort_iff a [] = ground arith
  ∈-sort_iff a (x ∷ xs) = ground (arith, ∈-insert_iff a x (sort order xs), ∈-sort_iff a xs)

∈-indexed-named : (a : Entry) (es : List Entry) → ((a ∈ indexed es) ⊎ (a ∈ named es)) ↔ (a ∈ es)
∈-indexed-named a [] = ground arith
∈-indexed-named a (e ∷ es) =
    elim (array_index e.0)
      as (λ o.
        ((a ∈ elim o [ some n ↦ e ∷ indexed es | none ↦ indexed es ])
          ⊎ (a ∈ elim o [ some n ↦ named es | none ↦ e ∷ named es ]))
        ↔ (a ∈ e ∷ es)) [
          | some n ↦ ground (arith, ∈-indexed-named a es)
          | none ↦ ground (arith, ∈-indexed-named a es)
        ]

-- The loop goes through each property, whatever the order.
pub ∈-for_in_iff : (a : Entry) (es : List Entry) → (a ∈ for_in es) ↔ (a ∈ es)
unfolding for_in
∈-for_in_iff a es = ground (
  arith,
  ∈-append_iff a (sort compare_index (indexed es)) (named es),
  ∈-sort_iff compare_index a (indexed es),
  ∈-indexed-named a es,
)
