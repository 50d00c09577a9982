-- ===== src/Server/Maps.antt =====
-- Go maps from texts to texts, as lists of entries with different keys.
use kubernetes_up_running.Base.{
  Option, some, none, ◌≡◌, refl, sym, ap, ◌∙◌, inl, inr, ◌↔◌, true, false, List, [], ◌∷◌, arith,
  ◌∈◌, All, if◌then◌else◌, Bool-cases,
}
use kubernetes_up_running.Js.Text.{Text, text_eq, text_eq_refl, text_eq→eq}

abbrev pub Map : Type 0
Map = List (Text × Text)

-- `m[k] = v`
unfoldable pub put : Text → Text → Map → Map
put k v [] = (k, v) ∷ []
put k v ((key, value) ∷ m) =
    let rest = put k v m in if text_eq key k then (key, v) ∷ m else (key, value) ∷ rest

unfoldable pub lookup : Text → Map → Option Text
lookup k [] = none
lookup k ((key, value) ∷ m) = let rest = lookup k m in if text_eq key k then some value else rest

abbrev Absent : Text → Map → Type 0
Absent k = All (λ e. text_eq e.0 k ≡ false)

-- No key comes twice.
abbrev pub IsMap : Map → Type 0
IsMap [] = Unit
IsMap ((key, value) ∷ m) = Absent key m × IsMap m

text_eq_sym : (s t : Text) → text_eq s t ≡ text_eq t s
unfolding text_eq
text_eq_sym [] [] = refl
text_eq_sym [] (d ∷ t) = refl
text_eq_sym (c ∷ s) [] = refl
text_eq_sym (c ∷ s) (d ∷ t) = ground (arith, text_eq_sym s t)

put-Absent : (k v j : Text) (m : Map) → text_eq k j ≡ false → Absent j m → Absent j (put k v m)
unfolding put
put-Absent k v j [] n h = (n, tt)
put-Absent k v j ((key, value) ∷ m) n h = elim (Bool-cases (text_eq key k)) [
  | inl e ↦ rw (put, e) h
  | inr e ↦ rw (put, e) (h.0, put-Absent k v j m n h.1)
]

pub put-IsMap : (k v : Text) (m : Map) → IsMap m → IsMap (put k v m)
unfolding put
put-IsMap k v [] h = (tt, tt)
put-IsMap k v ((key, value) ∷ m) h = elim (Bool-cases (text_eq key k)) [
  | inl e ↦ rw (put, e) h
  | inr e ↦ rw (put, e) (put-Absent k v key m (text_eq_sym k key ∙ e) h.0, put-IsMap k v m h.1)
]

text_eq_other :
    (key k j : Text) → text_eq key k ≡ false → text_eq key j ≡ true → text_eq k j ≡ false
text_eq_other key k j e t = ap (text_eq k) (sym (text_eq→eq key j t)) ∙ text_eq_sym k key ∙ e

pub lookup-put :
    (j k v : Text) (m : Map) → lookup j (put k v m) ≡ (if text_eq k j then some v else lookup j m)
unfolding put lookup
lookup-put j k v [] = refl
lookup-put j k v ((key, value) ∷ m) = elim (Bool-cases (text_eq key k)) [
  | inl e ↦ rw (put, e) (ground (arith, ap (λ t. text_eq t j) (text_eq→eq key k e)))
  | inr e ↦ rw (put, e) (ground (arith, text_eq_other key k j e, lookup-put j k v m))
]

All-∈ : (k : Text) (a : Text × Text) (m : Map) → Absent k m → a ∈ m → text_eq a.0 k ≡ false
All-∈ k a [] h i = absurd i
All-∈ k a (e ∷ m) h (inl p) = ap (λ t. text_eq t.0 k) p ∙ h.0
All-∈ k a (e ∷ m) h (inr i) = All-∈ k a m h.1 i

lookup_here :
    (k key value : Text) (m : Map) → text_eq key k ≡ true → lookup k ((key, value) ∷ m) ≡ some value
unfolding lookup
lookup_here k key value m e = rw (lookup, e) refl

lookup_there :
    (k key value : Text) (m : Map)
    → text_eq key k ≡ false
    → lookup k ((key, value) ∷ m) ≡ lookup k m
unfolding lookup
lookup_there k key value m e = rw (lookup, e) refl

-- The entries of a map are what a lookup finds.
pub ∈-lookup_iff : (k v : Text) (m : Map) → IsMap m → ((k, v) ∈ m) ↔ (lookup k m ≡ some v)
∈-lookup_iff k v [] h = unfold lookup in ground arith
∈-lookup_iff k v ((key, value) ∷ m) h = elim (Bool-cases (text_eq key k)) [
  | inl e ↦
      let here = lookup_here k key value m e in
      let same = text_eq→eq key k e in
      (
        λ i. elim i [
          | inl p ↦ here ∙ ap (λ t. some t.1) (sym p)
          | inr r ↦ let clash = text_eq_sym key k ∙ All-∈ key (k, v) m h.0 r in cc
        ],
        λ p. let found : some value ≡ some v = sym here ∙ p in inl (cc),
      )
  | inr e ↦
      let there = lookup_there k key value m e in
      (
        λ i. elim i [
          | inl p ↦ let clash = ap (λ t. text_eq t.0 k) p in let self = text_eq_refl k in cc
          | inr r ↦ there ∙ (∈-lookup_iff k v m h.1).0 r
        ],
        λ p. inr ((∈-lookup_iff k v m h.1).1 (sym there ∙ p)),
      )
]
