-- ===== src/Server/Memory/Sizes.antt =====
-- Which sizes are allocated.
use kubernetes_up_running.Base.{
  ℕ, suc, ◌+◌, ◌*◌, ◌^◌, ◌≤◌, ◌<◌, ◌≡◌, ◌≢◌, refl, sym, ap, ◌∙◌, ◌-◌, some, none, Bool, true, false,
  ◌||◌, List, [], ◌∷◌, ◌++◌, arith, leb, lt→ltb, le→leb, lt→leb, ◌==◌, le→ltb, if◌then◌else◌,
  Bool-cases, inl, inr, length,
}
use native.Mathlib.Nat.{pow-suc, pow-le-pow_right}
use native.Mathlib.Decide.{dec_lt, dec_le}
use kubernetes_up_running.Base.Int.{ℤ, pos}
use kubernetes_up_running.Js.Text.{Text, value_from, decimal_digits, digit_codes, to_decimal}
use kubernetes_up_running.Js.Text.Decimal.{
  IsDigits, decimal_digits-IsDigits, value_from-decimal_digits, decimal_digits-ne-nil,
}
use kubernetes_up_running.Server.Memory.{
  Outcome, answered, aborted, dead, panics, scan, parse_uint_64, parse_int_64, make, append_leak,
  api_alloc, digit_of, positive_64,
}

le-value_from : (n : ℕ) (ds : List ℕ) → n ≤ value_from 10 n ds
unfolding value_from
le-value_from n [] = omega arith
le-value_from n (d ∷ ds) = omega (arith, le-value_from (n * 10 + d) ds)

-- A value that does not fit 63 bits is read as the largest int64.
positive_64_large :
    (n : ℕ) → 9223372036854775808 ≤ n → positive_64 (some n) ≡ (pos 9223372036854775807, false)
positive_64_large n h = rw (le→ltb n 9223372036854775808 h) refl

-- That the scan stops at an overflow makes no difference to a number in digits.
scan_codes :
    (n : ℕ) (ds : List ℕ)
    → IsDigits ds
    → positive_64 (scan n (digit_codes ds)) ≡ positive_64 (some (value_from 10 n ds))
unfolding scan value_from
scan_codes n [] h = refl
scan_codes n (d ∷ ds) h =
    let digit : digit_of (b'0' + d) ≡ some d = ground (arith, h.0) in
    elim (dec_lt (n * 10 + d) 18446744073709551616) [
      | yes fits ↦
          rw (scan, digit, lt→ltb (n * 10 + d) 18446744073709551616 fits)
            (scan_codes (n * 10 + d) ds h.1)
      | no large ↦
          rw (scan, digit, le→ltb (n * 10 + d) 18446744073709551616 (omega arith))
            (positive_64_large 18446744073709551615 (omega arith)
              ∙ sym (
                  positive_64_large (value_from 10 (n * 10 + d) ds)
                    (omega (arith, le-value_from (n * 10 + d) ds))))
    ]

parse_int_64_digits :
    (ds : List ℕ)
    → ds ≢ []
    → IsDigits ds
    → parse_int_64 (digit_codes ds) ≡ positive_64 (some (value_from 10 0 ds))
unfolding parse_int_64
parse_int_64_digits [] n h = absurd (n refl)
parse_int_64_digits (d ∷ ds) n h =
    let minus : ((b'0' + d) == b'-') ≡ false = ground arith in
    let plus : ((b'0' + d) == b'+') ≡ false = ground arith in
    rw (minus, plus) (scan_codes 0 (d ∷ ds) h)

-- A decimal number is read as it is below 2 ^ 63, and as the largest int64 above.
parse_int_64-to_decimal : (n : ℕ) → n < 10 ^ 21 → parse_int_64 (to_decimal n) ≡ positive_64 (some n)
unfolding to_decimal
parse_int_64-to_decimal n h =
    parse_int_64_digits (decimal_digits 21 n) (decimal_digits-ne-nil 20 n)
      (decimal_digits-IsDigits 21 n)
    ∙ ap (λ k. positive_64 (some k)) (value_from-decimal_digits 21 n h)

digit_codes-ne-nil : (ds : List ℕ) → ds ≢ [] → digit_codes ds ≢ []
digit_codes-ne-nil [] n e = n refl
digit_codes-ne-nil (d ∷ ds) n e = cc

append_cons-ne-nil : (s : Text) (c : ℕ) (t : Text) → s ++ (c ∷ t) ≢ []
append_cons-ne-nil [] c t e = cc
append_cons-ne-nil (d ∷ s) c t e = cc

scan-none :
    (before after : Text) (c n j : ℕ)
    → b'9' < c
    → n < 10 ^ j
    → j + length before ≤ 19
    → scan n (before ++ (c ∷ after)) ≡ none
unfolding scan
scan-none [] after c n j h small short =
    let no_digit : digit_of c ≡ none = ground arith in rw (scan, no_digit) refl
scan-none (b ∷ before) after c n j h small short = elim (dec_le b b'9') [
  | no above ↦ let no_digit : digit_of b ≡ none = ground arith in rw (scan, no_digit) refl
  | yes below ↦ elim (dec_le b'0' b) [
    | no under ↦ let no_digit : digit_of b ≡ none = ground arith in rw (scan, no_digit) refl
    | yes over ↦
        let digit : digit_of b ≡ some (b - b'0') = ground arith in
        let power : 10 ^ suc j ≡ 10 ^ j * 10 = pow-suc 10 j in
        let bound : 10 ^ suc j ≤ 10 ^ 19 =
          pow-le-pow_right {n = 10} (omega arith) {i = suc j} {j = 19} (omega arith) in
        rw (scan, digit, lt→ltb (n * 10 + (b - b'0')) 18446744073709551616 (omega arith))
          (scan-none before after c (n * 10 + (b - b'0')) (suc j) h (omega arith) (omega arith))
  ]
]

parse_uint_64_malformed :
    (before after : Text) (c : ℕ)
    → b'9' < c
    → length before ≤ 19
    → parse_uint_64 (before ++ (c ∷ after)) ≡ none
parse_uint_64_malformed [] after c h short = scan-none [] after c 0 0 h (omega arith) (omega arith)
parse_uint_64_malformed (b ∷ before) after c h short =
    scan-none (b ∷ before) after c 0 0 h (omega arith) (omega arith)

parse_int_64_malformed :
    (before after : Text) (c : ℕ)
    → b'9' < c
    → length before ≤ 19
    → parse_int_64 (before ++ (c ∷ after)) ≡ (pos 0, false)
unfolding parse_int_64
parse_int_64_malformed [] after c h short =
    let minus : (c == b'-') ≡ false = ground arith in
    let plus : (c == b'+') ≡ false = ground arith in
    rw (minus, plus, scan-none [] after c 0 0 h (omega arith) (omega arith)) refl
parse_int_64_malformed (b ∷ before) after c h short = elim (Bool-cases (b == b'-')) [
  | inl minus ↦ rw (minus, parse_uint_64_malformed before after c h (omega arith)) refl
  | inr other ↦ elim (Bool-cases (b == b'+')) [
    | inl plus ↦ rw (other, plus, parse_uint_64_malformed before after c h (omega arith)) refl
    | inr digit ↦ rw (other, digit, parse_uint_64_malformed (b ∷ before) after c h short) refl
  ]
]

module _ (max_alloc : ℕ) (has_room : List ℕ → ℕ → Bool) (leaks : List ℕ) where
  api_alloc_parsed :
      (size : Text) (i : ℤ) (good : Bool)
      → size ≢ []
      → parse_int_64 size ≡ (i, good)
      → api_alloc max_alloc has_room size leaks
        ≡ append_leak max_alloc has_room
            (make max_alloc has_room leaks i)
            leaks
            (if good then 200 else 400)
  unfolding api_alloc
  api_alloc_parsed [] i good n e = absurd (n refl)
  api_alloc_parsed (c ∷ size) i good n e = rw e refl

  -- What a size up to the bound of the allocator gives.
  abbrev pub if_room : ℕ → Outcome
  if_room n = if n == 0 || has_room leaks n then answered (leaks ++ n ∷ []) 200 else dead

  make_within :
      (n : ℕ)
      → n ≤ max_alloc
      → append_leak max_alloc has_room (make max_alloc has_room leaks (pos n)) leaks 200 ≡ if_room n
  unfolding make
  make_within n h = elim (Bool-cases (n == 0 || has_room leaks n)) [
    | inl e ↦ rw (make, le→leb n max_alloc h, e) refl
    | inr e ↦ rw (make, le→leb n max_alloc h, e) refl
  ]

  make_above : (n : ℕ) → max_alloc < n → make max_alloc has_room leaks (pos n) ≡ panics
  unfolding make
  make_above n h = rw (make, lt→leb n max_alloc h) refl

  api_alloc_bounds :
      (n : ℕ)
      → n < 10 ^ 21
      → max_alloc < 9223372036854775807
      → (n ≤ max_alloc → api_alloc max_alloc has_room (to_decimal n) leaks ≡ if_room n)
        × (max_alloc < n → api_alloc max_alloc has_room (to_decimal n) leaks ≡ aborted)
  unfolding to_decimal
  api_alloc_bounds n small bound =
      let nonempty = digit_codes-ne-nil (decimal_digits 21 n) (decimal_digits-ne-nil 20 n) in
      elim (dec_lt n 9223372036854775808) [
        | yes fits ↦
            let read : parse_int_64 (to_decimal n) ≡ (pos n, true) =
              parse_int_64-to_decimal n small ∙ rw (lt→ltb n 9223372036854775808 fits) refl in
            let result = api_alloc_parsed (to_decimal n) (pos n) true nonempty read in
            (
              λ within. result ∙ make_within n within,
              λ above. result ∙ rw (make_above n above) refl,
            )
        | no large ↦
            let read : parse_int_64 (to_decimal n) ≡ (pos 9223372036854775807, false) =
              parse_int_64-to_decimal n small ∙ positive_64_large n (omega arith) in
            let result =
              api_alloc_parsed (to_decimal n) (pos 9223372036854775807) false nonempty read in
            (
              λ within. absurd (omega arith),
              λ above. result ∙ rw (make_above 9223372036854775807 bound) refl,
            )
      ]

  -- A size in decimal digits (below 10 ^ 21, with a bound of the allocator below 2 ^ 63): above the
  -- bound the handler panics, also where the number is too large to be read. Within it the block is
  -- kept and the reply has status 200, if the size is 0 or the system has memory for the block beside
  -- those that are kept, and the process ends if it has not.
  pub api_alloc_decimal :
      (n : ℕ)
      → n < 10 ^ 21
      → max_alloc < 9223372036854775807
      → api_alloc max_alloc has_room (to_decimal n) leaks ≡ (
          if leb n max_alloc
          then (if n == 0 || has_room leaks n then answered (leaks ++ n ∷ []) 200 else dead)
          else aborted)
  api_alloc_decimal n small bound =
      let (within, above) = api_alloc_bounds n small bound in
      elim (dec_le n max_alloc) [
        | yes p ↦ rw (le→leb n max_alloc p) (within p)
        | no p ↦ rw (lt→leb n max_alloc (omega arith)) (above (omega arith))
      ]

  -- A size with a character above the digits in it, and at most 19 characters before that one, is no
  -- number: the reply has status 400, and all the same an empty block is kept.
  pub api_alloc_malformed :
      (before after : Text) (c : ℕ)
      → b'9' < c
      → length before ≤ 19
      → api_alloc max_alloc has_room (before ++ (c ∷ after)) leaks ≡ answered (leaks ++ 0 ∷ []) 400
  unfolding make
  api_alloc_malformed before after c h short =
      api_alloc_parsed (before ++ (c ∷ after)) (pos 0) false (append_cons-ne-nil before c after)
        (parse_int_64_malformed before after c h short)
      ∙ rw (make, le→leb 0 max_alloc (omega arith)) refl
