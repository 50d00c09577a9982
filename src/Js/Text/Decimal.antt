-- ===== src/Js/Text/Decimal.antt =====
-- `parseInt` reads back the decimal digits of a number.
use native.Mathlib.Nat.{pow-suc}
use kubernetes_up_running.Base.{
  ℕ, zero, suc, ◌+◌, ◌*◌, ◌/◌, ◌%◌, ◌^◌, ◌≤◌, ◌<◌, ◌≡◌, ◌≢◌, refl, ◌∙◌, ap, List, [], ◌∷◌, ◌++◌,
  some, false, arith, All, All-concat,
}
use kubernetes_up_running.Base.Int.{pos}
use kubernetes_up_running.Js.Number.{Number, int, of_ℕ, of_ℕ_exact, exact_limit}
use kubernetes_up_running.Js.Text.{
  Text, is_space, trim_start, digit_value, leading_digits, value_from, parse_unsigned, parse_signed,
  parse_int, decimal_digits, digit_codes, to_decimal,
}

value_from-append :
    (acc d : ℕ) (ds : List ℕ) → value_from 10 acc (ds ++ d ∷ []) ≡ value_from 10 acc ds * 10 + d
unfolding value_from
value_from-append acc d [] = refl
value_from-append acc d (e ∷ ds) = value_from-append (acc * 10 + e) d ds

abbrev pub IsDigits : List ℕ → Type 0
IsDigits = All (λ d. d < 10)

pub decimal_digits-IsDigits : (fuel n : ℕ) → IsDigits (decimal_digits fuel n)
unfolding decimal_digits
decimal_digits-IsDigits zero n = tt
decimal_digits-IsDigits (suc fuel) n = ground (
  arith,
  All-concat (λ d. d < 10) (decimal_digits fuel (n / 10)) (n % 10)
      (decimal_digits-IsDigits fuel (n / 10)) (omega arith),
)

pub value_from-decimal_digits :
    (fuel n : ℕ) → n < 10 ^ fuel → value_from 10 0 (decimal_digits fuel n) ≡ n
unfolding decimal_digits value_from
value_from-decimal_digits zero n h = omega arith
value_from-decimal_digits (suc fuel) n h = ground (
  arith,
  pow-suc 10 fuel,
  value_from-decimal_digits fuel (n / 10),
  value_from-append 0 (n % 10) (decimal_digits fuel (n / 10)),
)

digit_value_of_digit : (d : ℕ) → d < 10 → digit_value (b'0' + d) ≡ some d
unfolding digit_value
digit_value_of_digit d h = ground arith

leading_digits_lem : (ds : List ℕ) → IsDigits ds → leading_digits 10 (digit_codes ds) ≡ ds
unfolding leading_digits
leading_digits_lem [] h = refl
leading_digits_lem (d ∷ ds) (small, h) =
    ground (arith, digit_value_of_digit d small, leading_digits_lem ds h)

-- Digits that neither begin with "0x" nor are empty are read in radix 10.
parse_unsigned_lem :
    (sign : ℕ → Number) (d : ℕ) (ds : List ℕ)
    → IsDigits (d ∷ ds)
    → parse_unsigned sign (digit_codes (d ∷ ds)) ≡ sign (value_from 10 0 (d ∷ ds))
unfolding parse_unsigned
parse_unsigned_lem sign d [] h = rw (leading_digits_lem (d ∷ []) h)
parse_unsigned_lem sign d (e ∷ ds) h = ground (arith, leading_digits_lem (d ∷ e ∷ ds) h)

is_space_digit : (d : ℕ) → d < 10 → is_space (b'0' + d) ≡ false
unfolding is_space
is_space_digit d h = ground arith

parse_signed_digit :
    (d : ℕ) (s : Text)
    → d < 10
    → parse_signed ((b'0' + d) ∷ s) ≡ parse_unsigned of_ℕ ((b'0' + d) ∷ s)
unfolding parse_signed
parse_signed_digit d s h = ground arith

parse_int_digits :
    (ds : List ℕ) → ds ≢ [] → IsDigits ds → parse_int (digit_codes ds) ≡ of_ℕ (value_from 10 0 ds)
unfolding parse_int trim_start
parse_int_digits [] n h = absurd (n refl)
parse_int_digits (d ∷ ds) n h =
    rw (is_space_digit d h.0) (parse_signed_digit d (digit_codes ds) h.0)
    ∙ parse_unsigned_lem of_ℕ d ds h

append-ne-nil : (xs : List ℕ) (x : ℕ) → xs ++ x ∷ [] ≢ []
append-ne-nil [] x = cc
append-ne-nil (y ∷ xs) x = cc

pub decimal_digits-ne-nil : (fuel n : ℕ) → decimal_digits (suc fuel) n ≢ []
unfolding decimal_digits
decimal_digits-ne-nil fuel n = ground (arith, append-ne-nil (decimal_digits fuel (n / 10)) (n % 10))

-- Printing an exact integer in decimal and parsing the text gives the integer back.
pub parse_int-to_decimal : (n : ℕ) → n ≤ exact_limit → parse_int (to_decimal n) ≡ int (pos n)
unfolding to_decimal
parse_int-to_decimal n h =
    parse_int_digits (decimal_digits 21 n) (decimal_digits-ne-nil 20 n)
      (decimal_digits-IsDigits 21 n)
    ∙ ap of_ℕ (value_from-decimal_digits 21 n (omega arith))
    ∙ of_ℕ_exact n h
