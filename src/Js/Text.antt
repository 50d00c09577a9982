-- ===== src/Js/Text.antt =====
-- Texts as lists of UTF-16 code units: `parseInt`, and the decimal digits of a number.
pub mod Decimal
mod Tests
use Prim.Native.Char.{code}
use Prim.Native.String
use Prim.Native.String.{String}
use kubernetes_up_running.Base.{
  ℕ, zero, suc, ◌+◌, ◌-◌, ◌*◌, ◌/◌, ◌%◌, List, [], ◌∷◌, ◌++◌, Option, some, none, Bool, true, false,
  ◌&&◌, ◌||◌, ◌≡◌, refl, arith, ltb, leb, ◌==◌, if◌then◌else◌,
}
use kubernetes_up_running.Js.Number.{Number, nan, of_ℕ, of_neg}

abbrev pub Text : Type 0
Text = List ℕ

-- The code units of a quoted text in the Basic Multilingual Plane.
abbrev pub codes : String → Text
codes String.[] = []
codes (String.◌∷◌ c s) = code c ∷ codes s

-- WhiteSpace and LineTerminator
unfoldable pub is_space : ℕ → Bool
is_space c =
    (leb 9 c && leb c 13)
    || c == 32
    || c == 160
    || c == 0x1680
    || (leb 0x2000 c && leb c 0x200a)
    || c == 0x2028
    || c == 0x2029
    || c == 0x202f
    || c == 0x205f
    || c == 0x3000
    || c == 0xfeff

unfoldable pub trim_start : Text → Text
trim_start [] = []
trim_start (c ∷ s) = if is_space c then trim_start s else c ∷ s

-- The value of a digit or letter, below 36.
unfoldable pub digit_value : ℕ → Option ℕ
digit_value c =
    if leb b'0' c && leb c b'9'
    then some (c - b'0')
    else if leb b'a' c && leb c b'z'
    then some (c - b'a' + 10)
    else if leb b'A' c && leb c b'Z'
    then some (c - b'A' + 10)
    else none

abbrev keep_digit : ℕ → Option ℕ → List ℕ → List ℕ
keep_digit radix none rest = []
keep_digit radix (some d) rest = if ltb d radix then d ∷ rest else []

-- The values of the longest prefix of digits.
unfoldable pub leading_digits : ℕ → Text → List ℕ
leading_digits radix [] = []
leading_digits radix (c ∷ s) = keep_digit radix (digit_value c) (leading_digits radix s)

unfoldable pub value_from : ℕ → ℕ → List ℕ → ℕ
value_from radix acc [] = acc
value_from radix acc (d ∷ ds) = value_from radix (acc * radix + d) ds

abbrev pub magnitude : (ℕ → Number) → ℕ → List ℕ → Number
magnitude sign radix [] = nan
magnitude sign radix (d ∷ ds) = sign (value_from radix 0 (d ∷ ds))

-- "0x" or "0X" in front selects radix 16.
unfoldable pub parse_unsigned : (ℕ → Number) → Text → Number
parse_unsigned sign [] = nan
parse_unsigned sign (c ∷ []) = magnitude sign 10 (leading_digits 10 (c ∷ []))
parse_unsigned sign (c ∷ x ∷ s) =
    if c == b'0' && (x == b'x' || x == b'X')
    then magnitude sign 16 (leading_digits 16 s)
    else magnitude sign 10 (leading_digits 10 (c ∷ x ∷ s))

unfoldable pub parse_signed : Text → Number
parse_signed [] = nan
parse_signed (c ∷ s) =
    if c == b'-'
    then parse_unsigned of_neg s
    else if c == b'+'
    then parse_unsigned of_ℕ s
    else parse_unsigned of_ℕ (c ∷ s)

-- `parseInt(s)`, with no radix given.
unfoldable pub parse_int : Text → Number
parse_int s = parse_signed (trim_start s)

unfoldable pub decimal_digits : ℕ → ℕ → List ℕ
decimal_digits zero n = []
decimal_digits (suc fuel) n =
    let rest = decimal_digits fuel (n / 10) in if ltb n 10 then n ∷ [] else rest ++ n % 10 ∷ []

abbrev pub digit_codes : List ℕ → Text
digit_codes [] = []
digit_codes (d ∷ ds) = (b'0' + d) ∷ digit_codes ds

-- `'' + n` for an integer below 10 ^ 21, which is what JavaScript prints in decimal digits.
unfoldable pub to_decimal : ℕ → Text
to_decimal n = digit_codes (decimal_digits 21 n)

-- What a run of these functions on a given text unfolds.
unfoldable pub texts : Unit {0}
unfolding is_space trim_start digit_value leading_digits value_from parse_unsigned parse_signed
    parse_int of_ℕ of_neg decimal_digits to_decimal
texts = tt

-- `===` on texts
unfoldable pub text_eq : Text → Text → Bool
text_eq [] [] = true
text_eq (c ∷ s) (d ∷ t) = c == d && text_eq s t
text_eq _ _ = false

pub text_eq_refl : (s : Text) → text_eq s s ≡ true
unfolding text_eq
text_eq_refl [] = refl
text_eq_refl (c ∷ s) = ground (arith, text_eq_refl s)

pub text_eq→eq : (s t : Text) → text_eq s t ≡ true → s ≡ t
unfolding text_eq
text_eq→eq [] [] h = refl
text_eq→eq (c ∷ s) (d ∷ t) h = ground (arith, text_eq→eq s t)
text_eq→eq [] (d ∷ t) h = cc
text_eq→eq (c ∷ s) [] h = cc
