-- ===== src/Floats/Sample.antt =====
-- A concrete arithmetic with the law of the interface, on whole numbers, for the witnesses.
use kubernetes_up_running.Base.{◌≡◌, refl, true}
use kubernetes_up_running.Base.Int.{pos, ◌+ℤ◌}
use kubernetes_up_running.Js.Number.{Number, nan, int, is_nan}
use kubernetes_up_running.Js.Number as Numbers
use kubernetes_up_running.Js.Text.{codes, parse_int, texts}
use kubernetes_up_running.Floats.{Floats}

abbrev pub plus : Number → Number → Number
plus (int a) (int b) = int (a +ℤ b)
plus _ _ = nan

abbrev pub times : Number → Number → Number
times a (int (pos k)) = Numbers.times a k
times _ _ = nan

pub undefined_is_nan : is_nan (parse_int (codes "undefined")) ≡ true
unfolding texts
undefined_is_nan = refl

abbrev pub sample : Floats
sample = record {
  Float = Number;
  of_ℕ = λ n. int (pos n);
  plus = plus;
  times = times;
  sqrt = λ x. x;
  sin = λ x. x;
  random = λ i. int (pos i);
  is_nan = is_nan;
  parse_float = parse_int;
  to_text = λ x. codes "number";
  parse_float_undefined = undefined_is_nan;
}
