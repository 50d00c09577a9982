-- ===== src/Floats.antt =====
-- The doubles that are not whole numbers, with the operations on them that the programs call. They
-- are a parameter: the theorems hold for any arithmetic with these laws.
pub mod Sample
use kubernetes_up_running.Base.{ℕ, ◌≡◌, Bool, true}
use kubernetes_up_running.Js.Text.{Text, codes}

pub record Floats : Type 1 where
  pub Float : Type 0
  pub of_ℕ : ℕ → Float
  pub plus : Float → Float → Float
  pub times : Float → Float → Float
  pub sqrt : Float → Float
  pub sin : Float → Float
  -- the value of the i-th call of `Math.random`
  pub random : ℕ → Float
  pub is_nan : Float → Bool
  pub parse_float : Text → Float
  pub to_text : Float → Text
  -- `parseFloat(undefined)` parses the text "undefined", which begins with no number.
  pub parse_float_undefined : is_nan (parse_float (codes "undefined")) ≡ true
