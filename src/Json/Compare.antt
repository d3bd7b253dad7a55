-- ===== src/Json/Compare.antt =====
-- The relational operators of JavaScript between a value and a number. `number_of` reads a text
-- as a number; `none` is NaN, with which every comparison is false. Lists and objects are taken
-- as NaN.
use sustainable_fashion_chai.Prelude.{String, Bool, true, false, Option, none, some}
use sustainable_fashion_chai.Number.{Number, whole, less, at_most}
use sustainable_fashion_chai.Json.{Value, null, bool, num, str}

module _ (number_of : String → Option Number) where
  unfoldable pub to_number : Value → Option Number
  to_number null = some (whole 0)
  to_number (bool true) = some (whole 1)
  to_number (bool false) = some (whole 0)
  to_number (num n) = some n
  to_number (str s) = number_of s
  to_number _ = none

  abbrev holds : (Number → Bool) → Option Number → Bool
  holds test none = false
  holds test (some m) = test m

  -- v < n
  unfoldable pub less_value : Value → Number → Bool
  unfolding to_number
  less_value v n = holds (λ m. less m n) (to_number v)

  -- v > n
  unfoldable pub above_value : Value → Number → Bool
  unfolding to_number
  above_value v n = holds (λ m. less n m) (to_number v)

  -- v >= n
  unfoldable pub at_least_value : Value → Number → Bool
  unfolding to_number
  at_least_value v n = holds (λ m. at_most n m) (to_number v)
