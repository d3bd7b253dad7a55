-- ===== src/Number.antt =====
-- JavaScript's finite numbers. A finite double is a dyadic rational, so a value is exactly
-- (plus - minus) / 2 ^ scale; several triples may stand for one value, and the comparisons below
-- read the value. Parsing, printing and division round, and are parameters of the model.
use sustainable_fashion_chai.Prelude.{ℕ, ◌+◌, ◌*◌, ◌^◌, Bool, not, ltb, nat_eq}

pub record Number : Type 0 where
  pub plus : ℕ
  pub minus : ℕ
  pub scale : ℕ

-- An integer literal of the source.
abbrev pub whole : ℕ → Number
whole n = record { plus = n; minus = 0; scale = 0 }

-- The two sides of a comparison, over one denominator and with no subtraction.
abbrev pub above : Number → Number → ℕ
above a b = a.plus * 2 ^ b.scale + b.minus * 2 ^ a.scale

-- a < b; `a > b` is `less b a`.
unfoldable pub less : Number → Number → Bool
less a b = ltb (above a b) (above b a)

-- a <= b; `a >= b` is `at_most b a`.
unfoldable pub at_most : Number → Number → Bool
unfolding less
at_most a b = not (less b a)

-- a === b
unfoldable pub same : Number → Number → Bool
same a b = nat_eq (above a b) (above b a)

-- a <= 0
abbrev pub not_positive : Number → Bool
not_positive a = at_most a (whole 0)
