-- ===== src/Prelude/Int.antt =====
-- Integers, for the values that the bridge reads as BigInt or as a safe integer.
use Prim.Native.Nat.{ℕ, suc, ◌+◌, ◌-◌}
use mathlib.Core.Bool.{Bool}
use sustainable_fashion_chai.Prelude.Tests.{ltb, leb, if◌then◌else◌}

-- `negsuc n` is -(n + 1).
pub data ℤ : Type 0 where
  pos : ℕ → ℤ
  negsuc : ℕ → ℤ

abbrev pub pos_part : ℤ → ℕ
pos_part (pos n) = n
pos_part (negsuc n) = 0

abbrev pub neg_part : ℤ → ℕ
neg_part (pos n) = 0
neg_part (negsuc n) = suc n

-- a < b
abbrev pub less_int : ℤ → ℤ → Bool
less_int a b = ltb (pos_part a + neg_part b) (pos_part b + neg_part a)

-- a - b
abbrev pub minus_int : ℤ → ℤ → ℤ
minus_int a b =
    let x = pos_part a + neg_part b in
    let y = pos_part b + neg_part a in if leb y x then pos (x - y) else negsuc (y - x - 1)
