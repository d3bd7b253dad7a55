-- ===== src/Analytics/Batches/Sort.antt =====
-- Sorting a table by its keys: it keeps what is read under each key.
use sustainable_fashion_chai.Prelude.{
  Table, entry, ℕ, String, ◌≡◌, refl, true, false, List, [], ◌∷◌, ◌==◌, arith, codes, eq_iff,
  if◌then◌else◌,
}
use sustainable_fashion_chai.Analytics.Batches.{less_codes, insert, sort}

less_codes_irrefl : (cs : List ℕ) → less_codes cs cs ≡ false
unfolding less_codes
less_codes_irrefl [] = refl
less_codes_irrefl (c ∷ cs) = ground (arith, less_codes_irrefl cs)

entry-insert :
    {A : Type 0} (initial a : A) (k i : String) (m : Table A)
    → entry initial i (insert k a m) ≡ (if k == i then a else entry initial i m)
unfolding entry insert
entry-insert initial a k i [] = refl
entry-insert initial a k i ((j, b) ∷ m) = ground (
  arith,
  eq_iff k i,
  eq_iff j i,
  entry-insert initial a k i m,
  less_codes_irrefl (codes j),
  different,
)
  where
    different : less_codes (codes j) (codes k) ≡ true → j ≡ k → ⊥
    different h e = cc (rw e at h, less_codes_irrefl (codes k))

pub entry-sort :
    {A : Type 0} (initial : A) (i : String) (m : Table A)
    → entry initial i (sort m) ≡ entry initial i m
unfolding entry sort
entry-sort initial i [] = refl
entry-sort initial i ((k, a) ∷ m) =
    ground (arith, entry-insert initial a k i (sort m), entry-sort initial i m)
