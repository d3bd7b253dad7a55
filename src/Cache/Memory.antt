-- ===== src/Cache/Memory.antt =====
-- A Redis server in memory that always works: the newest value of a key comes first. A pattern ends
-- in a star.
use sustainable_fashion_chai.Prelude.{
  ℕ, String, ◌≡◌, refl, sym, ap, ◌∙◌, Bool, false, ◌||◌, ◌&&◌, Option, none, some, List, [], ◌∷◌,
  ◌==◌, any, codes, eq_iff, arith, nat_eq, if◌then◌else◌, Table,
}
use sustainable_fashion_chai.Fabric.{Result, ok, err}
use sustainable_fashion_chai.Cache.{Redis}

abbrev find : Table String → String → Option String
find [] j = none
find ((k, v) ∷ m) j = let rest = find m j in if k == j then some v else rest

-- Without the keys that the test takes.
abbrev remove : (String → Bool) → Table String → Table String
remove p [] = []
remove p ((k, v) ∷ m) = let rest = remove p m in if p k then rest else (k, v) ∷ rest

abbrev starts : List ℕ → List ℕ → Bool
starts [] cs = false
starts (p ∷ ps) [] = nat_eq p b'*'
starts (p ∷ ps) (c ∷ cs) = let rest = starts ps cs in nat_eq p b'*' || nat_eq p c && rest

abbrev matches : String → String → Bool
matches p k = starts (codes p) (codes k)

abbrev select : (String → Bool) → Table String → List String
select p [] = []
select p ((k, v) ∷ m) = let rest = select p m in if p k then k ∷ rest else rest

pub the_same : {A : Type 0} {a b : A} → ◌≡◌ {A = Result A} (ok a) (ok b) → a ≡ b
the_same {a = a} e = ap (λ r. elim r [ ok x ↦ x | err x ↦ a ]) e

pub find-remove :
    (p : String → Bool) (m : Table String) (j : String)
    → find (remove p m) j ≡ (if p j then none else find m j)
find-remove p [] j = ground arith
find-remove p ((k, v) ∷ m) j = ground (arith, find-remove p m j, eq_iff k j, alike)
  where
    alike : k ≡ j → p k ≡ p j
    alike e = ap p e

any-select-none :
    (p : String → Bool) (m : Table String) (j : String)
    → p j ≡ false
    → any (λ k. k == j) (select p m) ≡ false
any-select-none p [] j h = refl
any-select-none p ((k, v) ∷ m) j h = ground (arith, any-select-none p m j h, h, eq_iff k j, alike)
  where
    alike : k ≡ j → p k ≡ p j
    alike e = ap p e

pub any-select :
    (p : String → Bool) (m : Table String) (j v : String)
    → find m j ≡ some v
    → any (λ k. k == j) (select p m) ≡ p j
any-select p [] j v e = cc
any-select p ((k, u) ∷ m) j v e =
    ground (arith, e, any-select p m j v, any-select-none p m j, eq_iff k j, alike)
  where
    alike : k ≡ j → p k ≡ p j
    alike h = ap p h

abbrev pub memory : Redis
memory = record {
  State = Table String;
  value_at = find;
  matches = matches;
  get = λ k m. ok (find m k);
  set = λ k v ttl m. ok ((k, v) ∷ m);
  del = λ ks m. ok (remove (λ k. any (λ i. i == k) ks) m);
  keys = λ p m. ok (select (matches p) m);
  flushall = λ m. ok [];
  get-value = λ k s o e. sym (the_same e);
  set-value = λ k v ttl s t j e. ap (λ m. find m j) (sym (the_same e));
  del-value = λ ks s t j e.
      ap (λ m. find m j) (sym (the_same e)) ∙ find-remove (λ k. any (λ i. i == k) ks) s j;
  keys-value = λ p s ks j v e held.
      ap (λ l. any (λ k. k == j) l) (sym (the_same e)) ∙ any-select (matches p) s j v held;
  flushall-value = λ s t j e. ap (λ m. find m j) (sym (the_same e));
}
