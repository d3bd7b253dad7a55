-- ===== src/Prelude/Tables.antt =====
-- Objects used as maps from texts.
use mathlib.Core.Path.{◌≡◌, refl}
use mathlib.Core.Bool.{false}
use mathlib.Core.List.{List, [], ◌∷◌}
use Prim.Native.String.{String}
use native.Mathlib.Omega.{arith}
use text.Mathlib.Text.{◌==◌}
use text.Mathlib.TextEquality.{eq_iff}
use sustainable_fashion_chai.Prelude.Tests.{if◌then◌else◌}

-- An object used as a map from texts.
abbrev pub Table : Type 0 → Type 0
Table A = List (String × A)

-- m[k], or `initial` where there is none.
unfoldable pub entry : {A : Type 0} → A → String → Table A → A
entry initial k [] = initial
entry initial k ((j, a) ∷ m) = let rest = entry initial k m in if j == k then a else rest

-- m[k] = f(m[k] || initial)
unfoldable pub update : {A : Type 0} → A → (A → A) → String → Table A → Table A
update initial f k [] = (k, f initial) ∷ []
update initial f k ((j, a) ∷ m) =
    let rest = update initial f k m in if j == k then (j, f a) ∷ m else (j, a) ∷ rest

pub entry-update :
    {A : Type 0} (initial : A) (f : A → A) (k j : String) (m : Table A)
    → entry initial j (update initial f k m)
      ≡ (if k == j then f (entry initial j m) else entry initial j m)
unfolding entry update
entry-update initial f k j [] = refl
entry-update initial f k j ((i, a) ∷ m) =
    ground (arith, eq_iff k j, eq_iff i k, eq_iff i j, entry-update initial f k j m)

pub entry-update_other :
    {A : Type 0} (initial other : A) (f : A → A) (k j : String) (m : Table A)
    → (k == j) ≡ false
    → entry other j (update initial f k m) ≡ entry other j m
unfolding entry update
entry-update_other initial other f k j [] h = rw h refl
entry-update_other initial other f k j ((i, a) ∷ m) h =
    ground (arith, h, eq_iff k j, eq_iff i k, eq_iff i j, entry-update_other initial other f k j m)
