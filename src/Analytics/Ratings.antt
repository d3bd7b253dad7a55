-- ===== src/Analytics/Ratings.antt =====
-- The share of sustainable materials, read off a list of them.
use sustainable_fashion_chai.Prelude.{
  not, ◌&&◌, false, leb, ◌*◌, ℕ, ◌≡◌, refl, Bool, List, [], ◌∷◌, arith, count,
}
use sustainable_fashion_chai.Json.{undefined, null, obj, arr, elements, Value, get, truthy}
use sustainable_fashion_chai.Fabric.{ok}
use sustainable_fashion_chai.Analytics.Metrics.{list_of, property, bind_ok}
use sustainable_fashion_chai.Analytics.Batches.{plus_if}
use sustainable_fashion_chai.Analytics.Products.{count_sustainable}

-- A score of at least 80 percent, of at least 50 percent but less than 80, and of less than 50, for
-- `s` sustainable materials of `n`.
abbrev pub is_high : ℕ → ℕ → Bool
is_high s n = leb (4 * n) (5 * s)

abbrev pub is_medium : ℕ → ℕ → Bool
is_medium s n = not (is_high s n) && leb n (2 * s)

abbrev pub is_low : ℕ → ℕ → Bool
is_low s n = not (is_high s n) && not (leb n (2 * s))

abbrev pub is_sustainable : Value → Bool
is_sustainable (obj fs) = truthy (get "sustainable" fs)
is_sustainable _ = false

abbrev pub materials_in : Value → List Value
materials_in (arr vs) = elements vs
materials_in _ = []

pub list_of_lem : (v : Value) (ms : List Value) → list_of v ≡ ok ms → ms ≡ materials_in v
unfolding list_of
list_of_lem (arr vs) ms e = cc e
list_of_lem _ ms e = cc e

pub property_lem : (m v : Value) → property "sustainable" m ≡ ok v → truthy v ≡ is_sustainable m
unfolding property truthy
property_lem undefined v e = cc e
property_lem null v e = cc e
property_lem (obj fs) v e = let same : get "sustainable" fs ≡ v = cc e in rw same refl
property_lem _ v e = let same : undefined ≡ v = cc e in rw (← same) refl

pub count_sustainable_lem :
    (ms : List Value) (n : ℕ) → count_sustainable ms ≡ ok n → n ≡ count is_sustainable ms
unfolding count_sustainable
count_sustainable_lem [] n e = cc e
count_sustainable_lem (m ∷ ms) n e =
    let (v, e1, f) = bind_ok _ _ n e in
    let (k, e2, g) = bind_ok _ _ n f in
    let same : plus_if (truthy v) k ≡ n = cc g in
    ground (arith, same, property_lem m v e1, count_sustainable_lem ms k e2)
