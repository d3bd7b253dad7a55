-- ===== src/Certification/Laws.antt =====
-- What the verification and the comparison of certifications answer, on every standard.
use sustainable_fashion_chai.Prelude.{
  Bool, String, ◌≡◌, ◌↔◌, ◌⊎◌, refl, true, false, Option, none, some, List, [], ◌∷◌, arith, ◌==◌,
  eq_iff, inl, inr, Bool-cases, any, if◌then◌else◌,
}
use sustainable_fashion_chai.Number.{Number, whole}
use sustainable_fashion_chai.Json.{
  str, truthy, is_inherited, Value, num, Fields, get, is_text, is_true, or_else,
}
use sustainable_fashion_chai.Json.Compare.{at_least_value}
use sustainable_fashion_chai.Fabric.{Error, type_error, ok, err}
use sustainable_fashion_chai.Certification.{
  returned, Entry, entry_of, not_found, testing_levels, verify_gots, verify_fair_trade,
  verify_oeko_tex, verify_recycled_claim, verify_bci, verify_certification, is_verified,
}

module _ (number_of : String → Option Number) where
  -- `v || 0` is at least `n`.
  abbrev AtLeast : Value → Number → Type 0
  AtLeast v n = at_least_value number_of (or_else v (num (whole 0))) n ≡ true

  -- What each standard asks of a product, by its name.
  abbrev pub Meets : String → Fields → Type 0
  Meets standard_type p =
      ((standard_type ≡ "GOTS")
        × AtLeast (get "organicContent" p) (whole 70)
        × (is_true (get "environmentalCompliance" p) ≡ true))
      ⊎ ((standard_type ≡ "FAIR_TRADE")
          × AtLeast (get "premiumPercentage" p) (whole 10)
          × (is_true (get "safeWorkingConditions" p) ≡ true))
      ⊎ ((standard_type ≡ "OEKO_TEX")
          × (is_text "PASS" (get "chemicalTestResult" p) ≡ true)
          × (any (λ level. is_text level (get "productClass" p)) testing_levels ≡ true))
      ⊎ ((standard_type ≡ "RECYCLED_CLAIM")
          × AtLeast (get "recycledContent" p) (whole 50)
          × (is_true (get "chainOfCustodyVerified" p) ≡ true))
      ⊎ ((standard_type ≡ "BCI")
          × (at_least_value number_of (get "waterEfficiency" p) (whole 70) ≡ true)
          × (is_true (get "soilHealthPractices" p) ≡ true)
          × AtLeast (get "standardScore" p) (whole 60))
      ⊎ ((standard_type ≡ "constructor") × (truthy (get "verified" p) ≡ true))

  abbrev Iff : String → Fields → Type 0
  Iff standard_type p =
      (is_verified (verify_certification number_of standard_type p) ≡ true) ↔ Meets standard_type p

  apart : (s t : String) → (s == t) ≡ false → s ≡ t → ⊥
  apart s t h e = cc ((eq_iff s t).1 e, h)

  Iff-gots : (p : Fields) → Iff "GOTS" p
  unfolding verify_certification verify_gots
  Iff-gots p = ground (
    arith,
    apart "GOTS" "FAIR_TRADE" refl,
    apart "GOTS" "OEKO_TEX" refl,
    apart "GOTS" "RECYCLED_CLAIM" refl,
    apart "GOTS" "BCI" refl,
    apart "GOTS" "constructor" refl,
  )

  Iff-fair_trade : (p : Fields) → Iff "FAIR_TRADE" p
  unfolding verify_certification verify_fair_trade
  Iff-fair_trade p = ground (
    arith,
    apart "FAIR_TRADE" "GOTS" refl,
    apart "FAIR_TRADE" "OEKO_TEX" refl,
    apart "FAIR_TRADE" "RECYCLED_CLAIM" refl,
    apart "FAIR_TRADE" "BCI" refl,
    apart "FAIR_TRADE" "constructor" refl,
  )

  Iff-oeko_tex : (p : Fields) → Iff "OEKO_TEX" p
  unfolding verify_certification verify_oeko_tex
  Iff-oeko_tex p = ground (
    arith,
    apart "OEKO_TEX" "GOTS" refl,
    apart "OEKO_TEX" "FAIR_TRADE" refl,
    apart "OEKO_TEX" "RECYCLED_CLAIM" refl,
    apart "OEKO_TEX" "BCI" refl,
    apart "OEKO_TEX" "constructor" refl,
  )

  Iff-recycled_claim : (p : Fields) → Iff "RECYCLED_CLAIM" p
  unfolding verify_certification verify_recycled_claim
  Iff-recycled_claim p = ground (
    arith,
    apart "RECYCLED_CLAIM" "GOTS" refl,
    apart "RECYCLED_CLAIM" "FAIR_TRADE" refl,
    apart "RECYCLED_CLAIM" "OEKO_TEX" refl,
    apart "RECYCLED_CLAIM" "BCI" refl,
    apart "RECYCLED_CLAIM" "constructor" refl,
  )

  Iff-bci : (p : Fields) → Iff "BCI" p
  unfolding verify_certification verify_bci
  Iff-bci p = ground (
    arith,
    apart "BCI" "GOTS" refl,
    apart "BCI" "FAIR_TRADE" refl,
    apart "BCI" "OEKO_TEX" refl,
    apart "BCI" "RECYCLED_CLAIM" refl,
    apart "BCI" "constructor" refl,
  )

  Iff-constructor : (p : Fields) → Iff "constructor" p
  unfolding verify_certification is_inherited
  Iff-constructor p = ground (
    arith,
    apart "constructor" "GOTS" refl,
    apart "constructor" "FAIR_TRADE" refl,
    apart "constructor" "OEKO_TEX" refl,
    apart "constructor" "RECYCLED_CLAIM" refl,
    apart "constructor" "BCI" refl,
  )

  -- Of the inherited names, only `constructor` leads to something verified.
  unverified :
      (t : String) (p : Fields) (b c : Bool)
      → is_verified (
          if b
          then (if c then ok (returned (str "[object Undefined]")) else err type_error)
          else err (not_found t))
        ≡ false
  unverified t p true true = refl
  unverified t p true false = refl
  unverified t p false c = refl

  Iff-unknown :
      (t : String) (p : Fields)
      → (t == "GOTS") ≡ false
      → (t == "FAIR_TRADE") ≡ false
      → (t == "OEKO_TEX") ≡ false
      → (t == "RECYCLED_CLAIM") ≡ false
      → (t == "BCI") ≡ false
      → (t == "constructor") ≡ false
      → Iff t p
  unfolding verify_certification
  Iff-unknown t p a b c d e f =
      rw (a, b, c, d, e, f)
        (ground (
          arith,
          unverified t p (is_inherited t) (t == "toString"),
          apart t "GOTS" a,
          apart t "FAIR_TRADE" b,
          apart t "OEKO_TEX" c,
          apart t "RECYCLED_CLAIM" d,
          apart t "BCI" e,
          apart t "constructor" f,
        ))

  -- The outcome of verifyCertification is verified exactly when the name is that of one of the five
  -- standards and the product meets every criterion of that standard, or when the name is
  -- `constructor`, which every object inherits, and the product's own `verified` is truthy.
  pub verify_certification_iff :
      (standard_type : String) (p : Fields)
      → (is_verified (verify_certification number_of standard_type p) ≡ true)
        ↔ Meets standard_type p
  verify_certification_iff t p = elim (Bool-cases (t == "GOTS")) [
    | inl same ↦ rw ((eq_iff t "GOTS").0 same) (Iff-gots p)
    | inr a ↦ elim (Bool-cases (t == "FAIR_TRADE")) [
      | inl same ↦ rw ((eq_iff t "FAIR_TRADE").0 same) (Iff-fair_trade p)
      | inr b ↦ elim (Bool-cases (t == "OEKO_TEX")) [
        | inl same ↦ rw ((eq_iff t "OEKO_TEX").0 same) (Iff-oeko_tex p)
        | inr c ↦ elim (Bool-cases (t == "RECYCLED_CLAIM")) [
          | inl same ↦ rw ((eq_iff t "RECYCLED_CLAIM").0 same) (Iff-recycled_claim p)
          | inr d ↦ elim (Bool-cases (t == "BCI")) [
            | inl same ↦ rw ((eq_iff t "BCI").0 same) (Iff-bci p)
            | inr e ↦ elim (Bool-cases (t == "constructor")) [
              | inl same ↦ rw ((eq_iff t "constructor").0 same) (Iff-constructor p)
              | inr f ↦ Iff-unknown t p a b c d e f
            ]
          ]
        ]
      ]
    ]
  ]

-- The own property under a name.
pub lookup : String → List (String × Entry) → Option Entry
lookup k [] = none
lookup k ((j, v) ∷ rs) = let rest = lookup k rs in if j == k then some v else rest

-- Results have no own property of this name.
abbrev Own : List (String × Entry) → Type 0
Own rs = lookup "__proto__" rs ≡ none

module _ (number_of : String → Option Number) (describe : Error → String) (p : Fields) where
  abbrev entry : String → Entry
  entry k = entry_of number_of describe (verify_certification number_of k p)
