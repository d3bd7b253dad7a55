-- ===== src/Certification.antt =====
-- fabric/chaincode/supplychain/certificationStandards.js: the standards, the verification of a
-- product's data against each, and the comparison of several. The product's data is an object;
-- `number_of` reads a text as a number where the source compares. `standards` and
-- `verificationMethods` are plain objects, so a name may also be one that they inherit.
pub mod Laws
mod Tests
use sustainable_fashion_chai.Prelude.{
  ℕ, String, Bool, true, false, Option, none, some, List, [], ◌∷◌, ◌==◌, all, any, join, map,
  if◌then◌else◌,
}
use sustainable_fashion_chai.Number.{Number, whole}
use sustainable_fashion_chai.Json.{
  Value, undefined, num, str, arr, obj, truthy, is_inherited, Fields, get, items, is_text, is_true,
  or_else,
}
use sustainable_fashion_chai.Json.Compare.{at_least_value}
use sustainable_fashion_chai.Fabric.{Error, message, type_error, Result, ok, err}

pub record Standard : Type 0 where
  pub name : String
  pub kind : String
  pub required_criteria : List String
  pub validity_period : ℕ

abbrev pub gots : Standard
gots = record {
  name = "Global Organic Textile Standard (GOTS)";
  kind = "Organic";
  required_criteria =
      "Organic Fiber Content" ∷ "Environmental Criteria" ∷ "Social Criteria"
      ∷ "Toxicity Restrictions" ∷ [];
  validity_period = 12;
}

abbrev pub fair_trade : Standard
fair_trade = record {
  name = "Fair Trade Certified";
  kind = "Social";
  required_criteria =
      "Fair Wages" ∷ "Safe Working Conditions" ∷ "No Child Labor" ∷ "Community Development" ∷ [];
  validity_period = 12;
}

abbrev pub oeko_tex : Standard
oeko_tex = record {
  name = "OEKO-TEX Standard 100";
  kind = "Chemical Safety";
  required_criteria =
      "Human Ecological Safety" ∷ "Chemical Testing" ∷ "Prohibited Substances" ∷ "Limit Values"
      ∷ [];
  validity_period = 12;
}

abbrev pub testing_levels : List String
testing_levels =
    "Product Class I" ∷ "Product Class II" ∷ "Product Class III" ∷ "Product Class IV" ∷ []

abbrev pub recycled_claim : Standard
recycled_claim = record {
  name = "Recycled Claim Standard (RCS)";
  kind = "Recycling";
  required_criteria = "Chain of Custody" ∷ "Traceability" ∷ "Recycled Material Verification" ∷ [];
  validity_period = 12;
}

abbrev pub bci : Standard
bci = record {
  name = "Better Cotton Initiative";
  kind = "Sustainable Agriculture";
  required_criteria = "Water Management" ∷ "Soil Health" ∷ "Crop Protection" ∷ "Decent Work" ∷ [];
  validity_period = 12;
}

-- minimumOrganicContent, minimumPremiumPercentage, minimumRecycledContent, minimumStandardScore
abbrev pub minimum_organic_content : Number
minimum_organic_content = whole 70

abbrev pub minimum_premium_percentage : Number
minimum_premium_percentage = whole 10

abbrev pub minimum_recycled_content : Number
minimum_recycled_content = whole 50

abbrev pub minimum_standard_score : Number
minimum_standard_score = whole 60

-- An entry of `criteria`; `required` and `actual` are undefined where the source leaves them out.
pub record Criterion : Type 0 where
  pub key : String
  pub required : Value
  pub actual : Value
  pub passed : Bool

pub record Verification : Type 0 where
  pub standard : String
  pub verified : Bool
  pub criteria : List Criterion

abbrev plain : String → Bool → Criterion
plain key passed = record { key = key; required = undefined; actual = undefined; passed = passed }

-- Object.values(result.criteria).every(criterion => criterion.passed)
abbrev pub conclude : Standard → List Criterion → Verification
conclude standard criteria = record {
  standard = standard.name;
  verified = all (λ c. c.passed) criteria;
  criteria = criteria;
}

abbrev pub not_found : String → Error
not_found standard_type =
    message (join ("Certification standard " ∷ standard_type ∷ " not found" ∷ []))

-- What verifyCertification returns: a verification, or what an inherited function returns.
pub data Outcome : Type 0 where
  checked : Verification → Outcome
  returned : Value → Outcome

-- outcome.verified, as a test; an error has none.
abbrev pub is_verified : Result Outcome → Bool
is_verified (ok (checked v)) = v.verified
is_verified (ok (returned (obj fs))) = truthy (get "verified" fs)
is_verified (ok (returned _)) = false
is_verified (err e) = false

-- An inherited method, called as a function on the product's data: Object answers its argument,
-- toString has no object to print, the other methods refuse, and `__proto__` is no function.
unfoldable pub call_inherited : String → Fields → Result Outcome
call_inherited standard_type product =
    if standard_type == "constructor"
    then ok (returned (obj product))
    else if standard_type == "toString"
    then ok (returned (str "[object Undefined]"))
    else err type_error

-- An entry of compareCertifications: what was returned, or { error, verified: false }.
pub data Entry : Type 0 where
  answered : Outcome → Entry
  failed : (error : String) → Entry

-- results[k] = v, for the own properties of the results: `__proto__` is none.
unfoldable pub record_result : String → Entry → List (String × Entry) → List (String × Entry)
record_result k v [] = if k == "__proto__" then [] else (k, v) ∷ []
record_result k v ((j, u) ∷ rs) =
    let rest = record_result k v rs in if j == k then (j, v) ∷ rs else (j, u) ∷ rest

module _ (number_of : String → Option Number) where
  -- required, actual: v || 0, passed: (v || 0) >= minimum
  abbrev pub measured : String → Number → Value → Criterion
  measured key minimum v = record {
    key = key;
    required = num minimum;
    actual = or_else v (num (whole 0));
    passed = at_least_value number_of (or_else v (num (whole 0))) minimum;
  }

  unfoldable pub verify_gots : Fields → Verification
  verify_gots product = conclude gots (
      measured "organicContent" minimum_organic_content (get "organicContent" product)
      ∷ plain "environmentalCriteria" (is_true (get "environmentalCompliance" product))
      ∷ [])

  unfoldable pub verify_fair_trade : Fields → Verification
  verify_fair_trade product = conclude fair_trade (
      measured "fairWages" minimum_premium_percentage (get "premiumPercentage" product)
      ∷ plain "workingConditions" (is_true (get "safeWorkingConditions" product))
      ∷ [])

  unfoldable pub verify_oeko_tex : Fields → Verification
  verify_oeko_tex product = conclude oeko_tex (
      plain "chemicalSafety" (is_text "PASS" (get "chemicalTestResult" product))
      ∷ record {
        key = "productClass";
        required = arr (items (map str testing_levels));
        actual = get "productClass" product;
        passed = any (λ level. is_text level (get "productClass" product)) testing_levels;
      }
      ∷ [])

  unfoldable pub verify_recycled_claim : Fields → Verification
  verify_recycled_claim product = conclude recycled_claim (
      measured "recycledContent" minimum_recycled_content (get "recycledContent" product)
      ∷ plain "traceability" (is_true (get "chainOfCustodyVerified" product))
      ∷ [])

  unfoldable pub verify_bci : Fields → Verification
  verify_bci product = conclude bci (
      plain "waterManagement" (at_least_value number_of (get "waterEfficiency" product) (whole 70))
      ∷ plain "soilHealth" (is_true (get "soilHealthPractices" product))
      ∷ measured "standardScore" minimum_standard_score (get "standardScore" product)
      ∷ [])

  unfoldable pub verify_certification : String → Fields → Result Outcome
  unfolding call_inherited
  verify_certification standard_type product =
      if standard_type == "GOTS"
      then ok (checked (verify_gots product))
      else if standard_type == "FAIR_TRADE"
      then ok (checked (verify_fair_trade product))
      else if standard_type == "OEKO_TEX"
      then ok (checked (verify_oeko_tex product))
      else if standard_type == "RECYCLED_CLAIM"
      then ok (checked (verify_recycled_claim product))
      else if standard_type == "BCI"
      then ok (checked (verify_bci product))
      else if is_inherited standard_type
      then call_inherited standard_type product
      else err (not_found standard_type)

  -- `describe` is the text of an error that the source does not make itself.
  module _ (describe : Error → String) where
    abbrev pub entry_of : Result Outcome → Entry
    entry_of (ok o) = answered o
    entry_of (err (message text)) = failed text
    entry_of (err e) = failed (describe e)

    unfoldable pub compare_from :
        Fields → List (String × Entry) → List String → List (String × Entry)
    compare_from product results [] = results
    compare_from product results (standard_type ∷ more) =
        compare_from product
          (record_result standard_type (entry_of (verify_certification standard_type product))
            results)
          more

    unfoldable pub compare_certifications : Fields → List String → List (String × Entry)
    unfolding compare_from record_result
    compare_certifications product standard_types = compare_from product [] standard_types

unfoldable pub standard_of : String → Option Standard
standard_of standard_type =
    if standard_type == "GOTS"
    then some gots
    else if standard_type == "FAIR_TRADE"
    then some fair_trade
    else if standard_type == "OEKO_TEX"
    then some oeko_tex
    else if standard_type == "RECYCLED_CLAIM"
    then some recycled_claim
    else if standard_type == "BCI"
    then some bci
    else none

pub record Requirements : Type 0 where
  pub name : Value
  pub kind : Value
  pub required_criteria : Value
  pub validity_period : Value

-- An inherited function has a name and nothing else that is read here; `__proto__` not even that.
abbrev inherited_name : String → Value
inherited_name standard_type =
    if standard_type == "constructor"
    then str "Object"
    else if standard_type == "__proto__"
    then undefined
    else str standard_type

abbrev requirements_of : String → Option Standard → Result Requirements
requirements_of standard_type none =
    if is_inherited standard_type
    then ok (record {
      name = inherited_name standard_type;
      kind = undefined;
      required_criteria = undefined;
      validity_period = undefined;
    })
    else err (not_found standard_type)
requirements_of standard_type (some s) = ok (record {
  name = str s.name;
  kind = str s.kind;
  required_criteria = arr (items (map str s.required_criteria));
  validity_period = num (whole s.validity_period);
})

unfoldable pub get_certification_requirements : String → Result Requirements
unfolding standard_of
get_certification_requirements standard_type =
    requirements_of standard_type (standard_of standard_type)
