-- ===== src/Certification/Tests.antt =====
-- A product's data, verified against the standards.
use sustainable_fashion_chai.Prelude.{String, ◌≡◌, refl, ◌↔◌, true, false, Option, none}
use sustainable_fashion_chai.Number.{Number, whole, at_most, less, same}
use sustainable_fashion_chai.Json.{
  is_inherited, Fields, field, end, num, bool, get, truthy, is_true,
}
use sustainable_fashion_chai.Fabric.{Error}
use sustainable_fashion_chai.Json.Compare.{at_least_value, to_number}
use sustainable_fashion_chai.Certification.{
  call_inherited, verify_gots, verify_bci, verify_certification, is_verified,
}
use sustainable_fashion_chai.Certification.Laws.{Meets, verify_certification_iff}

abbrev number_of : String → Option Number
number_of t = none

abbrev product : Fields
product = field "organicContent" (num (whole 85)) (field "environmentalCompliance" (bool true) end)

verified : is_verified (verify_certification number_of "GOTS" product) ≡ true
unfolding verify_certification verify_gots get is_true truthy at_least_value to_number at_most less
    same
verified = refl

not_verified : is_verified (verify_certification number_of "BCI" product) ≡ false
unfolding verify_certification verify_bci get is_true truthy at_least_value to_number at_most less
    same
not_verified = refl

verify_certification_iff_example :
    (is_verified (verify_certification number_of "GOTS" product) ≡ true)
    ↔ Meets number_of "GOTS" product
verify_certification_iff_example = verify_certification_iff number_of "GOTS" product

abbrev describe : Error → String
describe e = "error"

inherited_verified :
    is_verified (verify_certification number_of "constructor" (field "verified" (bool true) end))
    ≡ true
unfolding verify_certification is_inherited call_inherited get truthy
inherited_verified = refl
