-- ===== src/Bridge/Oracle/Tests.antt =====
-- Rounds that validateRound accepts and refuses.
use sustainable_fashion_chai.Prelude.{◌≡◌, refl, ◌↔◌, some, none, ℤ, pos, negsuc}
use sustainable_fashion_chai.Fabric.{message, ok, err}
use sustainable_fashion_chai.Bridge.Oracle.{
  Round, validate_times, validate_fields, validate_round, validate_round_iff, IsFresh,
}

abbrev round : ℤ → ℤ → Round
round updated answer = record {
  updated_at = some updated;
  answer = some answer;
  round_id = some (pos 7);
  answered_in_round = some (pos 7);
}

rounds :
    (validate_round (some (round (pos 900) (pos 5))) (some (pos 1000)) (some (pos 100))
      ≡ ok (record { updated_at = pos 900; age_seconds = pos 100 }))
    × (validate_round (some (round (pos 899) (pos 5))) (some (pos 1000)) (some (pos 100))
        ≡ err (message "STALE_ORACLE"))
    × (validate_round (some (round (pos 1001) (pos 5))) (some (pos 1000)) (some (pos 100))
        ≡ err (message "FUTURE_ORACLE"))
    × (validate_round (some (round (pos 900) (negsuc 4))) (some (pos 1000)) (some (pos 100))
        ≡ err (message "INVALID_ORACLE_PRICE"))
    × (validate_round none (some (pos 1000)) (some (pos 100)) ≡ err (message "MISSING_ORACLE"))
unfolding validate_round validate_times validate_fields
rounds = (refl, refl, refl, refl, refl)

validate_round_iff_example :
    (validate_round (some (round (pos 900) (pos 5))) (some (pos 1000)) (some (pos 100))
      ≡ ok (record { updated_at = pos 900; age_seconds = pos 100 }))
    ↔ IsFresh (pos 900) (pos 5) (pos 7) (pos 7) (pos 1000) (pos 100)
validate_round_iff_example =
    validate_round_iff (pos 900) (pos 5) (pos 7) (pos 7) (pos 1000) (pos 100)
