-- ===== src/Iot/Tests.antt =====
-- A hot sensor at a stored product, and a device that is put into maintenance.
use sustainable_fashion_chai.Prelude.{
  ℕ, String, ◌≡◌, refl, true, false, none, some, List, [], ◌==◌, join, if◌then◌else◌,
}
use sustainable_fashion_chai.Number.{whole, less, at_most, same}
use sustainable_fashion_chai.Json.{
  Value, null, num, str, obj, arr, nil, Fields, field, end, get, set, truthy, is_text,
}
use sustainable_fashion_chai.Json.Compare.{to_number, less_value, above_value}
use sustainable_fashion_chai.Fabric.{document, Effect, Env, Result, ok, err, ◌>>=◌, ◌>>◌}
use sustainable_fashion_chai.Contract.{push_onto, show}
use sustainable_fashion_chai.Iot.{
  data_key, device_key, plus_one, detect_abnormal_data, summarize_data, warn, new_record,
  count_reading, submit_device_data, update_device_status,
}
use sustainable_fashion_chai.Iot.Devices.{Submitted, submit_device_data-Submitted}
use sustainable_fashion_chai.Iot.Status.{Updated, update_device_status-Updated}

abbrev device : Fields
device = field "type" (str "temperature_sensor") (
    field "location" (str "WH")
      (field "status" (str "ACTIVE") (field "dataCount" (num (whole 0)) end)))

abbrev product : Fields
product = field "id" (str "p") (field "history" (arr nil) end)

abbrev env : Env
env = record {
  read = λ k.
      if k == "iot_device_t"
      then some (document device)
      else if k == "p"
      then some (document product)
      else none;
  range = [];
  seconds = 1700000000;
  nanos = 0;
  tx_id = "tx";
  client_id = "x509::client";
  has_attribute = λ name value. false;
  number_of = λ t. none;
  show_number = λ n. "1";
  quotient = λ a b. a;
  parse = λ t. none;
}

abbrev iso : ℕ → String
iso n = "2026-10-05T00:00:00.000Z"

abbrev stringify : Value → String
stringify v = "{}"

abbrev hot : Value
hot = obj (field "temperature" (num (whole 40)) end)

iot : Unit {0}
unfolding ◌>>=◌ ◌>>◌ submit_device_data update_device_status warn new_record count_reading plus_one
    detect_abnormal_data summarize_data push_onto show get set truthy is_text to_number less_value
    above_value less at_most same join
iot = tt

abbrev fields_of : Result (Fields × List Effect) → Fields
fields_of (ok (v, w)) = v
fields_of (err e) = end

abbrev effects_of : Result (Fields × List Effect) → List Effect
effects_of (ok (v, w)) = w
effects_of (err e) = []

abbrev submission : Result (Fields × List Effect)
submission = submit_device_data env iso "1" stringify "t" "p" hot "2026-10-05" null []

abbrev update : Result (Fields × List Effect)
update = update_device_status env iso "1" stringify "t" "MAINTENANCE" "" []

submission_ok : submission ≡ ok (fields_of submission, effects_of submission)
unfolding iot
submission_ok = refl

update_ok : update ≡ ok (fields_of update, effects_of update)
unfolding iot
update_ok = refl

abnormal : get "abnormalFlag" (fields_of submission) ≡ Value.bool true
unfolding iot
abnormal = refl

submit_device_data-Submitted_example :
    (d p : Fields) × (env.read (device_key "t") ≡ some (document d))
    × (env.read "p" ≡ some (document p))
    × Submitted env
        (data_key "t" "1")
        (device_key "t")
        "p"
        "2026-10-05"
        hot
        d
        p
        (fields_of submission)
        (effects_of submission)
submit_device_data-Submitted_example =
    submit_device_data-Submitted env iso "1" stringify "t" "p" hot "2026-10-05" null
      (fields_of submission) (effects_of submission) submission_ok

update_device_status-Updated_example :
    (d : Fields) × (env.read (device_key "t") ≡ some (document d))
    × Updated (device_key "t") "MAINTENANCE" d (fields_of update) (effects_of update)
update_device_status-Updated_example =
    update_device_status-Updated env iso "1" stringify "t" "MAINTENANCE" "" (fields_of update)
      (effects_of update) update_ok
