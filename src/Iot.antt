-- ===== src/Iot.antt =====
-- The device transactions of fabric/chaincode/supplychain/iotIntegration.js (IoTIntegration), as
-- actions of `Exec`. `iso n` is the text of the n-th `new Date().toISOString()` of a call, `millis`
-- that of Date.now(), and `stringify` is JSON.stringify. Texts are the arguments that the source
-- documents as strings; an optional one that is left out is the empty text.
pub mod Status
pub mod Devices
mod Tests
use sustainable_fashion_chai.Prelude.{
  ℕ, ◌+◌, ◌*◌, ◌^◌, String, Bool, true, false, not, ◌||◌, Option, none, some, List, [], ◌∷◌, ◌==◌,
  any, join, if◌then◌else◌,
}
use sustainable_fashion_chai.Number.{Number, whole}
use sustainable_fashion_chai.Json.{
  is_inherited, Value, undefined, null, bool, num, str, arr, obj, Items, nil, Fields, end, get, set,
  fields, object, truthy, is_text, or_else, assign,
}
use sustainable_fashion_chai.Json.Compare.{less_value, above_value}
use sustainable_fashion_chai.Fabric.{
  message, Error, Env, Exec, ◌>>=◌, ◌>>◌, pure, ensure, lift, put_state, load, exists,
}
use sustainable_fashion_chai.Contract.{push_onto, about, missing, show}

abbrev pub device_types : List String
device_types =
    "temperature_sensor" ∷ "humidity_sensor" ∷ "gps_tracker" ∷ "rfid_reader" ∷ "chemical_sensor"
    ∷ "water_usage_meter" ∷ "energy_meter" ∷ "camera" ∷ []

abbrev pub data_sources : List String
data_sources =
    "farm" ∷ "transportation" ∷ "warehouse" ∷ "processing" ∷ "manufacturing" ∷ "retail" ∷ []

abbrev pub valid_statuses : List String
valid_statuses = "ACTIVE" ∷ "INACTIVE" ∷ "MAINTENANCE" ∷ "DECOMMISSIONED" ∷ []

-- xs.includes(x)
abbrev pub includes : String → List String → Bool
includes x xs = any (λ y. y == x) xs

-- v.k, of a value that is not null; only objects have the properties read here.
abbrev pub member : String → Value → Value
member k (obj fs) = get k fs
member k _ = undefined

abbrev pub device_key : String → String
device_key device_id = join ("iot_device_" ∷ device_id ∷ [])

-- `iot_data_${deviceId}_${Date.now()}`
abbrev pub data_key : (device_id millis : String) → String
data_key device_id millis = join ("iot_data_" ∷ device_id ∷ "_" ∷ millis ∷ [])

-- n + 1
abbrev successor : Number → Number
successor n = record n { plus = n.plus + 2 ^ n.scale }

-- fs[k] || [], kept in fs[k]
abbrev pub with_list : String → Fields → Fields
with_list k fs = if truthy (get k fs) then fs else set k (arr nil) fs

module _ (env : Env) where
  -- thresholds[type] || thresholds['chemical']; under an inherited name there is a function or an
  -- object, `none`.
  unfoldable pub get_safety_threshold : Value → Option Number
  get_safety_threshold kind =
      let k = show env kind in
      if k == "chemical"
      then some (whole 50)
      else if k == "pesticide"
      then some (whole 10)
      else if k == "dye"
      then some (whole 20)
      else if k == "water"
      then some (whole 1000)
      else if k == "energy"
      then some (whole 500)
      else if is_inherited k
      then none
      else some (whole 50)

  -- level > threshold; no number is above a function or an object, and no level is taken to be.
  abbrev above_threshold : Value → Option Number → Bool
  above_threshold level none = false
  above_threshold level (some threshold) = above_value env.number_of level threshold

  unfoldable pub detect_abnormal_data : (device_type readings : Value) → Bool
  detect_abnormal_data device_type readings =
      if is_text "temperature_sensor" device_type
      then less_value env.number_of (member "temperature" readings) (whole 15)
        || above_value env.number_of (member "temperature" readings) (whole 30)
      else if is_text "humidity_sensor" device_type
      then less_value env.number_of (member "humidity" readings) (whole 35)
        || above_value env.number_of (member "humidity" readings) (whole 65)
      else if is_text "water_usage_meter" device_type
      then above_value env.number_of (member "usage" readings) (whole 1000)
      else if is_text "energy_meter" device_type
      then above_value env.number_of (member "usage" readings) (whole 500)
      else if is_text "chemical_sensor" device_type
      then above_threshold (member "level" readings)
          (get_safety_threshold (or_else (member "chemical" readings) (str "default")))
      else false

  unfoldable pub summarize_data : (device_type readings : Value) → Value
  summarize_data device_type readings =
      if is_text "temperature_sensor" device_type
      then object (
          ("temperature", member "temperature" readings)
          ∷ ("unit", or_else (member "unit" readings) (str "Celsius"))
          ∷ [])
      else if is_text "humidity_sensor" device_type
      then object (("humidity", member "humidity" readings) ∷ ("unit", str "%") ∷ [])
      else if is_text "water_usage_meter" device_type
      then object (
          ("usage", member "usage" readings)
          ∷ ("unit", or_else (member "unit" readings) (str "liters"))
          ∷ [])
      else if is_text "energy_meter" device_type
      then object (
          ("usage", member "usage" readings)
          ∷ ("unit", or_else (member "unit" readings) (str "kWh"))
          ∷ [])
      else if is_text "chemical_sensor" device_type
      then object (
          ("chemical", or_else (member "chemical" readings) (str "unspecified"))
          ∷ ("level", member "level" readings)
          ∷ ("unit", or_else (member "unit" readings) (str "ppm"))
          ∷ [])
      else if is_text "gps_tracker" device_type
      then object (
          ("latitude", member "latitude" readings)
          ∷ ("longitude", member "longitude" readings)
          ∷ ("speed", member "speed" readings)
          ∷ ("speedUnit", or_else (member "speedUnit" readings) (str "km/h"))
          ∷ [])
      else readings

  -- v + 1, as JSON keeps it: NaN is stored as null.
  unfoldable pub plus_one : Value → Value
  plus_one undefined = null
  plus_one null = num (whole 1)
  plus_one (bool true) = num (whole 2)
  plus_one (bool false) = num (whole 1)
  plus_one (num n) = num (successor n)
  plus_one v = str (join (show env v ∷ "1" ∷ []))

  module _ (iso : ℕ → String) (millis : String) (stringify : Value → String) where
    unfoldable pub register_device :
        (device_id device_type location owner data_source : String) (metadata : Value) → Exec Fields
    register_device device_id device_type location owner data_source metadata = do
      ensure
          (not (
            device_id == ""
            || device_type == ""
            || location == ""
            || owner == ""
            || data_source == ""))
          (message "Missing required parameters for device registration")
      ensure (includes device_type device_types) (about "Invalid device type: " device_type "")
      ensure (includes data_source data_sources) (about "Invalid data source: " data_source "")
      ensure (not (exists env (device_key device_id)))
          (about "Device with ID " device_id " already exists")
      let device = fields (
          ("id", str device_id)
          ∷ ("type", str device_type)
          ∷ ("location", str location)
          ∷ ("owner", str owner)
          ∷ ("dataSource", str data_source)
          ∷ ("metadata", or_else metadata (obj end))
          ∷ ("status", str "ACTIVE")
          ∷ ("registrationDate", str (iso 0))
          ∷ ("lastCalibratedDate", str (iso 1))
          ∷ ("dataCount", num (whole 0))
          ∷ ("lastDataTimestamp", null)
          ∷ [])
      put_state (device_key device_id) device
      pure device

    unfoldable pub update_device_status : (device_id status reason : String) → Exec Fields
    update_device_status device_id status reason = do
      ensure (includes status valid_statuses) (
          about "Invalid status: " status
            ". Must be one of: ACTIVE, INACTIVE, MAINTENANCE, DECOMMISSIONED")
      found ← load env (device_key device_id) (missing "Device with ID " device_id)
      let device = set "status" (str status) found
      device' ← lift (
          push_onto "statusHistory"
            (object (
              ("from", get "status" device)
              ∷ ("to", str status)
              ∷ ("timestamp", str (iso 0))
              ∷ ("reason", or_else (str reason) (str "Not specified"))
              ∷ []))
            (with_list "statusHistory" device))
      put_state (device_key device_id) device'
      pure device'

    unfoldable pub record_calibration :
        (device_id : String) (calibrated_by calibration_data : Value) → Exec Fields
    record_calibration device_id calibrated_by calibration_data = do
      found ← load env (device_key device_id) (missing "Device with ID " device_id)
      device' ← lift (
          push_onto "calibrationHistory"
            (object (
              ("timestamp", str (iso 1))
              ∷ ("calibratedBy", calibrated_by)
              ∷ ("data", or_else calibration_data (obj end))
              ∷ []))
            (with_list "calibrationHistory" (set "lastCalibratedDate" (str (iso 0)) found)))
      put_state (device_key device_id) device'
      pure device'

    -- The warning in the product's history.
    unfoldable pub warn : (device_type readings : Value) → Fields → Exec Fields
    warn device_type readings product =
        if detect_abnormal_data device_type readings
        then lift (
            push_onto "history"
              (object (
                ("type", str "AbnormalDataDetected")
                ∷ ("timestamp", str (iso 0))
                ∷ (
                  "details",
                  str (
                      join (
                        "Abnormal "
                        ∷ show env device_type
                        ∷ " data detected: "
                        ∷ stringify (summarize_data device_type readings)
                        ∷ [])),
                )
                ∷ []))
              (with_list "history" product))
        else pure product

    -- The record of the readings, and the device after them.
    unfoldable pub new_record :
        (device_id product_id : String) (readings : Value) (timestamp : String) (signature : Value)
        (device : Fields)
        → Fields
    new_record device_id product_id readings timestamp signature device = fields (
        ("id", str (data_key device_id millis))
        ∷ ("deviceId", str device_id)
        ∷ ("deviceType", get "type" device)
        ∷ ("productId", str product_id)
        ∷ ("timestamp", str timestamp)
        ∷ ("data", readings)
        ∷ ("verified", bool (truthy signature))
        ∷ ("abnormalFlag", bool (detect_abnormal_data (get "type" device) readings))
        ∷ ("location", get "location" device)
        ∷ [])

    unfoldable pub count_reading : String → Fields → Fields
    count_reading timestamp device =
        assign
          (("dataCount", plus_one (get "dataCount" device))
            ∷ ("lastDataTimestamp", str timestamp)
            ∷ [])
          device

    unfoldable pub submit_device_data :
        (device_id product_id : String) (readings : Value) (timestamp : String) (signature : Value)
        → Exec Fields
    submit_device_data device_id product_id readings timestamp signature = do
      ensure (not (device_id == "" || product_id == "" || not (truthy readings) || timestamp == ""))
          (message "Missing required parameters for data submission")
      device ← load env (device_key device_id) (missing "Device with ID " device_id)
      product ← load env product_id (missing "Product/batch with ID " product_id)
      let data_record = new_record device_id product_id readings timestamp signature device
      put_state (data_key device_id millis) data_record
      put_state (device_key device_id) (count_reading timestamp device)
      product' ← lift (
          push_onto "iotData"
            (object (
              ("dataId", str (data_key device_id millis))
              ∷ ("deviceType", get "type" device)
              ∷ ("timestamp", str timestamp)
              ∷ ("summary", summarize_data (get "type" device) readings)
              ∷ ("abnormalFlag", bool (detect_abnormal_data (get "type" device) readings))
              ∷ []))
            (with_list "iotData" product))
      product'' ← warn (get "type" device) readings product'
      put_state product_id product''
      pure data_record
