-- ===== src/Contract/Cotton.antt =====
-- registerCottonBatch, verifyCottonBatch and storeCottonBatch of
-- fabric/chaincode/supplychain/index.js.
pub mod Effects
use sustainable_fashion_chai.Prelude.{
  String, not, ◌&&◌, ◌||◌, Option, none, some, List, [], ◌∷◌, ◌==◌, join, if◌then◌else◌,
  is_hex_word, is_zero_word,
}
use sustainable_fashion_chai.Number.{Number, not_positive}
use sustainable_fashion_chai.Json.{
  Value, null, bool, num, str, arr, obj, nil, Fields, get, set, object, fields, items, assign,
  is_text,
}
use sustainable_fashion_chai.Fabric.{
  Error, message, Result, ok, err, Env, Exec, ◌>>=◌, ◌>>◌, pure, ensure, lift, put_state, set_event,
  load, exists, transaction_timestamp,
}
use sustainable_fashion_chai.Contract.{push_onto, about, missing}

-- `Number(quantity)`, refused unless it is finite and above 0.
abbrev positive_of : Error → Option Number → Result Number
positive_of e none = err e
positive_of e (some n) = if not_positive n then err e else ok n

module _ (env : Env) where
  -- The record that registerCottonBatch stores.
  unfoldable pub new_batch :
      (id farm_id : String) (quantity_kg : Number)
      (organic fair_trade harvest_date location : String)
      → Fields
  new_batch id farm_id quantity_kg organic fair_trade harvest_date location = fields (
      ("id", str id)
      ∷ ("batchId", str id)
      ∷ ("origin", str location)
      ∷ ("producer", str farm_id)
      ∷ ("quantityKg", num quantity_kg)
      ∷ ("certificationHash", null)
      ∷ ("createdAt", transaction_timestamp env)
      ∷ ("verifiedAt", null)
      ∷ ("rwaStatus", str "PRODUCED")
      ∷ ("type", str "cotton")
      ∷ ("farmId", str farm_id)
      ∷ ("quantity", num quantity_kg)
      ∷ ("organic", bool (organic == "true"))
      ∷ ("fairTrade", bool (fair_trade == "true"))
      ∷ ("harvestDate", str harvest_date)
      ∷ ("status", str "HARVESTED")
      ∷ ("location", str location)
      ∷ ("currentCustody", str farm_id)
      ∷ (
        "custodyHistory",
        arr (
            items (
              object (
                ("holder", str farm_id)
                ∷ ("timestamp", transaction_timestamp env)
                ∷ ("location", str location)
                ∷ [])
              ∷ [])),
      )
      ∷ ("certifications", arr nil)
      ∷ ("tokenizationId", null)
      ∷ (
        "history",
        arr (
            items (
              object (
                ("type", str "Creation")
                ∷ ("actor", str farm_id)
                ∷ ("timestamp", transaction_timestamp env)
                ∷ ("details", str "Cotton batch registered on blockchain")
                ∷ [])
              ∷ [])),
      )
      ∷ [])

  unfoldable pub register_cotton_batch :
      (id farm_id quantity organic fair_trade harvest_date location : String) → Exec Value
  register_cotton_batch id farm_id quantity organic fair_trade harvest_date location = do
    ensure (not (id == "" || farm_id == "")) (message "INVALID_COTTON_BATCH")
    quantity_kg ← lift (positive_of (message "INVALID_COTTON_BATCH") (env.number_of quantity))
    ensure (not (exists env id)) (message "BATCH_ALREADY_EXISTS")
    let batch = new_batch id farm_id quantity_kg organic fair_trade harvest_date location
    put_state id batch
    pure (obj batch)

  -- The fields that verifyCottonBatch writes.
  unfoldable pub certify : String → Fields → Fields
  certify certification_hash = assign (
      ("certificationHash", str certification_hash)
      ∷ ("verifiedAt", transaction_timestamp env)
      ∷ ("verifiedBy", str env.client_id)
      ∷ ("fabricVerificationTxId", str env.tx_id)
      ∷ ("rwaStatus", str "VERIFIED")
      ∷ [])

  unfoldable pub verify_cotton_batch : (id certification_hash : String) → Exec Value
  verify_cotton_batch id certification_hash = do
    ensure (env.has_attribute "sfc.role" "certifier") (message "CERTIFIER_REQUIRED")
    ensure (is_hex_word 64 certification_hash && not (is_zero_word 64 certification_hash))
        (message "INVALID_CERTIFICATION_HASH")
    batch ← load env id (message "BATCH_NOT_FOUND")
    ensure (is_text "STORED" (get "status" batch) && is_text "PRODUCED" (get "rwaStatus" batch))
        (message "BATCH_NOT_VERIFIABLE")
    let verified = certify certification_hash batch
    put_state id verified
    set_event "CottonBatchVerified" (obj verified)
    pure (obj verified)

  -- An entry of a record's history, by the calling client.
  unfoldable pub log_entry : String → String → Value
  log_entry kind details = object (
      ("type", str kind)
      ∷ ("actor", str env.client_id)
      ∷ ("timestamp", transaction_timestamp env)
      ∷ ("details", str details)
      ∷ [])

  unfoldable pub store_cotton_batch : (id warehouse_id : String) → Exec Value
  store_cotton_batch id warehouse_id = do
    batch ← load env id (missing "Batch " id)
    ensure (is_text "cotton" (get "type" batch) && is_text "HARVESTED" (get "status" batch))
        (about "Batch " id " must be harvested cotton to enter storage")
    batch' ← lift (
        push_onto "history" (log_entry "Stored" (join ("Stored at warehouse " ∷ warehouse_id ∷ [])))
          (assign
            (("status", str "STORED")
              ∷ ("location", str warehouse_id)
              ∷ ("currentCustody", str warehouse_id)
              ∷ [])
            batch))
    put_state id batch'
    pure (obj batch')
