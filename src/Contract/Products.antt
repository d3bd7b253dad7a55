-- ===== src/Contract/Products.antt =====
-- registerProduct, transferCustody, updateStatus, addCertification and createFinishedProduct of
-- fabric/chaincode/supplychain/index.js.
pub mod Effects
use sustainable_fashion_chai.Prelude.{
  ℕ, ◌+◌, String, Bool, not, ◌||◌, List, [], ◌∷◌, ◌==◌, if◌then◌else◌, length, any, join, decimal,
}
use sustainable_fashion_chai.Number.{whole}
use sustainable_fashion_chai.Json.{
  Value, undefined, null, bool, num, str, arr, obj, Items, nil, cons, Fields, end, field, get, set,
  object, fields, keys, items, elements, truthy, is_true, or_else,
}
use sustainable_fashion_chai.Fabric.{
  message, type_error, Result, ok, err, Env, Exec, ◌>>=◌, ◌>>◌, pure, ensure, lift, put_state, load,
  exists, parse_json, transaction_timestamp,
}
use sustainable_fashion_chai.Contract.{push_onto, about, missing, load_at}

-- The fields that updateStatus does not let `additionalData` write.
unfoldable pub reserved : List String
reserved =
    "batchId" ∷ "quantity" ∷ "quantityKg" ∷ "rwaStatus" ∷ "certificationHash"
    ∷ "fabricVerificationTxId" ∷ "verifiedAt" ∷ "verifiedBy" ∷ "type" ∷ "id" ∷ "tokenizationId"
    ∷ "pendingTokenizationId" ∷ "currentCustody" ∷ "producer" ∷ "farmId" ∷ "nftTokenId" ∷ "batchIDs"
    ∷ "manufacturer" ∷ "status" ∷ "history" ∷ "custodyHistory" ∷ "statusHistory" ∷ []

unfoldable pub is_reserved : String → Bool
unfolding reserved
is_reserved k = any (λ r. r == k) reserved

abbrev indexed : ℕ → Items → Fields
indexed n nil = end
indexed n (cons v vs) = field (decimal n) v (indexed (n + 1) vs)

abbrev letters : ℕ → String → Fields
letters n String.[] = end
letters n (String.◌∷◌ c s) = field (decimal n) (str (String.◌∷◌ c String.[])) (letters (n + 1) s)

-- What Object.keys and reads by those keys see of a value; a text as its code points.
abbrev own_fields : Value → Result Fields
own_fields undefined = err type_error
own_fields null = err type_error
own_fields (bool b) = ok end
own_fields (num n) = ok end
own_fields (str s) = ok (letters 0 s)
own_fields (arr vs) = ok (indexed 0 vs)
own_fields (obj fs) = ok fs

-- Object.keys(dataObj).forEach(key => { product[key] = dataObj[key]; })
unfoldable pub merge : Fields → Fields → Fields
merge end doc = doc
merge (field k v more) doc = merge more (set k v doc)

-- A list that is not empty, as batchIdArray must be.
abbrev batch_ids_of : Value → Result (List Value)
batch_ids_of (arr (cons v vs)) = ok (elements (cons v vs))
batch_ids_of _ = err (message "At least one batch ID is required")

module _ (env : Env) where
  unfoldable pub register_product :
      (id kind origin timestamp certifications metadata : String) → Exec Value
  register_product id kind origin timestamp certifications metadata = do
    ensure (not (exists env id)) (message "RECORD_ALREADY_EXISTS")
    certs ← parse_json env certifications
    meta ← parse_json env metadata
    let product = fields (
        ("id", str id)
        ∷ ("type", str kind)
        ∷ ("origin", str origin)
        ∷ ("timestamp", str timestamp)
        ∷ ("certifications", certs)
        ∷ ("metadata", meta)
        ∷ ("status", str "REGISTERED")
        ∷ (
          "custodyHistory",
          arr (items (object (("holder", str origin) ∷ ("timestamp", str timestamp) ∷ []) ∷ [])),
        )
        ∷ [])
    put_state id product
    pure (obj product)

  unfoldable pub transfer_custody : (id new_holder timestamp location : String) → Exec Value
  transfer_custody id new_holder timestamp location = do
    product ← load env id (missing "Product " id)
    ensure (not (truthy (get "batchId" product))) (message "USE_COTTON_STATE_MACHINE")
    product' ← lift (
        push_onto "custodyHistory"
          (object (
            ("holder", str new_holder)
            ∷ ("timestamp", str timestamp)
            ∷ ("location", str location)
            ∷ []))
          product)
    put_state id product'
    pure (obj product')

  -- The merge of `additionalData` into the product.
  unfoldable pub merge_parsed : String → Fields → Exec Fields
  merge_parsed additional product = do
    data_value ← parse_json env additional
    data_obj ← lift (own_fields data_value)
    ensure (not (any is_reserved (keys data_obj))) (message "PROTECTED_RWA_FIELDS")
    pure (merge data_obj product)

  -- if (additionalData) …
  unfoldable pub merge_additional : String → Fields → Exec Fields
  merge_additional additional product =
      if additional == "" then pure product else merge_parsed additional product

  unfoldable pub update_status : (id new_status timestamp additional : String) → Exec Value
  update_status id new_status timestamp additional = do
    product ← load env id (missing "Product " id)
    ensure (not (truthy (get "batchId" product))) (message "USE_COTTON_STATE_MACHINE")
    ensure (not (truthy (get "batchIDs" product) || truthy (get "nftTokenId" product)))
        (message "USE_PRODUCT_STATE_MACHINE")
    merged ← merge_additional additional (set "status" (str new_status) product)
    updated ← lift (
        push_onto "statusHistory"
          (object (("status", str new_status) ∷ ("timestamp", str timestamp) ∷ []))
          (set "statusHistory" (or_else (get "statusHistory" merged) (arr nil)) merged))
    put_state id updated
    pure (obj updated)

  unfoldable pub add_certification : (id cert_type cert_id issuer timestamp : String) → Exec Value
  add_certification id cert_type cert_id issuer timestamp = do
    product ← load env id (missing "Product " id)
    ensure (not (truthy (get "batchId" product))) (message "USE_COTTON_STATE_MACHINE")
    product' ← lift (
        push_onto "certifications"
          (object (
            ("type", str cert_type)
            ∷ ("id", str cert_id)
            ∷ ("issuer", str issuer)
            ∷ ("timestamp", str timestamp)
            ∷ []))
          (set "certifications" (or_else (get "certifications" product) (arr nil)) product))
    put_state id product'
    pure (obj product')

  -- The loop over the batches; `n` is batchIdArray.length.
  unfoldable pub materials_of : ℕ → List Value → Exec (List Value)
  materials_of n [] = pure []
  materials_of n (batch_id ∷ batch_ids) = do
    batch ← load_at env batch_id (missing "Batch ")
    more ← materials_of n batch_ids
    pure (
        object (
          ("batchId", batch_id)
          ∷ ("type", get "type" batch)
          ∷ ("percentage", num (env.quotient (whole 100) (whole n)))
          ∷ ("sustainable", bool (is_true (get "organic" batch)))
          ∷ [])
        ∷ more)

  unfoldable pub create_finished_product :
      (product_id product_type manufacturer batch_ids product_date : String) → Exec Value
  create_finished_product product_id product_type manufacturer batch_ids product_date = do
    ensure
        (not (
          product_id == ""
          || product_type == ""
          || manufacturer == ""
          || batch_ids == ""
          || product_date == ""))
        (message "Missing required parameters")
    parsed_ids ← parse_json env batch_ids
    batch_id_array ← lift (batch_ids_of parsed_ids)
    ensure (not (exists env product_id)) (about "Product " product_id " already exists")
    materials ← materials_of (length batch_id_array) batch_id_array
    let product = fields (
        ("id", str product_id)
        ∷ ("type", str product_type)
        ∷ ("manufacturer", str manufacturer)
        ∷ ("productDate", str product_date)
        ∷ ("materials", arr (items materials))
        ∷ ("batchIDs", arr (items batch_id_array))
        ∷ ("status", str "FINISHED")
        ∷ ("nftTokenId", null)
        ∷ (
          "custodyHistory",
          arr (
              items (
                object
                  (("holder", str manufacturer) ∷ ("timestamp", transaction_timestamp env) ∷ [])
                ∷ [])),
        )
        ∷ (
          "history",
          arr (
              items (
                object (
                  ("type", str "Creation")
                  ∷ ("actor", str manufacturer)
                  ∷ ("timestamp", transaction_timestamp env)
                  ∷ (
                    "details",
                    str (
                        join (
                          "Finished product created from "
                          ∷ decimal (length batch_id_array)
                          ∷ " batch(es)"
                          ∷ [])),
                  )
                  ∷ [])
                ∷ [])),
        )
        ∷ [])
    put_state product_id product
    pure (obj product)
