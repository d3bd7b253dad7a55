-- ===== src/Contract/Queries.antt =====
-- queryRecords and the query transactions of fabric/chaincode/supplychain/index.js.
pub mod Effects
use sustainable_fashion_chai.Prelude.{String, Bool, not, ◌&&◌, ◌||◌, List, [], ◌∷◌, if◌then◌else◌}
use sustainable_fashion_chai.Json.{Value, arr, obj, Fields, get, items, truthy, is_text}
use sustainable_fashion_chai.Fabric.{
  Stored, document, malformed, message, Result, ok, err, Env, Exec, ◌>>=◌, pure, lift, load,
}
use sustainable_fashion_chai.Contract.{about, missing}

-- The loop of queryRecords over the iterator's entries.
unfoldable pub select : (Fields → Bool) → List (String × Stored) → Result (List Value)
select predicate [] = ok []
select predicate ((key, malformed) ∷ more) = err (about "INVALID_LEDGER_RECORD: " key "")
select predicate ((key, document record_) ∷ more) = elim (select predicate more) [
  | ok records ↦ ok (if predicate record_ then obj record_ ∷ records else records)
  | err e ↦ err e
]

abbrev pub is_material : Fields → Bool
is_material r = is_text "cotton" (get "type" r) || is_text "silk" (get "type" r)

abbrev pub is_product : Fields → Bool
is_product r = truthy (get "type" r) && not (is_material r)

-- Boolean(record.id && record.batchId) && !record.type, at the given status
abbrev pub is_request : String → Fields → Bool
is_request status r =
    is_text status (get "status" r)
    && (truthy (get "id" r) && truthy (get "batchId" r))
    && not (truthy (get "type" r))

module _ (env : Env) where
  unfoldable pub query_records : (Fields → Bool) → Exec Value
  query_records predicate = do
    records ← lift (select predicate env.range)
    pure (arr (items records))

  unfoldable pub query_product : (id : String) → Exec Value
  query_product id = do product ← load env id (message "PRODUCT_NOT_FOUND"); pure (obj product)

  unfoldable pub query_products_by_type : (kind : String) → Exec Value
  query_products_by_type kind = query_records (λ r. is_text kind (get "type" r))

  unfoldable pub query_all_batches : Exec Value
  query_all_batches = query_records is_material

  unfoldable pub query_all_products : Exec Value
  query_all_products = query_records is_product

  unfoldable pub get_tokenization_request : (request_id : String) → Exec Value
  get_tokenization_request request_id = do
    request ← load env request_id (missing "Tokenization request " request_id)
    pure (obj request)

  unfoldable pub query_pending_tokenization_requests : Exec Value
  query_pending_tokenization_requests = query_records (is_request "PENDING")

  unfoldable pub query_approved_tokenization_requests : Exec Value
  query_approved_tokenization_requests = query_records (is_request "APPROVED")
