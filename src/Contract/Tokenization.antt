-- ===== src/Contract/Tokenization.antt =====
-- requestTokenization, approveTokenizationRequest and completeTokenization of
-- fabric/chaincode/supplychain/index.js.
pub mod Completion
pub mod Effects
pub mod Retry
use sustainable_fashion_chai.Prelude.{
  String, not, ◌&&◌, ◌||◌, Option, none, some, [], ◌∷◌, join, is_hex_word, if◌then◌else◌,
}
use sustainable_fashion_chai.Number.{Number, not_positive}
use sustainable_fashion_chai.Json.{
  Value, null, num, str, obj, Fields, get, set, object, fields, assign, truthy, is_text,
}
use sustainable_fashion_chai.Fabric.{
  Error, message, syntax_error, Result, ok, err, Env, Exec, ◌>>=◌, ◌>>◌, pure, ensure, lift,
  put_state, set_event, load, exists, transaction_timestamp,
}
use sustainable_fashion_chai.Contract.{push_onto, about, missing, show, exceeds, load_at}
use sustainable_fashion_chai.Contract.Cotton.{log_entry}

-- The fields that a completion writes to the request, and to the batch.
unfoldable pub complete : String → Fields → Fields
complete ethereum_transaction_id =
    assign
      (("status", str "COMPLETED") ∷ ("ethereumTransactionId", str ethereum_transaction_id) ∷ [])

unfoldable pub tokenize : String → Value → Fields → Fields
tokenize ethereum_transaction_id quantity = assign (
    ("tokenizationId", str ethereum_transaction_id)
    ∷ ("status", str "TOKENIZED")
    ∷ ("rwaStatus", str "TOKENIZED")
    ∷ ("tokenizedKg", quantity)
    ∷ [])

-- The reply of completeTokenization.
abbrev pub outcome : Fields → Fields → Value
outcome request batch = object (("request", obj request) ∷ ("batch", obj batch) ∷ [])

module _ (env : Env) where
  -- `Number(quantity)`, refused unless it is finite, above 0 and not above the batch's quantity.
  abbrev within : Error → Value → Option Number → Result Number
  within e most none = err e
  within e most (some n) = if not_positive n || exceeds env n most then err e else ok n

  unfoldable pub new_request :
      (request_id batch_id : String) (quantity : Number) (warehouse_id : String) → Fields
  new_request request_id batch_id quantity warehouse_id = fields (
      ("id", str request_id)
      ∷ ("batchId", str batch_id)
      ∷ ("quantity", num quantity)
      ∷ ("warehouseId", str warehouse_id)
      ∷ ("status", str "PENDING")
      ∷ ("timestamp", transaction_timestamp env)
      ∷ ("requester", str env.client_id)
      ∷ ("approver", null)
      ∷ ("approvalTimestamp", null)
      ∷ ("ethereumTransactionId", null)
      ∷ [])

  unfoldable pub request_tokenization :
      (request_id batch_id quantity warehouse_id : String) → Exec Value
  request_tokenization request_id batch_id quantity warehouse_id = do
    batch ← load env batch_id (missing "Batch " batch_id)
    ensure (is_text "STORED" (get "status" batch))
        (about "Batch " batch_id " must be in STORED status to be tokenized")
    ensure (is_text "VERIFIED" (get "rwaStatus" batch) && truthy (get "certificationHash" batch))
        (message "VERIFIED_BACKING_REQUIRED")
    ensure (is_text warehouse_id (get "currentCustody" batch)) (message "WAREHOUSE_MISMATCH")
    ensure (not (truthy (get "pendingTokenizationId" batch)))
        (message "TOKENIZATION_ALREADY_PENDING")
    ensure (not (exists env request_id)) (message "REQUEST_ALREADY_EXISTS")
    ensure (not (truthy (get "tokenizationId" batch)))
        (about "Batch " batch_id " has already been tokenized")
    requested ← lift (
        within
          (about "Invalid tokenization quantity. Must be between 0 and "
            (show env (get "quantity" batch)) "")
          (get "quantity" batch) (env.number_of quantity))
    let request = new_request request_id batch_id requested warehouse_id
    put_state request_id request
    batch' ← lift (
        push_onto "history"
          (log_entry env "TokenizationRequested" (
            join (
              "Tokenization requested for "
              ∷ env.show_number requested
              ∷ " kg at warehouse "
              ∷ warehouse_id
              ∷ [])))
          (set "pendingTokenizationId" (str request_id) batch))
    put_state batch_id batch'
    pure (obj request)

  -- The fields that an approval writes to the request.
  unfoldable pub approve : Fields → Fields
  approve = assign (
      ("status", str "APPROVED")
      ∷ ("approver", str env.client_id)
      ∷ ("approvalTimestamp", transaction_timestamp env)
      ∷ [])

  unfoldable pub approve_tokenization_request : (request_id : String) → Exec Value
  approve_tokenization_request request_id = do
    ensure (env.has_attribute "sfc.role" "certifier") (message "CERTIFIER_REQUIRED")
    pending ← load env request_id (missing "Tokenization request " request_id)
    ensure (is_text "PENDING" (get "status" pending)) (message "TOKENIZATION_NOT_PENDING")
    let request = approve pending
    put_state request_id request
    batch ← load_at env (get "batchId" request) (missing "Batch ")
    ensure
        (is_text "VERIFIED" (get "rwaStatus" batch)
          && is_text request_id (get "pendingTokenizationId" batch))
        (message "VERIFIED_BACKING_REQUIRED")
    batch' ← lift (
        push_onto "history"
          (log_entry env "TokenizationApproved" (
            join (
              "Tokenization request "
              ∷ request_id
              ∷ " approved for "
              ∷ show env (get "quantity" request)
              ∷ " kg"
              ∷ [])))
          batch)
    put_state (show env (get "batchId" request)) batch'
    set_event "TokenizationRequested" (
        object (
          ("requestId", str request_id)
          ∷ ("batchId", get "batchId" request)
          ∷ ("quantity", get "quantity" request)
          ∷ ("warehouseId", get "warehouseId" request)
          ∷ []))
    pure (obj request)

  -- completeTokenization repeated with the transaction that the request already names.
  unfoldable pub repeated : Fields → Exec Value
  repeated request = do
    batch ← load_at env (get "batchId" request) (λ k. syntax_error)
    pure (outcome request batch)

  -- completeTokenization after the request is read: the acknowledgment of an approved request.
  unfoldable pub acknowledge :
      (request_id ethereum_transaction_id : String) (approved : Fields) → Exec Value
  acknowledge request_id ethereum_transaction_id approved = do
    ensure (is_text "APPROVED" (get "status" approved))
        (about "Tokenization request " request_id " is not in APPROVED status")
    let request = complete ethereum_transaction_id approved
    put_state request_id request
    batch ← load_at env (get "batchId" request) (missing "Batch ")
    batch' ← lift (
        push_onto "history"
          (log_entry env "TokenizationCompleted" (
            join (
              "Tokenization completed on Ethereum with transaction " ∷ ethereum_transaction_id
              ∷ [])))
          (tokenize ethereum_transaction_id (get "quantity" request) batch))
    put_state (show env (get "batchId" request)) batch'
    pure (outcome request batch')

  unfoldable pub complete_tokenization : (request_id ethereum_transaction_id : String) → Exec Value
  complete_tokenization request_id ethereum_transaction_id = do
    ensure (env.has_attribute "sfc.role" "bridge") (message "BRIDGE_REQUIRED")
    ensure (is_hex_word 64 ethereum_transaction_id) (message "INVALID_ETHEREUM_RECEIPT")
    request ← load env request_id (missing "Tokenization request " request_id)
    if is_text "COMPLETED" (get "status" request)
          && is_text ethereum_transaction_id (get "ethereumTransactionId" request)
        then repeated request
        else acknowledge request_id ethereum_transaction_id request
