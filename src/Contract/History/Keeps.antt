-- ===== src/Contract/History/Keeps.antt =====
-- Every transaction commits a change that keeps the records sorted.
use sustainable_fashion_chai.Prelude.{String, ◌≡◌, sym, subst, Option, some, [], fun_ext}
use sustainable_fashion_chai.Number.{Number}
use sustainable_fashion_chai.Json.{Fields}
use sustainable_fashion_chai.Fabric.{Stored, document, Env}
use sustainable_fashion_chai.Fabric.Returns.{Returns, outcome_of}
use sustainable_fashion_chai.Fabric.Ledger.{Ledger}
use sustainable_fashion_chai.Contract.Records.{IsBatch, Sorted, Advance, Authority}
use sustainable_fashion_chai.Contract.Changes.{Committed}
use sustainable_fashion_chai.Contract.Changes.Commit.{Committed-Sorted, Committed-Advance, after}
use sustainable_fashion_chai.Contract.Products.Effects.{
  register_product-Committed, transfer_custody-Committed, update_status-Committed,
  add_certification-Committed, create_finished_product-Committed,
}
use sustainable_fashion_chai.Contract.Cotton.Effects.{
  register_cotton_batch-Committed, verify_cotton_batch-Committed, store_cotton_batch-Committed,
}
use sustainable_fashion_chai.Contract.Tokenization.Effects.{
  request_tokenization-Committed, approve_tokenization_request-Committed,
}
use sustainable_fashion_chai.Contract.Tokenization.Completion.{complete_tokenization-Committed}
use sustainable_fashion_chai.Contract.Nft.Effects.{
  request_nft_minting-Committed, mint_nft-Committed, record_recycling-Committed,
}
use sustainable_fashion_chai.Contract.Queries.Effects.{
  query_product-Committed, query_products_by_type-Committed, query_all_batches-Committed,
  query_all_products-Committed, get_tokenization_request-Committed,
  query_pending_tokenization_requests-Committed, query_approved_tokenization_requests-Committed,
}
use sustainable_fashion_chai.Contract.History.{
  Call, register_product, transfer_custody, update_status, add_certification, register_cotton_batch,
  verify_cotton_batch, store_cotton_batch, request_tokenization, approve_tokenization_request,
  complete_tokenization, request_nft_minting, mint_nft, record_recycling, create_finished_product,
  query_product, query_products_by_type, query_all_batches, query_all_products,
  get_tokenization_request, query_pending_tokenization_requests,
  query_approved_tokenization_requests, invoke, HasKey, Step,
}

invoke-Committed :
    (env : Env) (call : Call)
    → Sorted env.read
    → HasKey call
    → Returns (λ _ w. Committed env.has_attribute env.read w) [] (invoke env call)
unfolding invoke
invoke-Committed env (register_product a b c d e f) s k =
    register_product-Committed env s a b c d e f
invoke-Committed env (transfer_custody a b c d) s k = transfer_custody-Committed env s a b c d
invoke-Committed env (update_status a b c d) s k = update_status-Committed env s a b c d
invoke-Committed env (add_certification a b c d e) s k = add_certification-Committed env s a b c d e
invoke-Committed env (register_cotton_batch a b c d e f g) s k =
    register_cotton_batch-Committed env a b c d e f g
invoke-Committed env (verify_cotton_batch a b) s k = verify_cotton_batch-Committed env s a b
invoke-Committed env (store_cotton_batch a b) s k = store_cotton_batch-Committed env s a b
invoke-Committed env (request_tokenization a b c d) s k =
    request_tokenization-Committed env s a b c d k
invoke-Committed env (approve_tokenization_request a) s k =
    approve_tokenization_request-Committed env s a
invoke-Committed env (complete_tokenization a b) s k = complete_tokenization-Committed env s a b
invoke-Committed env (request_nft_minting a b c) s k = request_nft_minting-Committed env s a b c
invoke-Committed env (mint_nft a b) s k = mint_nft-Committed env s a b
invoke-Committed env (record_recycling a b c) s k = record_recycling-Committed env s a b c
invoke-Committed env (create_finished_product a b c d e) s k =
    create_finished_product-Committed env s a b c d e
invoke-Committed env (query_product a) s k = query_product-Committed env a
invoke-Committed env (query_products_by_type a) s k = query_products_by_type-Committed env a
invoke-Committed env query_all_batches s k = query_all_batches-Committed env
invoke-Committed env query_all_products s k = query_all_products-Committed env
invoke-Committed env (get_tokenization_request a) s k = get_tokenization_request-Committed env a
invoke-Committed env query_pending_tokenization_requests s k =
    query_pending_tokenization_requests-Committed env
invoke-Committed env query_approved_tokenization_requests s k =
    query_approved_tokenization_requests-Committed env

module _ (ledger : Ledger) {s t : ledger.State} where
  Step-Committed :
      (step : Step ledger s t)
      → Sorted (ledger.get_state s)
      → Committed step.env.has_attribute (ledger.get_state s) step.writes
  Step-Committed step sorted = rw step.reads at (
      outcome_of (invoke-Committed step.env step.call (rw step.reads sorted) step.keyed)
        step.returned)

  after_step :
      (step : Step ledger s t) → after (ledger.get_state s) step.writes ≡ ledger.get_state t
  after_step step = fun_ext λ k. sym (rw step.committed (ledger.get_state-commit s step.writes k))

  pub Step-Sorted : Step ledger s t → Sorted (ledger.get_state s) → Sorted (ledger.get_state t)
  Step-Sorted step sorted =
      rw (after_step step) at (Committed-Sorted (Step-Committed step sorted) sorted)

  pub Step-Advance :
      (step : Step ledger s t)
      → Sorted (ledger.get_state s)
      → (b : String) (q : Number) (c : Fields) → ledger.get_state s b ≡ some (document c)
      → IsBatch b q c
      → (c' : Fields) × (ledger.get_state t b ≡ some (document c'))
        × Advance b q c c'
        × Authority step.env.has_attribute c c'
  Step-Advance step sorted b q c found h =
      subst
        (λ (read : String → Option Stored).
          (c' : Fields) × (read b ≡ some (document c'))
          × Advance b q c c'
          × Authority step.env.has_attribute c c')
        (after_step step) (Committed-Advance (Step-Committed step sorted) b q c found h)
