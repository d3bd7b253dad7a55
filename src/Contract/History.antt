-- ===== src/Contract/History.antt =====
-- The transactions of fabric/chaincode/supplychain/index.js as calls, and the world states that
-- sequences of them reach. A call whose transaction throws commits nothing.
pub mod Keeps
pub mod Results
mod Tests
use sustainable_fashion_chai.Prelude.{String, ◌≡◌, ◌≢◌, List, []}
use sustainable_fashion_chai.Json.{Value}
use sustainable_fashion_chai.Fabric.{Result, ok, Effect, Env, Exec}
use sustainable_fashion_chai.Fabric.Ledger.{Ledger}
use sustainable_fashion_chai.Contract.Products
use sustainable_fashion_chai.Contract.Cotton
use sustainable_fashion_chai.Contract.Tokenization
use sustainable_fashion_chai.Contract.Nft
use sustainable_fashion_chai.Contract.Queries

pub data Call : Type 0 where
  register_product : (id kind origin timestamp certifications metadata : String) → Call
  transfer_custody : (id new_holder timestamp location : String) → Call
  update_status : (id new_status timestamp additional : String) → Call
  add_certification : (id cert_type cert_id issuer timestamp : String) → Call
  register_cotton_batch :
      (id farm_id quantity organic fair_trade harvest_date location : String) → Call
  verify_cotton_batch : (id certification_hash : String) → Call
  store_cotton_batch : (id warehouse_id : String) → Call
  request_tokenization : (request_id batch_id quantity warehouse_id : String) → Call
  approve_tokenization_request : (request_id : String) → Call
  complete_tokenization : (request_id ethereum_transaction_id : String) → Call
  request_nft_minting : (product_id recipient metadata_uri : String) → Call
  mint_nft : (product_id nft_token_id : String) → Call
  record_recycling : (product_id nft_token_id ethereum_tx : String) → Call
  create_finished_product :
      (product_id product_type manufacturer batch_ids product_date : String) → Call
  query_product : (id : String) → Call
  query_products_by_type : (kind : String) → Call
  query_all_batches : Call
  query_all_products : Call
  get_tokenization_request : (request_id : String) → Call
  query_pending_tokenization_requests : Call
  query_approved_tokenization_requests : Call

unfoldable pub invoke : Env → Call → Exec Value
invoke env (register_product id kind origin timestamp certifications metadata) =
    Products.register_product env id kind origin timestamp certifications metadata
invoke env (transfer_custody id new_holder timestamp location) =
    Products.transfer_custody env id new_holder timestamp location
invoke env (update_status id new_status timestamp additional) =
    Products.update_status env id new_status timestamp additional
invoke env (add_certification id cert_type cert_id issuer timestamp) =
    Products.add_certification env id cert_type cert_id issuer timestamp
invoke env (register_cotton_batch id farm_id quantity organic fair_trade harvest_date location) =
    Cotton.register_cotton_batch env id farm_id quantity organic fair_trade harvest_date location
invoke env (verify_cotton_batch id certification_hash) =
    Cotton.verify_cotton_batch env id certification_hash
invoke env (store_cotton_batch id warehouse_id) = Cotton.store_cotton_batch env id warehouse_id
invoke env (request_tokenization request_id batch_id quantity warehouse_id) =
    Tokenization.request_tokenization env request_id batch_id quantity warehouse_id
invoke env (approve_tokenization_request request_id) =
    Tokenization.approve_tokenization_request env request_id
invoke env (complete_tokenization request_id ethereum_transaction_id) =
    Tokenization.complete_tokenization env request_id ethereum_transaction_id
invoke env (request_nft_minting product_id recipient metadata_uri) =
    Nft.request_nft_minting env product_id recipient metadata_uri
invoke env (mint_nft product_id nft_token_id) = Nft.mint_nft env product_id nft_token_id
invoke env (record_recycling product_id nft_token_id ethereum_tx) =
    Nft.record_recycling env product_id nft_token_id ethereum_tx
invoke env (create_finished_product product_id product_type manufacturer batch_ids product_date) =
    Products.create_finished_product env product_id product_type manufacturer batch_ids product_date
invoke env (query_product id) = Queries.query_product env id
invoke env (query_products_by_type kind) = Queries.query_products_by_type env kind
invoke env query_all_batches = Queries.query_all_batches env
invoke env query_all_products = Queries.query_all_products env
invoke env (get_tokenization_request request_id) = Queries.get_tokenization_request env request_id
invoke env query_pending_tokenization_requests = Queries.query_pending_tokenization_requests env
invoke env query_approved_tokenization_requests = Queries.query_approved_tokenization_requests env

-- The platform stores nothing under an empty key; the other creating calls test their key
-- themselves, or make a record that nothing refers to.
abbrev pub HasKey : Call → Type 0
HasKey (request_tokenization request_id batch_id quantity warehouse_id) = request_id ≢ ""
HasKey _ = Unit

-- One committed transaction: it reads the state `s`, returns, and its writes are committed.
pub record Step (ledger : Ledger) (s t : ledger.State) : Type 0 where
  pub env : Env
  pub call : Call
  pub reply : Value
  pub writes : List Effect
  pub keyed : HasKey call
  pub reads : env.read ≡ ledger.get_state s
  pub returned : invoke env call [] ≡ ok (reply, writes)
  pub committed : t ≡ ledger.commit s writes

pub data Reach (ledger : Ledger) (s : ledger.State) : ledger.State → Type 0 where
  here : Reach ledger s s
  next : {t u : ledger.State} → Reach ledger s t → Step ledger t u → Reach ledger s u
