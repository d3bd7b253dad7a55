-- ===== src/Contract/Nft.antt =====
-- requestNFTMinting, mintNFT and recordRecycling of fabric/chaincode/supplychain/index.js.
pub mod Effects
use sustainable_fashion_chai.Prelude.{
  String, not, ◌&&◌, [], ◌∷◌, ◌==◌, join, is_hex_word, is_token_numeral, if◌then◌else◌,
}
use sustainable_fashion_chai.Json.{
  Value, str, arr, obj, nil, Fields, get, set, object, assign, truthy, is_text, or_else,
}
use sustainable_fashion_chai.Fabric.{
  message, Env, Exec, ◌>>=◌, ◌>>◌, pure, ensure, lift, put_state, set_event, load,
}
use sustainable_fashion_chai.Contract.{push_onto, about, missing}
use sustainable_fashion_chai.Contract.Cotton.{log_entry}

module _ (env : Env) where
  unfoldable pub request_nft_minting : (product_id recipient metadata_uri : String) → Exec Value
  request_nft_minting product_id recipient metadata_uri = do
    product ← load env product_id (missing "Product " product_id)
    ensure (is_text "FINISHED" (get "status" product) && not (truthy (get "nftTokenId" product)))
        (about "Product " product_id " must be finished and not already minted")
    ensure (is_hex_word 40 recipient && not (metadata_uri == ""))
        (message "A valid recipient and metadata URI are required")
    let pending = set "status" (str "NFT_MINT_PENDING") product
    put_state product_id pending
    set_event "NFTMintingRequested" (
        object (
          ("productId", str product_id)
          ∷ ("productType", get "type" pending)
          ∷ ("manufacturer", get "manufacturer" pending)
          ∷ ("cottonBatchIds", get "batchIDs" pending)
          ∷ ("recipient", str recipient)
          ∷ ("metadataURI", str metadata_uri)
          ∷ []))
    pure (obj pending)

  -- mintNFT on a product that does not yet hold this token.
  unfoldable pub mint : (product_id nft_token_id : String) (product : Fields) → Exec Value
  mint product_id nft_token_id product = do
    ensure
        (not (truthy (get "nftTokenId" product))
          && is_text "NFT_MINT_PENDING" (get "status" product))
        (message "NFT_ACKNOWLEDGMENT_MISMATCH")
    product' ← lift (
        push_onto "history"
          (log_entry env "NFTMinted"
            (join ("NFT minted on Ethereum with token ID " ∷ nft_token_id ∷ [])))
          (assign
            (("nftTokenId", str nft_token_id)
              ∷ ("status", str "TOKENIZED")
              ∷ ("history", or_else (get "history" product) (arr nil))
              ∷ [])
            product))
    put_state product_id product'
    pure (obj product')

  unfoldable pub mint_nft : (product_id nft_token_id : String) → Exec Value
  mint_nft product_id nft_token_id = do
    ensure (env.has_attribute "sfc.role" "bridge") (message "BRIDGE_REQUIRED")
    ensure (is_token_numeral nft_token_id) (message "INVALID_NFT_TOKEN_ID")
    product ← load env product_id (missing "Product " product_id)
    if is_text nft_token_id (get "nftTokenId" product)
        then pure (obj product)
        else mint product_id nft_token_id product

  -- recordRecycling on a product that holds the token and not yet this transaction.
  unfoldable pub recycle : (product_id ethereum_tx : String) (product : Fields) → Exec Value
  recycle product_id ethereum_tx product = do
    ensure (is_text "TOKENIZED" (get "status" product) && not (truthy (get "recyclingTx" product)))
        (message "INVALID_RECYCLING_TRANSITION")
    product' ← lift (
        push_onto "history" (log_entry env "RecyclingInitiated" ethereum_tx) (
          assign (("status", str "RECYCLING_INITIATED") ∷ ("recyclingTx", str ethereum_tx) ∷ [])
            product))
    put_state product_id product'
    pure (obj product')

  unfoldable pub record_recycling : (product_id nft_token_id ethereum_tx : String) → Exec Value
  record_recycling product_id nft_token_id ethereum_tx = do
    ensure (env.has_attribute "sfc.role" "bridge") (message "BRIDGE_REQUIRED")
    ensure (is_hex_word 64 ethereum_tx) (message "INVALID_ETHEREUM_TRANSACTION")
    product ← load env product_id (message "PRODUCT_NOT_FOUND")
    ensure (truthy (get "nftTokenId" product) && is_text nft_token_id (get "nftTokenId" product))
        (message "NFT_ACKNOWLEDGMENT_MISMATCH")
    if is_text ethereum_tx (get "recyclingTx" product)
        then pure (obj product)
        else recycle product_id ethereum_tx product
