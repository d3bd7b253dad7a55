-- ===== src/Bridge/Nft.antt =====
-- ProductNFT of ethereum/contracts/ProductNFT.sol, as far as the bridge uses it, and the bridge's
-- NFT handlers, processNFTMintingTransaction and handleProductRecycled of bridging/bridge.js. The
-- roles, the accounts and whether a transaction goes through are parameters; nobody else changes
-- the contract while a handler runs.
pub mod Unique
pub mod Backed
pub mod Recycled
mod Tests
use sustainable_fashion_chai.Prelude.{
  ℕ, ◌+◌, String, Bool, true, false, not, ◌&&◌, ◌||◌, Option, none, some, List, [], ◌∷◌, ◌==◌,
  length, decimal, nat_eq, if◌then◌else◌,
}
use sustainable_fashion_chai.Fabric.{message, Result, ok, err}
use sustainable_fashion_chai.Bridge.Services.{Receipt}
use sustainable_fashion_chai.Bridge.Relay.{same_address}

-- What the contract keeps of a token and the bridge reads, with the account that it was minted to,
-- the hash of the transaction that minted it, and those of its ProductRecycled logs.
pub record Product : Type 0 where
  pub fabric_product_id : String
  pub product_type : String
  pub manufacturer : String
  pub metadata_uri : String
  pub minted_to : String
  pub mint_hash : String
  pub recycled : Bool
  pub recycle_logs : List String

-- The tokens, the newest first; the first minted has the id 1.
abbrev pub Nft : Type 0
Nft = List Product

-- fabricToTokenId[id], where 0 is none
unfoldable pub fabric_to_token_id : String → Nft → ℕ
fabric_to_token_id id [] = 0
fabric_to_token_id id (p ∷ ps) =
    let older = fabric_to_token_id id ps in
    if p.fabric_product_id == id then length ps + 1 else older

-- productData[tokenId], for a token that there is
unfoldable pub product_data : ℕ → Nft → Option Product
product_data token_id [] = none
product_data token_id (p ∷ ps) =
    let older = product_data token_id ps in
    if nat_eq token_id (length ps + 1) then some p else older

-- mintProduct, called by an account with or without the role; `accepts` is whether _safeMint goes
-- through.
unfoldable pub mint_product : (minter accepts : Bool) → Product → Nft → Result Nft
unfolding fabric_to_token_id
mint_product minter accepts p nft =
    if not minter
    then err (message "ProductNFT: must have minter role to mint")
    else if p.fabric_product_id == ""
    then err (message "ProductNFT: fabric product ID cannot be empty")
    else if p.metadata_uri == ""
    then err (message "ProductNFT: metadata URI cannot be empty")
    else if not (nat_eq (fabric_to_token_id p.fabric_product_id nft) 0)
    then err (message "ProductNFT: fabric product ID already used")
    else if not accepts
    then err (message "ERC721: transfer to non ERC721Receiver implementer")
    else ok (p ∷ nft)

-- The transaction as the queue holds it; a missing text is the empty one.
pub record Request : Type 0 where
  pub product_id : String
  pub fabric_product_id : String
  pub product_type : String
  pub manufacturer : String
  pub metadata_uri : String
  pub recipient : String

-- What becomes of a mint that is sent: it is refused; or it is mined with this hash, and tx.wait
-- gives its receipt, or not.
pub data Sending : Type 0 where
  refused : Sending
  mined : (hash : String) (confirmed : Bool) → Sending

-- ethers.isAddress, the role of the bridge's account, whether a mint is accepted,
-- getTransactionReceipt, whether waitForTransaction returns, and submitTransaction of 'mintNFT'
-- and of 'recordRecycling': whether it returns, and the state that it leaves.
pub record Env : Type 1 where
  pub Fabric : Type 0
  pub is_address : String → Bool
  pub minter : Bool
  pub accepts : Product → Bool
  pub receipt : String → Option Receipt
  pub wait : String → Bool
  pub mint_nft : String → String → Fabric → Bool × Fabric
  pub record_recycling : String → String → String → Fabric → Bool × Fabric

pub record Minted : Type 0 where
  pub token_id : ℕ
  pub transaction_hash : String

module _ (env : Env) where
  pub record World : Type 0 where
    pub nft : Nft
    pub fabric : env.Fabric

  abbrev pub Step : Type 0 → Type 0
  Step A = World → Result A × World

  -- a || b, for texts
  abbrev pub or_text : String → String → String
  or_text a b = if a == "" then b else a

  abbrev pub product_of : Request → String → Product
  product_of req hash = record {
    fabric_product_id = or_text req.fabric_product_id req.product_id;
    product_type = req.product_type;
    manufacturer = req.manufacturer;
    metadata_uri = req.metadata_uri;
    minted_to = req.recipient;
    mint_hash = hash;
    recycled = false;
    recycle_logs = [];
  }

  -- The checks of the token that stands for the product.
  abbrev pub matches : Request → Product → Bool
  matches req p =
      same_address p.minted_to req.recipient
      && p.metadata_uri == req.metadata_uri
      && p.fabric_product_id == or_text req.fabric_product_id req.product_id
      && p.product_type == req.product_type
      && p.manufacturer == req.manufacturer

  abbrev pub acknowledged : Minted → World → Bool × env.Fabric → Result Minted × World
  acknowledged m w (true, fabric') = (ok m, record w { fabric = fabric' })
  acknowledged m w (false, fabric') =
      (err (message "ACKNOWLEDGMENT_FAILED"), record w { fabric = fabric' })

  abbrev pub settle_receipt : Request → ℕ → Option Receipt → Step Minted
  settle_receipt req token_id none w = (err (message "NFT_MINT_NOT_CONFIRMED"), w)
  settle_receipt req token_id (some r) w =
      if not (nat_eq r.status 1)
      then (err (message "NFT_MINT_NOT_CONFIRMED"), w)
      else if env.wait r.hash
      then acknowledged (record { token_id = token_id; transaction_hash = r.hash }) w
          (env.mint_nft req.product_id (decimal token_id) w.fabric)
      else (err (message "CONFIRMATIONS_NOT_REACHED"), w)

  abbrev pub settle_product : Request → ℕ → Option Product → Step Minted
  settle_product req token_id none w = (err (message "NFT_RECONCILIATION_MISMATCH"), w)
  settle_product req token_id (some p) w =
      if matches req p
      then settle_receipt req token_id (env.receipt p.mint_hash) w
      else (err (message "NFT_RECONCILIATION_MISMATCH"), w)

  -- From the validation of the mint to the end.
  unfoldable pub settle : Request → Step Minted
  unfolding product_data
  settle req w =
      let token_id = fabric_to_token_id (or_text req.fabric_product_id req.product_id) w.nft in
      settle_product req token_id (product_data token_id w.nft) w

  abbrev pub after_mint : Request → Bool → Result Nft → Step Minted
  after_mint req confirmed (err e) w = (err e, w)
  after_mint req true (ok nft') w = settle req (record w { nft = nft' })
  after_mint req false (ok nft') w =
      (err (message "NFT_MINT_NOT_CONFIRMED"), record w { nft = nft' })

  abbrev pub send_mint : Request → Sending → Step Minted
  send_mint req refused w = (err (message "NFT_MINT_REFUSED"), w)
  send_mint req (mined hash confirmed) w =
      after_mint req confirmed
        (mint_product env.minter (env.accepts (product_of req hash)) (product_of req hash) w.nft) w

  abbrev pub is_valid : Request → Bool
  is_valid req =
      let id = or_text req.fabric_product_id req.product_id in
      not (id == "") && id == req.product_id && env.is_address req.recipient

  unfoldable pub process_nft_minting : Request → Sending → Step Minted
  unfolding settle mint_product
  process_nft_minting req sending w =
      let id = or_text req.fabric_product_id req.product_id in
      if not (is_valid req)
      then (err (message "INVALID_NFT_EVENT"), w)
      else if nat_eq (fabric_to_token_id id w.nft) 0
      then send_mint req sending w
      else settle req w

  abbrev pub recorded : World → Bool × env.Fabric → Result (Unit {0}) × World
  recorded w (true, fabric') = (ok tt, record w { fabric = fabric' })
  recorded w (false, fabric') =
      (err (message "ACKNOWLEDGMENT_FAILED"), record w { fabric = fabric' })

  abbrev pub recycle_receipt : ℕ → Product → Option Receipt → Step (Unit {0})
  recycle_receipt token_id p none w = (err (message "RECYCLING_NOT_CONFIRMED"), w)
  recycle_receipt token_id p (some r) w =
      if not (nat_eq r.status 1)
      then (err (message "RECYCLING_NOT_CONFIRMED"), w)
      else if env.wait r.hash
      then recorded w (env.record_recycling p.fabric_product_id (decimal token_id) r.hash w.fabric)
      else (err (message "CONFIRMATIONS_NOT_REACHED"), w)

  abbrev pub recycle_logged : ℕ → Product → List String → Step (Unit {0})
  recycle_logged token_id p (hash ∷ []) w = recycle_receipt token_id p (env.receipt hash) w
  recycle_logged token_id p _ w = (err (message "RECYCLING_RECEIPT_MISMATCH"), w)

  -- A token that there is not has the product data of no recycled product.
  abbrev pub recycle_product : ℕ → Option Product → Step (Unit {0})
  recycle_product token_id none w = (err (message "PRODUCT_NOT_RECYCLED"), w)
  recycle_product token_id (some p) w =
      if not p.recycled
      then (err (message "PRODUCT_NOT_RECYCLED"), w)
      else recycle_logged token_id p p.recycle_logs w

  unfoldable pub handle_product_recycled : ℕ → Step (Unit {0})
  unfolding product_data
  handle_product_recycled token_id w = recycle_product token_id (product_data token_id w.nft) w
