-- ===== src/Bridge/Relay.antt =====
-- VerifiedRelay.relay of bridging/verified-relay.js. A missing text of the event is the empty text,
-- which is how the source reads it. `parse_ether` is ethers.parseEther(String(quantity)); `none`
-- means that it throws. An error keeps what was done before it: the mint may have been mined.
pub mod Replies
pub mod Retries
mod Tests
use Prim.Native.Char.{code}
use Prim.Native.String
use sustainable_fashion_chai.Prelude.{
  ℕ, ◌+◌, String, Bool, true, false, not, ◌&&◌, ◌||◌, Option, none, some, List, [], ◌∷◌, ◌==◌, map,
  codes, is_hex_word, zero, suc, ◌⊎◌, inl, inr, leb, nat_eq, ℤ, pos, negsuc, if◌then◌else◌,
}
use sustainable_fashion_chai.Fabric.{Error, message}
use sustainable_fashion_chai.Bridge.Services.{
  Receipt, MintLog, Mint, MintResult, refused, mined, unconfirmed, Token, Gateway,
}

pub record BridgeEvent : Type 0 where
  pub fabric_tx_id : String
  pub request_id : String
  pub batch_id : String
  pub warehouse_id : String
  -- ethers.parseEther(String(quantity)), unless it throws
  pub amount : Option ℤ

pub record Relayed : Type 0 where
  pub transaction_hash : String
  pub event_id : String
  pub reconciled : Bool

pub data Answer : Type 0 where
  relayed : Relayed → Answer
  failed : Error → Answer

-- fabricTxId.replace(/^0x/, '')
unfoldable pub strip_prefix : String → String
strip_prefix (String.◌∷◌ a (String.◌∷◌ b s)) =
    if nat_eq (code a) b'0' && nat_eq (code b) b'x' then s else String.◌∷◌ a (String.◌∷◌ b s)
strip_prefix s = s

unfoldable pub with_prefix : String → String
unfolding strip_prefix
with_prefix s = String.◌++◌ "0x" (strip_prefix s)

abbrev lower : ℕ → ℕ
lower c = if leb b'A' c && leb c b'Z' then c + 32 else c

abbrev same_codes : List ℕ → List ℕ → Bool
same_codes [] [] = true
same_codes (a ∷ as_) (b ∷ bs) = nat_eq a b && same_codes as_ bs
same_codes _ _ = false

-- a.toLowerCase() === b.toLowerCase(), of addresses, which are ASCII
unfoldable pub same_address : String → String → Bool
same_address a b = same_codes (map lower (codes a)) (map lower (codes b))

module _ (token : Token) (gateway : Gateway) where
  pub record World : Type 0 where
    pub chain : token.State
    pub fabric : gateway.State

  -- The acknowledgment, the last step of both paths.
  unfoldable pub acknowledge : World → String → Relayed → Answer × World
  acknowledge w request_id r =
      let (returned, fabric') =
        gateway.complete_tokenization w.fabric request_id r.transaction_hash in
      (
        if returned then relayed r else failed (message "ACKNOWLEDGMENT_FAILED"),
        record w { fabric = fabric' },
      )

  -- The checks of the one log's receipt, in a replay.
  unfoldable pub mined_receipt : token.State → Option Receipt → Error ⊎ Receipt
  mined_receipt chain none = inl (message "MISSING_MINED_RECEIPT")
  mined_receipt chain (some r) =
      if not (nat_eq r.status 1)
      then inl (message "MISSING_MINED_RECEIPT")
      else if token.wait_for_transaction chain r.hash
      then inr r
      else inl (message "CONFIRMATIONS_NOT_REACHED")

  -- The receipt that a replay recovers from the token's logs.
  unfoldable pub recover : token.State → String → List MintLog → Error ⊎ Receipt
  unfolding mined_receipt
  recover chain recipient (log ∷ []) =
      if same_address log.recipient recipient
      then mined_receipt chain log.receipt
      else inl (message "REPLAY_RECONCILIATION_MISMATCH")
  recover chain recipient _ = inl (message "REPLAY_RECONCILIATION_MISMATCH")

  abbrev pub replayed : World → String → String → Error ⊎ Receipt → Answer × World
  replayed w request_id event_id (inl e) = (failed e, w)
  replayed w request_id event_id (inr r) =
      acknowledge w request_id
        (record { transaction_hash = r.hash; event_id = event_id; reconciled = true })

  abbrev pub minted : World → String → String → MintResult token.State → Answer × World
  minted w request_id event_id refused = (failed (message "MINT_REFUSED"), w)
  minted w request_id event_id (unconfirmed chain') =
      (failed (message "MINT_NOT_CONFIRMED"), record w { chain = chain' })
  minted w request_id event_id (mined chain' r) =
      if nat_eq r.status 1
      then acknowledge (record w { chain = chain' }) request_id
          (record { transaction_hash = r.hash; event_id = event_id; reconciled = false })
      else (failed (message "MINT_NOT_CONFIRMED"), record w { chain = chain' })

  -- The relay once the event is checked and its id is known.
  unfoldable pub settle : Mint → String → World → Answer × World
  unfolding acknowledge recover
  settle m request_id w =
      let event_id = token.event_id_for m.fabric_tx_id m.batch_id m.amount in
      if token.processed_events w.chain event_id
      then replayed w request_id event_id
          (recover w.chain m.recipient (token.minted_logs w.chain event_id))
      else minted w request_id event_id (token.mint_verified_batch w.chain m)

  abbrev pub positive_amount : Option ℤ → Error ⊎ ℕ
  positive_amount none = inl (message "INVALID_ETHER_VALUE")
  positive_amount (some (pos zero)) = inl (message "INVALID_BRIDGE_AMOUNT")
  positive_amount (some (pos (suc n))) = inr (suc n)
  positive_amount (some (negsuc n)) = inl (message "INVALID_BRIDGE_AMOUNT")

  abbrev pub settle_amount : BridgeEvent → String → World → Error ⊎ ℕ → Answer × World
  settle_amount event recipient w (inl e) = (failed e, w)
  settle_amount event recipient w (inr amount) =
      settle
        (record {
          fabric_tx_id = with_prefix event.fabric_tx_id;
          batch_id = event.batch_id;
          amount = amount;
          warehouse_id = event.warehouse_id;
          recipient = recipient;
        })
        event.request_id w

  unfoldable pub relay : BridgeEvent → String → World → Answer × World
  unfolding settle
  relay event recipient w =
      if not (is_hex_word 64 (with_prefix event.fabric_tx_id))
      then (failed (message "MISSING_FABRIC_TX"), w)
      else if event.request_id == "" || event.batch_id == "" || event.warehouse_id == ""
      then (failed (message "INVALID_BRIDGE_EVENT"), w)
      else settle_amount event recipient w (positive_amount event.amount)
