-- ===== src/Bridge/Services.antt =====
-- The two services that the relay calls, behind what it relies on: the COT token on Ethereum, as
-- ethers presents it, and the gateway to the Fabric contract.
use sustainable_fashion_chai.Prelude.{ℕ, String, ◌≡◌, ◌⊎◌, Bool, true, false, Option, List, [], ◌∷◌}

pub record Receipt : Type 0 where
  pub hash : String
  pub status : ℕ

-- A VerifiedEventMinted log, with the receipt of its transaction as the node returns it.
pub record MintLog : Type 0 where
  pub recipient : String
  pub receipt : Option Receipt

pub record Mint : Type 0 where
  pub fabric_tx_id : String
  pub batch_id : String
  pub amount : ℕ
  pub warehouse_id : String
  pub recipient : String

-- mintVerifiedBatch and tx.wait: the call throws, or the wait returns a receipt, or null.
pub data MintResult (State : Type 0) : Type 0 where
  refused : MintResult State
  mined : State → Receipt → MintResult State
  unconfirmed : State → MintResult State

pub record Token : Type 1 where
  pub State : Type 0
  pub event_id_for : String → String → ℕ → String
  pub processed_events : State → String → Bool
  -- queryFilter(filters.VerifiedEventMinted(eventId)), with getTransactionReceipt of each log
  pub minted_logs : State → String → List MintLog
  pub mint_verified_batch : State → Mint → MintResult State
  -- provider.waitForTransaction(hash, confirmations) returns
  pub wait_for_transaction : State → String → Bool
  -- A mined mint was of an event not processed before; it is processed then, with one log.
  pub mined_processed :
      (s : State) (m : Mint) (t : State) (r : Receipt)
      → mint_verified_batch s m ≡ mined t r
      → r.status ≡ 1
      → (processed_events s (event_id_for m.fabric_tx_id m.batch_id m.amount) ≡ false)
        × (processed_events t (event_id_for m.fabric_tx_id m.batch_id m.amount) ≡ true)
        × (minted_logs t (event_id_for m.fabric_tx_id m.batch_id m.amount)
            ≡ record { recipient = m.recipient; receipt = Option.some r } ∷ [])
  -- A mint that was not confirmed as successful changed nothing, or its event is processed.
  pub mined_reverted :
      (s : State) (m : Mint) (t : State) (r : Receipt)
      → mint_verified_batch s m ≡ mined t r
      → (t ≡ s) ⊎ (processed_events t (event_id_for m.fabric_tx_id m.batch_id m.amount) ≡ true)
  pub unconfirmed_processed :
      (s : State) (m : Mint) (t : State)
      → mint_verified_batch s m ≡ unconfirmed t
      → (t ≡ s) ⊎ (processed_events t (event_id_for m.fabric_tx_id m.batch_id m.amount) ≡ true)

-- submitTransaction('completeTokenization', requestId, hash): whether it returns, and the state
-- that it leaves; an acknowledgment may be lost, so a call that throws may have been committed.
pub record Gateway : Type 1 where
  pub State : Type 0
  pub complete_tokenization : State → String → String → Bool × State
