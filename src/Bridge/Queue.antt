-- ===== src/Bridge/Queue.antt =====
-- The queue of VerifiedBridge in bridging/bridge.js: its settings, its retry queue, its statistics.
-- A transaction is a JSON object. Between two awaits the code runs alone, so processBatch is three
-- kinds of steps: `process_batch` takes a batch up to its first await, `settle_action` goes on when
-- the first open action returns or throws, and `finish_batch` ends the batch.
pub mod Account
pub mod Conserves
pub mod Drain
pub mod Uninterrupted
mod Tests
use sustainable_fashion_chai.Prelude.{
  ℕ, ◌+◌, ◌-◌, String, Bool, true, false, not, ◌&&◌, ◌||◌, Option, none, some, List, [], ◌∷◌, ◌++◌,
  leb, nat_eq, join, ℤ, pos, negsuc, less_int, if◌then◌else◌, zero, suc,
}
use sustainable_fashion_chai.Json.{Value, str, Fields, get, set, is_text}
use sustainable_fashion_chai.Fabric.{Error, message, Result, ok, err}
use sustainable_fashion_chai.Bridge.Oracle.{is_safe_integer}

-- A key of the settings given: left out, or a value, `none` if it is no integer.
pub data Setting : Type 0 where
  left_out : Setting
  given : Option ℤ → Setting

pub record Config : Type 0 where
  pub batch_size : ℕ
  pub batch_timeout_ms : ℕ
  pub required_confirmations : ℕ

abbrev pub setting_or : ℕ → Setting → Option ℤ
setting_or default left_out = some (pos default)
setting_or default (given v) = v

-- A safe integer above 0.
abbrev pub positive_setting : String → Option ℤ → Result ℕ
positive_setting key (some (pos (suc n))) =
    if is_safe_integer (some (pos (suc n)))
    then ok (suc n)
    else err (message (join ("INVALID_BRIDGE_CONFIG: " ∷ key ∷ [])))
positive_setting key _ = err (message (join ("INVALID_BRIDGE_CONFIG: " ∷ key ∷ [])))

abbrev pub with_setting : {A : Type 0} → Result ℕ → (ℕ → Result A) → Result A
with_setting (ok n) f = f n
with_setting (err e) f = err e

-- The constructor's checks; `bypass` is whether a sidechain or state-channel setting is truthy.
unfoldable pub configure :
    (batch_size batch_timeout_ms required_confirmations : Setting) (bypass : Bool) → Result Config
configure batch_size batch_timeout_ms required_confirmations bypass =
    with_setting (positive_setting "batchSize" (setting_or 50 batch_size)) λ s.
      with_setting (positive_setting "batchTimeoutMs" (setting_or 5000 batch_timeout_ms)) λ t.
        with_setting
          (positive_setting "requiredConfirmations" (setting_or 12 required_confirmations))
          λ c.
            if bypass
            then err (message "UNVERIFIED_ISSUANCE_PATH_DISABLED")
            else ok (record { batch_size = s; batch_timeout_ms = t; required_confirmations = c })

pub record Stats : Type 0 where
  pub successful_fabric_to_ethereum_tx : ℕ
  pub failed_fabric_to_ethereum_tx : ℕ
  pub total_batches : ℕ

-- A batch in process: what is left of it, how many it had, how many of them failed.
pub record Batch : Type 0 where
  pub remaining : List Fields
  pub transaction_count : ℕ
  pub failed_transactions : ℕ

pub data Notice : Type 0 where
  batch_processed : (transaction_count : ℕ) → Notice
  batch_processing_failed : (transaction_count failed_transactions : ℕ) → Notice

pub record Queue : Type 0 where
  pub pending_actions : List Fields
  pub stats : Stats
  pub processing_batch : Option Batch
  pub stopping : Bool
  pub stream_error : Bool
  -- the calls of transactionSigner.reset, and what was emitted for the batches
  pub signer_resets : ℕ
  pub notices : List Notice

abbrev pub new_queue : Queue
new_queue = record {
  pending_actions = [];
  stats = record {
    successful_fabric_to_ethereum_tx = 0;
    failed_fabric_to_ethereum_tx = 0;
    total_batches = 0;
  };
  processing_batch = none;
  stopping = false;
  stream_error = false;
  signer_resets = 0;
  notices = [];
}

-- How the handler of an action ends: it returns, or throws, with the code NONCE_EXPIRED or not.
pub data Ending : Type 0 where
  returned : Ending
  thrown : (nonce_expired : Bool) → Ending

abbrev pub is_known : Fields → Bool
is_known transaction =
    is_text "tokenization" (get "type" transaction)
    || is_text "nftMinting" (get "type" transaction)
    || is_text "recycling" (get "type" transaction)

abbrev pub length : List Fields → ℕ
length [] = 0
length (a ∷ as_) = suc (length as_)

abbrev pub take : ℕ → List Fields → List Fields
take zero as_ = []
take (suc n) [] = []
take (suc n) (a ∷ as_) = a ∷ take n as_

abbrev pub drop : ℕ → List Fields → List Fields
drop zero as_ = as_
drop (suc n) [] = []
drop (suc n) (a ∷ as_) = drop n as_

-- pendingActions.splice(0, batchSize), once there are pending actions.
abbrev pub take_batch : ℕ → Queue → List Fields → Queue
take_batch n q [] = q
take_batch n q (a ∷ as_) = record q {
  pending_actions = drop n (a ∷ as_);
  processing_batch = some (record {
    remaining = take n (a ∷ as_);
    transaction_count = length (take n (a ∷ as_));
    failed_transactions = 0;
  });
}

abbrev pub when_idle : Option Batch → Queue → Queue → Queue
when_idle (some b) busy idle = busy
when_idle none busy idle = idle

unfoldable pub process_batch : Config → Queue → Queue
process_batch c q = when_idle q.processing_batch q (take_batch c.batch_size q q.pending_actions)

unfoldable pub queue_transaction : Config → Fields → Queue → Result Queue
unfolding process_batch
queue_transaction c transaction q =
    if q.stopping
    then err (message "BRIDGE_STOPPING")
    else if not (is_known transaction)
    then err (message "UNKNOWN_BRIDGE_ACTION")
    else let pushed : Queue = record q {
      pending_actions = q.pending_actions ++ transaction ∷ [];
    } in
      if leb c.batch_size (length pushed.pending_actions)
      then ok (process_batch c pushed)
      else ok pushed

-- An action of another type than the three throws UNKNOWN_BRIDGE_ACTION.
abbrev pub ending_of : Fields → Ending → Ending
ending_of transaction e = if is_known transaction then e else thrown false

abbrev pub after_ending : Queue → Fields → Batch → Ending → Queue
after_ending q transaction b returned = record q {
  stats = record q.stats {
    successful_fabric_to_ethereum_tx = suc q.stats.successful_fabric_to_ethereum_tx;
  };
  processing_batch = some b;
}
after_ending q transaction b (thrown nonce_expired) = record q {
  pending_actions = q.pending_actions ++ transaction ∷ [];
  stats = record q.stats {
    failed_fabric_to_ethereum_tx = suc q.stats.failed_fabric_to_ethereum_tx;
  };
  processing_batch = some (record b { failed_transactions = suc b.failed_transactions });
  signer_resets = if nonce_expired then suc q.signer_resets else q.signer_resets;
}

abbrev pub settle_first : Queue → Batch → List Fields → Ending → Queue
settle_first q b [] e = q
settle_first q b (a ∷ as_) e = after_ending q a (record b { remaining = as_ }) (ending_of a e)

abbrev pub settle_batch : Queue → Option Batch → Ending → Queue
settle_batch q none e = q
settle_batch q (some b) e = settle_first q b b.remaining e

-- The first open action of the batch returns or throws.
unfoldable pub settle_action : Ending → Queue → Queue
settle_action e q = settle_batch q q.processing_batch e

abbrev pub notice_of : Batch → Notice
notice_of b =
    if nat_eq b.failed_transactions 0
    then batch_processed b.transaction_count
    else batch_processing_failed b.transaction_count b.failed_transactions

abbrev pub finish_rest : Queue → Batch → List Fields → Queue
finish_rest q b [] = record q {
  stats = record q.stats { total_batches = suc q.stats.total_batches };
  processing_batch = none;
  notices = q.notices ++ notice_of b ∷ [];
}
finish_rest q b (a ∷ as_) = q

abbrev pub finish_open : Queue → Option Batch → Queue
finish_open q none = q
finish_open q (some b) = finish_rest q b b.remaining

-- The end of a batch with no open action.
unfoldable pub finish_batch : Queue → Queue
finish_batch q = finish_open q q.processing_batch

unfoldable pub stop : Queue → Queue
stop q = record q { stopping = true }

-- The event stream fails; the error is kept unless the bridge stops.
unfoldable pub stream_fails : Queue → Queue
stream_fails q = if q.stopping then q else record q { stream_error = true }

unfoldable pub handle_fabric_tokenization_request : Config → Fields → Queue → Result Queue
unfolding queue_transaction
handle_fabric_tokenization_request c payload q =
    queue_transaction c (set "type" (str "tokenization") payload) q

unfoldable pub handle_fabric_nft_minting_request : Config → Fields → Queue → Result Queue
unfolding queue_transaction
handle_fabric_nft_minting_request c payload q =
    queue_transaction c
      (set "type" (str "nftMinting") (set "fabricProductId" (get "productId" payload) payload)) q

pub record StatsReport : Type 0 where
  pub stats : Stats
  pub pending_transactions : ℕ
  pub healthy : Bool

unfoldable pub get_stats : Queue → StatsReport
get_stats q = record {
  stats = q.stats;
  pending_transactions = length q.pending_actions;
  healthy = not q.stream_error && not q.stopping;
}
