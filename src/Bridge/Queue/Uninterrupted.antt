-- ===== src/Bridge/Queue/Uninterrupted.antt =====
-- A batch of bridging/bridge.js that no other call interrupts.
use sustainable_fashion_chai.Prelude.{
  ℕ, ◌+◌, ◌≡◌, refl, sym, ◌∙◌, ap, none, some, List, [], ◌∷◌, ◌++◌, arith, suc,
}
use sustainable_fashion_chai.Json.{Fields}
use sustainable_fashion_chai.Bridge.Queue.{
  Config, Batch, Notice, Queue, Ending, returned, thrown, length, take, drop, ending_of,
  after_ending, settle_batch, finish_open, process_batch, settle_action, finish_batch, notice_of,
}

abbrev if_returned : Ending → Fields → List Fields → List Fields
if_returned returned a as_ = a ∷ as_
if_returned (thrown n) a as_ = as_

abbrev pub if_thrown : Ending → Fields → List Fields → List Fields
if_thrown returned a as_ = as_
if_thrown (thrown n) a as_ = a ∷ as_

-- The actions of the list whose handler returns, and those whose handler throws.
abbrev pub returns : (Fields → Ending) → List Fields → List Fields
returns f [] = []
returns f (a ∷ as_) = if_returned (ending_of a (f a)) a (returns f as_)

abbrev pub throws : (Fields → Ending) → List Fields → List Fields
throws f [] = []
throws f (a ∷ as_) = if_thrown (ending_of a (f a)) a (throws f as_)

unfoldable pub settle_all : (Fields → Ending) → List Fields → Queue → Queue
settle_all f [] q = q
settle_all f (a ∷ as_) q = settle_all f as_ (settle_action (f a) q)

-- processBatch with nothing in between: `f` says how the handler of each action ends.
unfoldable pub run_batch : Config → (Fields → Ending) → Queue → Queue
unfolding settle_all
run_batch c f q =
    finish_batch (settle_all f (take c.batch_size q.pending_actions) (process_batch c q))

-- The queue `q'` after the handlers of `good` returned and those of `bad` threw,
-- which together were the open actions of the batch of `n` in `q`, of which `m` had failed.
record Settled (good bad : List Fields) (n m : ℕ) (q q' : Queue) : Type 0 where
  batch :
      q'.processing_batch
      ≡ some
          (record { remaining = []; transaction_count = n; failed_transactions = m + length bad })
  pending : q'.pending_actions ≡ q.pending_actions ++ bad
  successful :
      q'.stats.successful_fabric_to_ethereum_tx
      ≡ q.stats.successful_fabric_to_ethereum_tx + length good
  unsuccessful :
      q'.stats.failed_fabric_to_ethereum_tx ≡ q.stats.failed_fabric_to_ethereum_tx + length bad
  batches : q'.stats.total_batches ≡ q.stats.total_batches
  notices : q'.notices ≡ q.notices
  stopping : q'.stopping ≡ q.stopping

pub append_nil : (as_ : List Fields) → as_ ++ [] ≡ as_
append_nil [] = refl
append_nil (a ∷ as_) = ap (λ t. a ∷ t) (append_nil as_)

append_assoc : (as_ bs cs : List Fields) → (as_ ++ bs) ++ cs ≡ as_ ++ (bs ++ cs)
append_assoc [] bs cs = refl
append_assoc (a ∷ as_) bs cs = ap (λ t. a ∷ t) (append_assoc as_ bs cs)

settle_first_open :
    (q : Queue) (a : Fields) (as_ : List Fields) (n m : ℕ) (e : Ending)
    → q.processing_batch
      ≡ some (record { remaining = a ∷ as_; transaction_count = n; failed_transactions = m })
    → settle_action e q
      ≡ after_ending q a
          (record { remaining = as_; transaction_count = n; failed_transactions = m })
          (ending_of a e)
unfolding settle_action
settle_first_open q a as_ n m e open_ = ap (λ o. settle_batch q o e) open_

-- The number of failed actions of the batch, after one more ending.
abbrev with_ending : Ending → ℕ → ℕ
with_ending returned m = m
with_ending (thrown x) m = suc m

after_ending-batch :
    (q : Queue) (a : Fields) (as_ : List Fields) (n m : ℕ) (x : Ending)
    → (after_ending q a
        (record { remaining = as_; transaction_count = n; failed_transactions = m })
        x).processing_batch
      ≡ some
          (record { remaining = as_; transaction_count = n; failed_transactions = with_ending x m })
after_ending-batch q a as_ n m returned = refl
after_ending-batch q a as_ n m (thrown x) = refl

Settled-cons :
    (a : Fields) (good bad : List Fields) (n m : ℕ) (q q' : Queue) (b : Batch) (x : Ending)
    → Settled good bad n (with_ending x m) (after_ending q a b x) q'
    → Settled (if_returned x a good) (if_thrown x a bad) n m q q'
Settled-cons a good bad n m q q' b returned s = record {
  batch = s.batch;
  pending = s.pending;
  successful = let k = s.successful in omega (arith, k);
  unsuccessful = s.unsuccessful;
  batches = s.batches;
  notices = s.notices;
  stopping = s.stopping;
}
Settled-cons a good bad n m q q' b (thrown x) s = record {
  batch =
      s.batch
      ∙ ap (λ t. some (record { remaining = []; transaction_count = n; failed_transactions = t }))
          (omega arith);
  pending = s.pending ∙ append_assoc q.pending_actions (a ∷ []) bad;
  successful = s.successful;
  unsuccessful = let k = s.unsuccessful in omega (arith, k);
  batches = s.batches;
  notices = s.notices;
  stopping = s.stopping;
}

settle_all-Settled :
    (f : Fields → Ending) (as_ : List Fields) (n m : ℕ) (q : Queue)
    → q.processing_batch
      ≡ some (record { remaining = as_; transaction_count = n; failed_transactions = m })
    → Settled (returns f as_) (throws f as_) n m q (settle_all f as_ q)
unfolding settle_all
settle_all-Settled f [] n m q e = record {
  batch =
      e
      ∙ ap (λ t. some (record { remaining = []; transaction_count = n; failed_transactions = t }))
          (omega arith);
  pending = sym (append_nil q.pending_actions);
  successful = omega arith;
  unsuccessful = omega arith;
  batches = refl;
  notices = refl;
  stopping = refl;
}
settle_all-Settled f (a ∷ as_) n m q e =
    let x = ending_of a (f a) in
    let b : Batch = record { remaining = as_; transaction_count = n; failed_transactions = m } in
    let s =
      settle_all-Settled f as_ n (with_ending x m) (after_ending q a b x)
        (after_ending-batch q a as_ n m x) in
    Settled-cons a (returns f as_) (throws f as_) n m q (settle_all f as_ (settle_action (f a) q)) b
      x (rw (settle_first_open q a as_ n m (f a) e) s)

-- The notice for a batch of the actions `as_`.
abbrev pub notice : (Fields → Ending) → List Fields → Notice
notice f as_ = notice_of (record {
  remaining = [];
  transaction_count = length as_;
  failed_transactions = length (throws f as_);
})

-- What a batch of the actions `as_`, with `rest` pending behind them, makes of the queue `q`.
pub record Processed (f : Fields → Ending) (as_ rest : List Fields) (q q' : Queue) : Type 0 where
  pub idle : q'.processing_batch ≡ none
  pub pending : q'.pending_actions ≡ rest ++ throws f as_
  pub successful :
      q'.stats.successful_fabric_to_ethereum_tx
      ≡ q.stats.successful_fabric_to_ethereum_tx + length (returns f as_)
  pub unsuccessful :
      q'.stats.failed_fabric_to_ethereum_tx
      ≡ q.stats.failed_fabric_to_ethereum_tx + length (throws f as_)
  pub batches : q'.stats.total_batches ≡ suc q.stats.total_batches
  pub notices : q'.notices ≡ q.notices ++ notice f as_ ∷ []
  pub stopping : q'.stopping ≡ q.stopping

ended_batch :
    (n m : ℕ) (q : Queue)
    → q.processing_batch
      ≡ some (record { remaining = []; transaction_count = n; failed_transactions = m })
    → finish_batch q ≡ record q {
      stats = record q.stats { total_batches = suc q.stats.total_batches };
      processing_batch = none;
      notices =
          q.notices
          ++ notice_of (record { remaining = []; transaction_count = n; failed_transactions = m })
            ∷ [];
    }
unfolding finish_batch
ended_batch n m q e = ap (λ o. finish_open q o) e

module _ (c : Config) (f : Fields → Ending) (q : Queue) where
  abbrev batch_of : List Fields
  batch_of = take c.batch_size q.pending_actions

  begun :
      q.processing_batch ≡ none
      → (a : Fields) (as_ : List Fields) → q.pending_actions ≡ a ∷ as_
      → process_batch c q ≡ record q {
        pending_actions = drop c.batch_size q.pending_actions;
        processing_batch = some (record {
          remaining = batch_of;
          transaction_count = length batch_of;
          failed_transactions = 0;
        });
      }
  unfolding process_batch
  begun idle a as_ e = rw (idle, e) refl

  pub run_batch-Processed :
      q.processing_batch ≡ none
      → (a : Fields) (as_ : List Fields) → q.pending_actions ≡ a ∷ as_
      → Processed f
          (take c.batch_size q.pending_actions)
          (drop c.batch_size q.pending_actions)
          q
          (run_batch c f q)
  unfolding run_batch
  run_batch-Processed idle a as_ e = rw (begun idle a as_ e) (
      let q₁ : Queue = record q {
        pending_actions = drop c.batch_size q.pending_actions;
        processing_batch = some (record {
          remaining = batch_of;
          transaction_count = length batch_of;
          failed_transactions = 0;
        });
      } in
      let s = settle_all-Settled f batch_of (length batch_of) 0 q₁ refl in
      let b =
        s.batch
        ∙ ap
            (λ t. some (record {
              remaining = [];
              transaction_count = length batch_of;
              failed_transactions = t;
            }))
            (omega arith) in
      rw (ended_batch (length batch_of) (length (throws f batch_of)) (settle_all f batch_of q₁) b)
        (record {
          idle = refl;
          pending = s.pending;
          successful = s.successful;
          unsuccessful = s.unsuccessful;
          batches = ap (λ t. suc t) s.batches;
          notices = ap (λ t. t ++ notice f batch_of ∷ []) s.notices;
          stopping = s.stopping;
        }))
