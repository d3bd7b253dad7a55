-- ===== src/Bridge/Queue/Drain.antt =====
-- How batches of bridging/bridge.js empty the queue.
use sustainable_fashion_chai.Prelude.{
  ℕ, ◌+◌, ◌*◌, ◌≤◌, ◌≡◌, refl, ◌∙◌, ap, none, List, [], ◌∷◌, ◌++◌, arith, zero, suc,
}
use sustainable_fashion_chai.Json.{Fields}
use sustainable_fashion_chai.Bridge.Queue.{
  Config, Queue, Ending, returned, thrown, length, take, drop, ending_of, process_batch,
  finish_batch,
}
use sustainable_fashion_chai.Bridge.Queue.Uninterrupted.{
  if_thrown, throws, append_nil, run_batch, run_batch-Processed,
}

unfoldable pub run_batches : ℕ → Config → (Fields → Ending) → Queue → Queue
run_batches zero c f q = q
run_batches (suc k) c f q = run_batches k c f (run_batch c f q)

throws-take-drop :
    (f : Fields → Ending) (n : ℕ) (as_ : List Fields)
    → throws f as_ ≡ []
    → (throws f (take n as_) ≡ []) × (throws f (drop n as_) ≡ [])
throws-take-drop f zero as_ h = (refl, h)
throws-take-drop f (suc n) [] h = (refl, refl)
throws-take-drop f (suc n) (a ∷ as_) h = by_ending (ending_of a (f a)) h (throws-take-drop f n as_)
  where
    by_ending :
        (x : Ending)
        → if_thrown x a (throws f as_) ≡ []
        → (throws f as_ ≡ [] → (throws f (take n as_) ≡ []) × (throws f (drop n as_) ≡ []))
        → (if_thrown x a (throws f (take n as_)) ≡ []) × (throws f (drop n as_) ≡ [])
    by_ending returned e rest = rest e
    by_ending (thrown t) e rest = cc e

length-drop : (n : ℕ) (as_ : List Fields) (k : ℕ) → length as_ ≤ n + k → length (drop n as_) ≤ k
length-drop zero as_ k h = omega (arith, h)
length-drop (suc n) [] k h = omega arith
length-drop (suc n) (a ∷ as_) k h = length-drop n as_ k (omega (arith, h))

no_length : (as_ : List Fields) → length as_ ≤ 0 → as_ ≡ []
no_length [] h = refl
no_length (a ∷ as_) h = absurd (omega (arith, h))

take_nil : (n : ℕ) → take n [] ≡ []
take_nil zero = refl
take_nil (suc n) = refl

module _ (c : Config) (f : Fields → Ending) where
  run_batch_empty :
      (q : Queue) → q.processing_batch ≡ none → q.pending_actions ≡ [] → run_batch c f q ≡ q
  unfolding run_batch process_batch finish_batch
  run_batch_empty q idle e = rw (idle, e, take_nil c.batch_size) refl

  -- With no batch in process, and handlers that all return on the pending actions, `k` batches
  -- leave nothing pending if `k` times `batchSize` is at least the number of pending actions.
  pub run_batches-drain :
      (k : ℕ) (q : Queue)
      → q.processing_batch ≡ none
      → throws f q.pending_actions ≡ []
      → length q.pending_actions ≤ k * c.batch_size
      → (run_batches k c f q).pending_actions ≡ []
  unfolding run_batches
  run_batches-drain zero q idle good le = no_length q.pending_actions (omega (arith, le))
  run_batches-drain (suc k) q idle good le =
      by_pending q.pending_actions refl (run_batches-drain k (run_batch c f q))
    where
      by_pending :
          (as_ : List Fields)
          → q.pending_actions ≡ as_
          → ((run_batch c f q).processing_batch ≡ none
              → throws f (run_batch c f q).pending_actions ≡ []
              → length (run_batch c f q).pending_actions ≤ k * c.batch_size
              → (run_batches k c f (run_batch c f q)).pending_actions ≡ [])
          → (run_batches k c f (run_batch c f q)).pending_actions ≡ []
      by_pending [] e rest =
          let same = run_batch_empty q idle e in
          rest (rw same idle) (rw same good) (rw (same, e) (omega arith))
      by_pending (a ∷ as_) e rest =
          let p = run_batch-Processed c f q idle a as_ e in
          let (taken, left) = throws-take-drop f c.batch_size q.pending_actions good in
          let pend : (run_batch c f q).pending_actions ≡ drop c.batch_size q.pending_actions =
            p.pending ∙ ap (λ t. drop c.batch_size q.pending_actions ++ t) taken ∙ append_nil _ in
          rest p.idle (rw pend left) (
            rw pend
              (length-drop c.batch_size q.pending_actions (k * c.batch_size) (omega (arith, le))))
