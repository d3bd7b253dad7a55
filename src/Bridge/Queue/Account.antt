-- ===== src/Bridge/Queue/Account.antt =====
-- The statistics of the queue of bridging/bridge.js, against the actions themselves.
use sustainable_fashion_chai.Prelude.{
  ℕ, ◌+◌, ◌≡◌, refl, ◌∙◌, inl, inr, true, Option, none, some, List, [], ◌∷◌, ◌++◌, arith,
  Bool-cases, leb,
}
use sustainable_fashion_chai.Json.{Fields}
use sustainable_fashion_chai.Fabric.{ok}
use sustainable_fashion_chai.Bridge.Queue.{
  Config, Batch, Queue, Ending, returned, thrown, is_known, length, when_idle, settle_batch,
  settle_first, finish_open, finish_rest, ending_of, take_batch, after_ending, process_batch,
  queue_transaction, settle_action, finish_batch, stop, stream_fails, get_stats,
}
use sustainable_fashion_chai.Bridge.Queue.Conserves.{
  open_of, in_flight, returned_of, Run, start, queued, timed, settled, finished, stopped, failed,
  length-count, nothing_lost,
}

-- The number of actions whose handler returned, as the statistics have it.
abbrev successes : Queue → ℕ
successes q = q.stats.successful_fabric_to_ethereum_tx

successes-take_batch :
    (n : ℕ) (q : Queue) (as_ : List Fields) → successes (take_batch n q as_) ≡ successes q
successes-take_batch n q [] = refl
successes-take_batch n q (a ∷ as_) = refl

successes-process_batch : (c : Config) (q : Queue) → successes (process_batch c q) ≡ successes q
unfolding process_batch
successes-process_batch c q = by_batch q.processing_batch
  where
    by_batch :
        (o : Option Batch)
        → successes (when_idle o q (take_batch c.batch_size q q.pending_actions)) ≡ successes q
    by_batch none = successes-take_batch c.batch_size q q.pending_actions
    by_batch (some b) = refl

successes-queue :
    (c : Config) (a : Fields) (q q' : Queue)
    → queue_transaction c a q ≡ ok q'
    → successes q' ≡ successes q
unfolding queue_transaction
successes-queue c a q q' e = elim (Bool-cases q.stopping) [
  | inl t ↦ cc (rw t at e)
  | inr f ↦ elim (Bool-cases (is_known a)) [
    | inr g ↦ cc (rw (f, g) at e)
    | inl g ↦ elim (Bool-cases (leb c.batch_size (length (q.pending_actions ++ a ∷ [])))) [
      | inl full ↦
          let pushed : Queue = record q { pending_actions = q.pending_actions ++ a ∷ [] } in
          let same : process_batch c pushed ≡ q' = cc (rw (f, g, full) at e) in
          rw (← same) (successes-process_batch c pushed)
      | inr more ↦
          let pushed : Queue = record q { pending_actions = q.pending_actions ++ a ∷ [] } in
          let same : pushed ≡ q' = cc (rw (f, g, more) at e) in rw (← same) refl
    ]
  ]
]

successes-settle :
    (e : Ending) (q : Queue)
    → successes (settle_action e q) ≡ length (returned_of (in_flight q) e) + successes q
unfolding settle_action
successes-settle e q = by_batch q.processing_batch
  where
    by_ending :
        (a : Fields) (b : Batch) (x : Ending)
        → successes (after_ending q a b x)
          ≡ length (elim x [ returned ↦ a ∷ [] | thrown n ↦ [] ]) + successes q
    by_ending a b returned = omega arith
    by_ending a b (thrown n) = omega arith

    by_remaining :
        (b : Batch) (as_ : List Fields)
        → successes (settle_first q b as_ e) ≡ length (returned_of as_ e) + successes q
    by_remaining b [] = omega arith
    by_remaining b (a ∷ as_) = by_ending a (record b { remaining = as_ }) (ending_of a e)

    by_batch :
        (o : Option Batch)
        → successes (settle_batch q o e) ≡ length (returned_of (open_of o) e) + successes q
    by_batch none = omega arith
    by_batch (some b) = by_remaining b b.remaining

successes-finish : (q : Queue) → successes (finish_batch q) ≡ successes q
unfolding finish_batch
successes-finish q = by_batch q.processing_batch
  where
    by_remaining : (b : Batch) (as_ : List Fields) → successes (finish_rest q b as_) ≡ successes q
    by_remaining b [] = refl
    by_remaining b (a ∷ as_) = refl

    by_batch : (o : Option Batch) → successes (finish_open q o) ≡ successes q
    by_batch none = refl
    by_batch (some b) = by_remaining b b.remaining

successes-stop : (q : Queue) → successes (stop q) ≡ successes q
unfolding stop
successes-stop q = refl

successes-stream : (q : Queue) → successes (stream_fails q) ≡ successes q
unfolding stream_fails
successes-stream q = elim (Bool-cases q.stopping) [ inl t ↦ rw t refl | inr f ↦ rw f refl ]

length-append : (as_ bs : List Fields) → length (as_ ++ bs) ≡ length as_ + length bs
length-append [] bs = omega arith
length-append (a ∷ as_) bs = let h = length-append as_ bs in omega arith

module _ (c : Config) where
  successes-length : {i d : List Fields} {q : Queue} → Run c i d q → successes q ≡ length d
  successes-length start = refl
  successes-length (queued {q} {q'} a r e) = successes-queue c a q q' e ∙ successes-length r
  successes-length (timed {q} r) = successes-process_batch c q ∙ successes-length r
  successes-length (settled {d} {q} e r) =
      let h = successes-settle e q in
      let k = successes-length r in
      let m = length-append (returned_of (in_flight q) e) d in omega (arith, h, k, m)
  successes-length (finished {q} r) = successes-finish q ∙ successes-length r
  successes-length (stopped {q} r) = successes-stop q ∙ successes-length r
  successes-length (failed {q} r) = successes-stream q ∙ successes-length r

  -- Over any sequence of steps, getStats counts as successful the actions whose handler returned,
  -- and with the pending ones and the open ones of the batch these are all that were queued.
  pub stats_account :
      {i d : List Fields} {q : Queue}
      → Run c i d q
      → ((get_stats q).stats.successful_fabric_to_ethereum_tx ≡ length d)
        × (length i
            ≡ (get_stats q).stats.successful_fabric_to_ethereum_tx
              + (length (in_flight q) + (get_stats q).pending_transactions))
  unfolding get_stats
  stats_account {i} {d} {q} r =
      let s = successes-length r in
      let n = nothing_lost c r (λ a. true) in
      let a = length-count i in
      let b = length-count d in
      let f = length-count (in_flight q) in
      let p = length-count q.pending_actions in (s, omega (arith, s, n, a, b, f, p))
