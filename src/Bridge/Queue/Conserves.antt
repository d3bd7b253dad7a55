-- ===== src/Bridge/Queue/Conserves.antt =====
-- The queue of bridging/bridge.js over any sequence of its steps: what becomes of an action.
use sustainable_fashion_chai.Prelude.{
  ℕ, ◌+◌, ◌≡◌, refl, sym, ◌∙◌, ap, inl, inr, Bool, true, Option, none, some, List, [], ◌∷◌, ◌++◌,
  arith, Bool-cases, leb, zero, suc, if◌then◌else◌,
}
use sustainable_fashion_chai.Json.{Fields}
use sustainable_fashion_chai.Fabric.{ok}
use sustainable_fashion_chai.Bridge.Queue.{
  Config, Batch, Queue, new_queue, Ending, returned, thrown, is_known, length, take, drop,
  when_idle, settle_batch, settle_first, finish_open, finish_rest, ending_of, take_batch,
  after_ending, process_batch, queue_transaction, settle_action, finish_batch, stop, stream_fails,
}

-- How many of the actions pass the test `p`.
abbrev pub count : (Fields → Bool) → List Fields → ℕ
count p [] = 0
count p (a ∷ as_) = (if p a then 1 else 0) + count p as_

abbrev pub open_of : Option Batch → List Fields
open_of none = []
open_of (some b) = b.remaining

-- The actions of the batch in process that have not ended.
abbrev pub in_flight : Queue → List Fields
in_flight q = open_of q.processing_batch

abbrev pub returned_of : List Fields → Ending → List Fields
returned_of [] e = []
returned_of (a ∷ as_) e = elim (ending_of a e) [ returned ↦ a ∷ [] | thrown n ↦ [] ]

-- A run of the bridge's queue: the actions that were queued, those whose handler returned, and the
-- queue that is left.
pub data Run (c : Config) : List Fields → List Fields → Queue → Type 0 where
  start : Run c [] [] new_queue
  queued :
      {i d : List Fields} {q q' : Queue} (a : Fields)
      → Run c i d q
      → queue_transaction c a q ≡ ok q'
      → Run c (a ∷ i) d q'
  timed : {i d : List Fields} {q : Queue} → Run c i d q → Run c i d (process_batch c q)
  settled :
      {i d : List Fields} {q : Queue} (e : Ending)
      → Run c i d q
      → Run c i (returned_of (in_flight q) e ++ d) (settle_action e q)
  finished : {i d : List Fields} {q : Queue} → Run c i d q → Run c i d (finish_batch q)
  stopped : {i d : List Fields} {q : Queue} → Run c i d q → Run c i d (stop q)
  failed : {i d : List Fields} {q : Queue} → Run c i d q → Run c i d (stream_fails q)

count-push :
    (p : Fields → Bool) (as_ : List Fields) (a : Fields)
    → count p (as_ ++ a ∷ []) ≡ (if p a then 1 else 0) + count p as_
count-push p [] a = refl
count-push p (b ∷ bs) a = let h = count-push p bs a in omega arith

count-take-drop :
    (p : Fields → Bool) (n : ℕ) (as_ : List Fields)
    → count p (take n as_) + count p (drop n as_) ≡ count p as_
count-take-drop p zero as_ = omega arith
count-take-drop p (suc n) [] = omega arith
count-take-drop p (suc n) (a ∷ as_) = let h = count-take-drop p n as_ in omega arith

pub length-count : (as_ : List Fields) → length as_ ≡ count (λ a. true) as_
length-count [] = refl
length-count (a ∷ as_) = let h = length-count as_ in omega arith

module _ (p : Fields → Bool) where
  -- The actions of the queue, in process or pending.
  abbrev held : Queue → ℕ
  held q = count p (in_flight q) + count p q.pending_actions

  held-take_batch :
      (n : ℕ) (q : Queue) (as_ : List Fields)
      → q.processing_batch ≡ none
      → q.pending_actions ≡ as_
      → held (take_batch n q as_) ≡ held q
  held-take_batch n q [] idle e = refl
  held-take_batch n q (a ∷ as_) idle e =
      let h = count-take-drop p n (a ∷ as_) in rw (idle, e) (omega (arith, h))

  held-when_idle :
      (n : ℕ) (q : Queue) (o : Option Batch)
      → q.processing_batch ≡ o
      → held (when_idle o q (take_batch n q q.pending_actions)) ≡ held q
  held-when_idle n q none e = held-take_batch n q q.pending_actions e refl
  held-when_idle n q (some b) e = refl

  held-process_batch : (c : Config) (q : Queue) → held (process_batch c q) ≡ held q
  unfolding process_batch
  held-process_batch c q = held-when_idle c.batch_size q q.processing_batch refl

  abbrev pushed : Fields → Queue → Queue
  pushed a q = record q { pending_actions = q.pending_actions ++ a ∷ [] }

  held-pushed : (a : Fields) (q : Queue) → held (pushed a q) ≡ (if p a then 1 else 0) + held q
  held-pushed a q = let h = count-push p q.pending_actions a in omega (arith, h)

  held-queue :
      (c : Config) (a : Fields) (q q' : Queue)
      → queue_transaction c a q ≡ ok q'
      → held q' ≡ (if p a then 1 else 0) + held q
  unfolding queue_transaction
  held-queue c a q q' e = elim (Bool-cases q.stopping) [
    | inl t ↦ cc (rw t at e)
    | inr f ↦ elim (Bool-cases (is_known a)) [
      | inr g ↦ cc (rw (f, g) at e)
      | inl g ↦ elim (Bool-cases (leb c.batch_size (length (pushed a q).pending_actions))) [
        | inl full ↦
            let same : process_batch c (pushed a q) ≡ q' = cc (rw (f, g, full) at e) in
            rw (← same) (held-process_batch c (pushed a q) ∙ held-pushed a q)
        | inr more ↦
            let same : pushed a q ≡ q' = cc (rw (f, g, more) at e) in rw (← same) (held-pushed a q)
      ]
    ]
  ]

  held-after_ending :
      (q : Queue) (a : Fields) (b : Batch) (e : Ending)
      → (if p a then 1 else 0) + count p b.remaining + count p q.pending_actions
        ≡ count p (elim e [ returned ↦ a ∷ [] | thrown n ↦ [] ]) + held (after_ending q a b e)
  held-after_ending q a b returned = omega arith
  held-after_ending q a b (thrown n) = let h = count-push p q.pending_actions a in omega (arith, h)

  held-settle_batch :
      (e : Ending) (q : Queue) (o : Option Batch)
      → q.processing_batch ≡ o
      → count p (open_of o) + count p q.pending_actions
        ≡ count p (returned_of (open_of o) e) + held (settle_batch q o e)
  held-settle_batch e q none idle = rw idle (omega arith)
  held-settle_batch e q (some b) busy = by_remaining b.remaining refl
    where
      by_remaining :
          (as_ : List Fields)
          → b.remaining ≡ as_
          → count p as_ + count p q.pending_actions
            ≡ count p (returned_of as_ e) + held (settle_first q b as_ e)
      by_remaining [] h = rw (busy, h) (omega arith)
      by_remaining (a ∷ as_) h =
          held-after_ending q a (record b { remaining = as_ }) (ending_of a e)

  held-settle :
      (e : Ending) (q : Queue)
      → held q ≡ count p (returned_of (in_flight q) e) + held (settle_action e q)
  unfolding settle_action
  held-settle e q = held-settle_batch e q q.processing_batch refl

  held-finish_rest :
      (q : Queue) (b : Batch) (as_ : List Fields)
      → q.processing_batch ≡ some b
      → b.remaining ≡ as_
      → held (finish_rest q b as_) ≡ held q
  held-finish_rest q b [] busy h = rw (busy, h) refl
  held-finish_rest q b (a ∷ as_) busy h = refl

  held-finish_open :
      (q : Queue) (o : Option Batch) → q.processing_batch ≡ o → held (finish_open q o) ≡ held q
  held-finish_open q none e = refl
  held-finish_open q (some b) e = held-finish_rest q b b.remaining e refl

  held-finish : (q : Queue) → held (finish_batch q) ≡ held q
  unfolding finish_batch
  held-finish q = held-finish_open q q.processing_batch refl

  held-stream : (q : Queue) → held (stream_fails q) ≡ held q
  unfolding stream_fails
  held-stream q = elim (Bool-cases q.stopping) [ inl t ↦ rw t refl | inr f ↦ rw f refl ]

held-stop : (p : Fields → Bool) (q : Queue) → held p (stop q) ≡ held p q
unfolding stop
held-stop p q = refl

count-append :
    (p : Fields → Bool) (as_ bs : List Fields) → count p (as_ ++ bs) ≡ count p as_ + count p bs
count-append p [] bs = omega arith
count-append p (a ∷ as_) bs = let h = count-append p as_ bs in omega arith

module _ (c : Config) where
  -- Whatever the order in which actions are queued, batches begin, handlers return or throw,
  -- batches end and the bridge stops: of the actions that were queued, as many as pass any test
  -- `p` have returned, are in process or are pending.
  pub nothing_lost :
      {i d : List Fields} {q : Queue}
      → Run c i d q
      → (p : Fields → Bool)
      → count p i ≡ count p d + (count p (in_flight q) + count p q.pending_actions)
  nothing_lost start p = refl
  nothing_lost (queued {q} {q'} a r e) p =
      let h = held-queue p c a q q' e in let k = nothing_lost r p in omega (arith, h, k)
  nothing_lost (timed {d} {q} r) p =
      nothing_lost r p ∙ ap (λ n. count p d + n) (sym (held-process_batch p c q))
  nothing_lost (settled {d} {q} e r) p =
      let h = held-settle p e q in
      let k = nothing_lost r p in
      let m = count-append p (returned_of (in_flight q) e) d in omega (arith, h, k, m)
  nothing_lost (finished {d} {q} r) p =
      nothing_lost r p ∙ ap (λ n. count p d + n) (sym (held-finish p q))
  nothing_lost (stopped {d} {q} r) p =
      nothing_lost r p ∙ ap (λ n. count p d + n) (sym (held-stop p q))
  nothing_lost (failed {d} {q} r) p =
      nothing_lost r p ∙ ap (λ n. count p d + n) (sym (held-stream p q))
