-- ===== src/Contract/History/Results.antt =====
-- What holds of every world state that the contract's transactions reach.
use sustainable_fashion_chai.Prelude.{String, ◌≡◌, ◌≢◌, refl, ◌∙◌, true, false, some, arith, ◌≤◌}
use sustainable_fashion_chai.Number.{Number, less, not_positive}
use sustainable_fashion_chai.Json.{Value, undefined, num, str, Fields, get, is_text}
use native.Mathlib.Nat.{le_trans}
use sustainable_fashion_chai.Json.Laws.{is_text→eq}
use sustainable_fashion_chai.Fabric.{document}
use sustainable_fashion_chai.Fabric.Ledger.{Ledger}
use sustainable_fashion_chai.Contract.Records.{
  IsBatch, Kind, is_batch, is_request, is_product, Sorted, Advance, Authority, is_rwa_status,
  is_within, rank,
}
use sustainable_fashion_chai.Contract.Changes.Commit.{Advance-refl, batch-ne-rwa, same_document}
use sustainable_fashion_chai.Contract.History.{Step, Reach, here, next}
use sustainable_fashion_chai.Contract.History.Keeps.{Step-Sorted, Step-Advance}

not_produced :
    (v w : Value) → rank v ≤ rank w → is_text "PRODUCED" v ≡ false → is_text "PRODUCED" w ≡ false
not_produced v w le h = ground arith

still_tokenized :
    (v w : Value)
    → rank v ≤ rank w
    → is_rwa_status w ≡ true
    → (is_text "PRODUCED" v ≡ false) × (is_text "VERIFIED" v ≡ false)
    → is_text "TOKENIZED" w ≡ true
still_tokenized v w le st h = ground arith

-- A text is not two texts.
only_tokenized :
    (v : Value)
    → is_text "TOKENIZED" v ≡ true
    → (is_text "PRODUCED" v ≡ false) × (is_text "VERIFIED" v ≡ false)
unfolding is_text
only_tokenized v h = let e = is_text→eq "TOKENIZED" v h in rw e (refl, refl)

pub Advance-trans :
    {k : String} {q : Number} {a b c : Fields} → Advance k q a b → Advance k q b c → Advance k q a c
Advance-trans {a} {b} {c} x y = record {
  still = y.still;
  producer = y.producer ∙ x.producer;
  created = y.created ∙ x.created;
  harvested = y.harvested ∙ x.harvested;
  stage = le_trans x.stage y.stage;
  certificate = λ h. y.certificate (not_produced _ _ x.stage h) ∙ x.certificate h;
  tokenization = λ h.
      y.tokenization (still_tokenized _ _ x.stage x.still.rwa (only_tokenized _ h))
      ∙ x.tokenization h;
}

module _ (ledger : Ledger) where
  -- The empty world state has no record.
  Sorted-empty : Sorted (ledger.get_state ledger.empty)
  Sorted-empty = record { kind = λ k d e. cc (ledger.get_state-empty k, e) }

  Reach-Sorted :
      {s t : ledger.State}
      → Sorted (ledger.get_state s)
      → Reach ledger s t
      → Sorted (ledger.get_state t)
  Reach-Sorted h here = h
  Reach-Sorted h (next r step) = Step-Sorted ledger step (Reach-Sorted h r)

  -- In a world state reached from the empty one, every document is a cotton batch, a tokenization
  -- request whose batch is there, or a product.
  pub reached-Sorted :
      (s : ledger.State) → Reach ledger ledger.empty s → Sorted (ledger.get_state s)
  reached-Sorted s r = Reach-Sorted Sorted-empty r

  -- From a world state with sorted records, whatever the transactions, a batch of `q` kg is still
  -- under its key, with the same quantity, producer and dates; its stage does not go back, its
  -- certificate stays once it is verified, and its tokenization stays once it is tokenized.
  pub reach-Advance :
      {s t : ledger.State}
      → Sorted (ledger.get_state s)
      → Reach ledger s t
      → (b : String) (q : Number) (c : Fields) → ledger.get_state s b ≡ some (document c)
      → IsBatch b q c
      → (c' : Fields) × (ledger.get_state t b ≡ some (document c')) × Advance b q c c'
  reach-Advance sorted here b q c found h = (c, found, Advance-refl h)
  reach-Advance sorted (next r step) b q c found h =
      let (c', found', a) = reach-Advance sorted r b q c found h in
      let (c'', found'', a', _) =
        Step-Advance ledger step (Reach-Sorted sorted r) b q c' found' a.still in
      (c'', found'', Advance-trans a a')

  module _ (s : ledger.State) (reach : Reach ledger ledger.empty s) where
    -- In a world state reached from the empty one, a document with an rwaStatus has the number
    -- `q` of kg in quantityKg, `q` is above 0, and what is recorded as tokenized, if anything,
    -- does not exceed it.
    pub tokenized_within :
        (k : String) (d : Fields)
        → ledger.get_state s k ≡ some (document d)
        → get "rwaStatus" d ≢ undefined
        → (q : Number) × (get "quantityKg" d ≡ num q)
          × (not_positive q ≡ false)
          × (is_within q (get "tokenizedKg" d) ≡ true)
    tokenized_within k d found rwa = of_kind ((reached-Sorted s reach).kind k d found)
      where
        of_kind :
            Kind (ledger.get_state s) k d
            → (q : Number) × (get "quantityKg" d ≡ num q)
              × (not_positive q ≡ false)
              × (is_within q (get "tokenizedKg" d) ≡ true)
        of_kind (is_batch q h) = (q, h.quantity_kg, h.positive, h.tokenized)
        of_kind (is_request b q c keyed there h l) = absurd (rwa l.request_rwa)
        of_kind (is_product p) = absurd (rwa p.no_rwa)

    -- From a world state reached from the empty one, one more transaction leaves the rwaStatus of a
    -- batch, or verifies a produced batch for a certifier, or tokenizes a verified batch for the
    -- bridge.
    pub step-Authority :
        {t : ledger.State} (step : Step ledger s t) (b : String) (q : Number) (c : Fields)
        → ledger.get_state s b ≡ some (document c)
        → IsBatch b q c
        → (c' : Fields) × (ledger.get_state t b ≡ some (document c'))
          × Authority step.env.has_attribute c c'
    step-Authority step b q c found h =
        let (c', found', _, authority) =
          Step-Advance ledger step (reached-Sorted s reach) b q c found h in
        (c', found', authority)

    -- `r` is a request for the batch `b`.
    abbrev pub IsRequest : String → Fields → String → Type 0
    IsRequest k r b =
        (ledger.get_state s k ≡ some (document r))
        × (get "rwaStatus" r ≡ undefined)
        × (get "batchId" r ≡ str b)

    abbrev pub Backed : String → Fields → String → Type 0
    Backed k r b =
        (c : Fields) × (q n : Number) × (ledger.get_state s b ≡ some (document c))
        × (get "quantityKg" c ≡ num q)
        × (get "quantity" r ≡ num n)
        × (not_positive n ≡ false)
        × (less q n ≡ false)
        × (get "pendingTokenizationId" c ≡ str k)
        × (is_text "COMPLETED" (get "status" r) ≡ is_text "TOKENIZED" (get "rwaStatus" c))

    -- In a world state reached from the empty one, behind a request for the batch `b` there is
    -- `b`, the request asks for more than 0 kg and for no more than the batch has, the batch
    -- names the request as its pending one, and the request is completed exactly when the batch
    -- is tokenized.
    pub request-Backed : (k b : String) (r : Fields) → IsRequest k r b → Backed k r b
    request-Backed k b r (found, no_rwa, named) = of_kind ((reached-Sorted s reach).kind k r found)
      where
        of_kind : Kind (ledger.get_state s) k r → Backed k r b
        of_kind (is_batch q h) = absurd (batch-ne-rwa h no_rwa)
        of_kind (is_request a q c keyed there h l) =
            let e : a ≡ b = cc (l.batch_of, named) in
            (
              c,
              q,
              l.amount,
              rw e at there,
              h.quantity_kg,
              l.requested,
              l.positive,
              l.within,
              l.pending,
              l.coupled,
            )
        of_kind (is_product p) = cc (p.no_batch, named)

    -- In a world state reached from the empty one, two requests for one batch are one request.
    pub one_request_per_batch :
        (j k b : String) (r r' : Fields) → IsRequest j r b → IsRequest k r' b → j ≡ k
    one_request_per_batch j k b r r' x y =
        let m = request-Backed j b r x in
        let n = request-Backed k b r' y in
        let same = same_document m.3 n.3 in cc (m.8, rw (← same) at n.8)
