-- ===== src/Contract/Changes/Commit.antt =====
-- Every committed transaction keeps the records sorted, and every batch advances.
use sustainable_fashion_chai.Prelude.{
  String, ◌≡◌, ◌≢◌, refl, sym, ◌∙◌, fun_ext, Bool, false, Option, some, List, arith, ◌==◌, eq_iff,
  eq_refl, false≢true, inl, inr, Bool-cases, if◌then◌else◌,
}
use sustainable_fashion_chai.Number.{Number}
use sustainable_fashion_chai.Json.{undefined, Fields, get, is_text}
use sustainable_fashion_chai.Fabric.{Stored, document, Effect}
use sustainable_fashion_chai.Fabric.Ledger.{written}
use sustainable_fashion_chai.Contract.Records.{
  IsBatch, Link, Kind, is_batch, is_request, is_product, Sorted, Advance, Authority,
}
use sustainable_fashion_chai.Contract.Changes.{
  Change, fresh_product, fresh_batch, product, batch, Pair, Committed, quiet, single, pair,
}

pub batch-ne-rwa :
    {k : String} {q : Number} {d : Fields} → IsBatch k q d → get "rwaStatus" d ≢ undefined
unfolding is_text
batch-ne-rwa h e = cc (rw e at h.rwa)

same_amount : {k : String} {q p : Number} {d : Fields} → IsBatch k q d → IsBatch k p d → q ≡ p
same_amount h g = cc (h.quantity, g.quantity)

pub Advance-refl : {k : String} {q : Number} {d : Fields} → IsBatch k q d → Advance k q d d
Advance-refl h = record {
  still = h;
  producer = refl;
  created = refl;
  harvested = refl;
  stage = omega arith;
  certificate = λ _. refl;
  tokenization = λ _. refl;
}

-- The documents under one key are one.
pub same_document :
    {o : Option Stored} {c d : Fields} → o ≡ some (document c) → o ≡ some (document d) → c ≡ d
same_document e f = cc

abbrev Linked : String → Number → Fields → Fields → Type 0
Linked b q c d = (j : String) (r : Fields) → Link j r b q c → Link j r b q d

module _ (has : String → String → Bool) (read : String → Option Stored) where
  kept_of_Change :
      (b : String) (q : Number) (c d : Fields)
      → read b ≡ some (document c)
      → IsBatch b q c
      → Change has read b d
      → Advance b q c d × Authority has c d × Linked b q c d
  kept_of_Change b q c d found h (fresh_product e p) = cc
  kept_of_Change b q c d found h (fresh_batch p e g) = cc
  kept_of_Change b q c d found h (product c₀ e p p') =
      absurd (batch-ne-rwa h (rw (same_document found e) p.no_rwa))
  kept_of_Change b q c d found h (batch p c₀ e g a au links) =
      let same = same_document found e in
      let amount = same_amount h (rw same g) in rw (same, amount) (a, au, links)

  kind_of_Change :
      (k : String) (d : Fields)
      → Change has read k d
      → (read' : String → Option Stored) → Kind read' k d
  kind_of_Change k d (fresh_product e p) read' = is_product p
  kind_of_Change k d (fresh_batch q e g) read' = is_batch q g
  kind_of_Change k d (product c e p p') read' = is_product p'
  kind_of_Change k d (batch q c e g a au links) read' = is_batch q a.still

  -- A batch after a commit.
  abbrev Kept : (String → Option Stored) → String → Number → Fields → Type 0
  Kept read' b q c =
      (c' : Fields) × (read' b ≡ some (document c')) × Advance b q c c' × Authority has c c'

  module _ (read' : String → Option Stored) where
    -- Where the batches behind an untouched document are kept for it, so is its kind.
    kind_of_kept :
        (k : String) (d : Fields)
        → ((b : String) (q : Number) (c : Fields)
            → read b ≡ some (document c)
            → IsBatch b q c
            → k ≢ ""
            → Link k d b q c
            → (c' : Fields) × (read' b ≡ some (document c')) × IsBatch b q c' × Link k d b q c')
        → Kind read k d
        → Kind read' k d
    kind_of_kept k d keep (is_batch q h) = is_batch q h
    kind_of_kept k d keep (is_request b q c keyed found h l) =
        let (c', found', h', l') = keep b q c found h keyed l in
        is_request b q c' keyed found' h' l'
    kind_of_kept k d keep (is_product p) = is_product p

    module _ (k : String) (d : Fields) (change : Change has read k d)
        (writes : (j : String) → read' j ≡ (if k == j then some (document d) else read j)) where
      version_single :
          (b : String) (q : Number) (c : Fields)
          → read b ≡ some (document c)
          → IsBatch b q c
          → (c' : Fields) × (read' b ≡ some (document c'))
            × Advance b q c c'
            × Authority has c c'
            × Linked b q c c'
      version_single b q c found h = elim (Bool-cases (k == b)) [
        | inl same ↦
            let e = (eq_iff k b).0 same in
            let (a, au, links) = kept_of_Change b q c d found h (rw e at change) in
            (d, writes b ∙ rw same, a, au, links)
        | inr other ↦ (c, writes b ∙ rw other found, Advance-refl h, inl refl, λ j r l. l)
      ]

      Sorted-single : Sorted read → Sorted read'
      Sorted-single s = record {
        kind = λ j x e. elim (Bool-cases (k == j)) [
          | inl same ↦
              let path = (eq_iff k j).0 same in
              let now : read' j ≡ some (document d) = writes j ∙ rw same in
              rw (same_document e now, ← path) (kind_of_Change k d change read')
          | inr other ↦
              kind_of_kept j x
                (λ b q c found h _ l.
                  let (c', found', a, au, links) = version_single b q c found h in
                  (c', found', a.still, links j x l))
                (s.kind j x (sym (writes j ∙ rw other) ∙ e))
        ];
      }

      Kept-single :
          (b : String) (q : Number) (c : Fields)
          → read b ≡ some (document c)
          → IsBatch b q c
          → Kept read' b q c
      Kept-single b q c found h =
          let (c', found', a, au, links) = version_single b q c found h in (c', found', a, au)

    module _ (k : String) (r : Fields) (b : String) (c' : Fields) (p : Pair has read k r b c')
        (writes : (j : String)
          → read' j ≡ (
              if b == j
              then some (document c')
              else if k == j
              then some (document r)
              else read j)) where
      Kept-pair :
          (a : String) (q : Number) (c : Fields)
          → read a ≡ some (document c)
          → IsBatch a q c
          → Kept read' a q c
      Kept-pair a q c found h = elim (Bool-cases (b == a)) [
        | inl same ↦
            let e = (eq_iff b a).0 same in
            let doc = same_document found (rw e at p.found) in
            let amount = same_amount h (rw (e, ← doc) at p.was) in
            (c', writes a ∙ rw same, rw (← e, amount, doc) p.advance, rw doc p.authority)
        | inr other ↦ elim (Bool-cases (k == a)) [
          | inl same ↦
              let e = (eq_iff k a).0 same in absurd (batch-ne-rwa h (p.replaced c (rw e found)))
          | inr apart ↦ (c, writes a ∙ rw (other, apart) found, Advance-refl h, inl refl)
        ]
      ]

      -- A document that the pair leaves alone has no link to the pair's batch.
      version_pair :
          (j : String) (x : Fields)
          → (k == j) ≡ false
          → (a : String) (q : Number) (c : Fields) → read a ≡ some (document c)
          → IsBatch a q c
          → j ≢ ""
          → Link j x a q c
          → (d : Fields) × (read' a ≡ some (document d)) × IsBatch a q d × Link j x a q d
      version_pair j x other a q c found h keyed l = elim (Bool-cases (b == a)) [
        | inl same ↦
            let e = (eq_iff b a).0 same in
            let doc = same_document found (rw e at p.found) in
            let amount = same_amount h (rw (e, ← doc) at p.was) in
            let is_k = p.only j x keyed (rw (e, ← doc, ← amount) l) in
            let clash = (eq_iff k j).1 (sym is_k) in absurd (false≢true (sym other ∙ clash))
        | inr apart ↦ elim (Bool-cases (k == a)) [
          | inl same ↦
              let e = (eq_iff k a).0 same in absurd (batch-ne-rwa h (p.replaced c (rw e found)))
          | inr far ↦ (c, writes a ∙ rw (apart, far) found, h, l)
        ]
      ]

      new_batch : read' b ≡ some (document c')
      new_batch = writes b ∙ rw (eq_refl b)

      Sorted-pair : Sorted read → Sorted read'
      Sorted-pair s = record {
        kind = λ j x e. elim (Bool-cases (b == j)) [
          | inl same ↦
              let path = (eq_iff b j).0 same in
              let now : read' j ≡ some (document c') = writes j ∙ rw same in
              rw (same_document e now, ← path) (is_batch p.q p.advance.still)
          | inr apart ↦ elim (Bool-cases (k == j)) [
            | inl same ↦
                let path = (eq_iff k j).0 same in
                let now : read' j ≡ some (document r) = writes j ∙ rw (apart, same) in
                rw (same_document e now, ← path)
                  (is_request b p.q c' p.keyed new_batch p.advance.still p.link)
            | inr other ↦
                kind_of_kept j x (version_pair j x other)
                  (s.kind j x (sym (writes j ∙ rw (apart, other)) ∙ e))
          ]
        ];
      }

-- The world state that a transaction leaves behind.
abbrev pub after : (String → Option Stored) → List Effect → String → Option Stored
after read w j = written j w (read j)

module _ {has : String → String → Bool} {read : String → Option Stored} {w : List Effect} where
  pub Committed-Sorted : Committed has read w → Sorted read → Sorted (after read w)
  Committed-Sorted (quiet same) s = rw (fun_ext same) s
  Committed-Sorted (single k d change writes) s =
      Sorted-single has read (after read w) k d change writes s
  Committed-Sorted (pair k r b c p writes) s =
      Sorted-pair has read (after read w) k r b c p writes s

  -- Every batch is still there, and has advanced.
  pub Committed-Advance :
      Committed has read w
      → (b : String) (q : Number) (c : Fields) → read b ≡ some (document c)
      → IsBatch b q c
      → (c' : Fields) × (after read w b ≡ some (document c'))
        × Advance b q c c'
        × Authority has c c'
  Committed-Advance (quiet same) b q c found h = (c, same b ∙ found, Advance-refl h, inl refl)
  Committed-Advance (single k d change writes) b q c found h =
      Kept-single has read (after read w) k d change writes b q c found h
  Committed-Advance (pair k r a c₁ p writes) b q c found h =
      Kept-pair has read (after read w) k r a c₁ p writes b q c found h
