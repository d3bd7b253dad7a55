-- ===== src/Contract/Batches.antt =====
-- New versions of a batch: which fields a version leaves alone, and what that is enough for.
use sustainable_fashion_chai.Prelude.{
  String, ◌≡◌, refl, ◌∙◌, true, false, List, [], ◌∷◌, arith, ◌==◌, eq_iff, inl, inr, Bool-cases,
  any,
}
use sustainable_fashion_chai.Number.{Number}
use sustainable_fashion_chai.Json.{Value, Fields, get, set, is_text}
use sustainable_fashion_chai.Json.Laws.{get-set}
use sustainable_fashion_chai.Fabric.{ok}
use sustainable_fashion_chai.Contract.{push_onto}
use sustainable_fashion_chai.Contract.Kinds.{push_onto_lem}
use sustainable_fashion_chai.Contract.Records.{
  IsBatch, Link, Advance, is_batch_status, is_request_status,
}

-- `d` has the fields of `c` whose names are in `names`.
pub record Agree (names : List String) (c d : Fields) : Type 0 where
  pub at : (j : String) → any (λ n. n == j) names ≡ true → get j d ≡ get j c

pub Agree-refl : (names : List String) (c : Fields) → Agree names c c
Agree-refl names c = record { at = λ j h. refl }

pub Agree-set :
    (names : List String) (k : String) (v : Value) (c d : Fields)
    → any (λ n. n == k) names ≡ false
    → Agree names c d
    → Agree names c (set k v d)
Agree-set names k v c d free agree = record {
  at = λ j h. elim (Bool-cases (k == j)) [
    | inl same ↦ let e = (eq_iff k j).0 same in cc (rw (← e) at h, free)
    | inr other ↦ get-set k j v d ∙ rw other (agree.at j h)
  ];
}

pub Agree-push_onto :
    (names : List String) (k : String) (v : Value) (c d d' : Fields)
    → any (λ n. n == k) names ≡ false
    → push_onto k v d ≡ ok d'
    → Agree names c d
    → Agree names c d'
Agree-push_onto names k v c d d' free h agree =
    let (vs, was, now) = push_onto_lem k v d d' h in rw now (Agree-set names k _ c d free agree)

pub get-push_onto :
    (k j : String) (v : Value) (d d' : Fields)
    → (k == j) ≡ false
    → push_onto k v d ≡ ok d'
    → get j d' ≡ get j d
get-push_onto k j v d d' other h =
    let (vs, was, now) = push_onto_lem k v d d' h in rw now (get-set k j _ d ∙ rw other)

pub Agree-tail :
    (n : String) (names : List String) (c d : Fields) → Agree (n ∷ names) c d → Agree names c d
Agree-tail n names c d a = record { at = λ j h. a.at j (ground arith) }

-- The fields of a batch that are fixed, and those of its verification and tokenization.
abbrev pub settled : List String
settled =
    "batchId" ∷ "quantity" ∷ "quantityKg" ∷ "nftTokenId" ∷ "producer" ∷ "createdAt" ∷ "harvestDate"
    ∷ "tokenizedKg" ∷ "rwaStatus" ∷ "certificationHash" ∷ "tokenizationId" ∷ []

module _ (k : String) (q : Number) (c d : Fields) where
  pub IsBatch-settled :
      Agree settled c d → is_batch_status (get "status" d) ≡ true → IsBatch k q c → IsBatch k q d
  IsBatch-settled a st h = record {
    keyed = h.keyed;
    batch_id = a.at "batchId" refl ∙ h.batch_id;
    quantity = a.at "quantity" refl ∙ h.quantity;
    quantity_kg = a.at "quantityKg" refl ∙ h.quantity_kg;
    positive = h.positive;
    status = st;
    rwa = rw (a.at "rwaStatus" refl) h.rwa;
    no_nft = a.at "nftTokenId" refl ∙ h.no_nft;
    tokenized = rw (a.at "tokenizedKg" refl) h.tokenized;
  }

  pub Advance-settled :
      Agree settled c d → is_batch_status (get "status" d) ≡ true → IsBatch k q c → Advance k q c d
  Advance-settled a st h = record {
    still = IsBatch-settled a st h;
    producer = a.at "producer" refl;
    created = a.at "createdAt" refl;
    harvested = a.at "harvestDate" refl;
    stage = rw (a.at "rwaStatus" refl) (omega arith);
    certificate = λ _. a.at "certificationHash" refl;
    tokenization = λ _. a.at "tokenizationId" refl;
  }

  pub Link-settled :
      (j : String) (r : Fields)
      → get "rwaStatus" d ≡ get "rwaStatus" c
      → get "pendingTokenizationId" d ≡ get "pendingTokenizationId" c
      → Link j r k q c
      → Link j r k q d
  Link-settled j r e p l = record {
    amount = l.amount;
    request_rwa = l.request_rwa;
    request_nft = l.request_nft;
    batch_of = l.batch_of;
    requested = l.requested;
    positive = l.positive;
    within = l.within;
    status = l.status;
    pending = p ∙ l.pending;
    certified = rw e l.certified;
    coupled = rw e l.coupled;
  }

-- The fields of a request that no transaction changes.
abbrev pub asked : List String
asked = "rwaStatus" ∷ "nftTokenId" ∷ "batchId" ∷ "quantity" ∷ []

-- A new version of a request, and of its batch.
pub Link-next :
    {k b : String} {r c : Fields} {q : Number} (r' c' : Fields)
    → Agree asked r r'
    → is_request_status (get "status" r') ≡ true
    → get "pendingTokenizationId" c' ≡ get "pendingTokenizationId" c
    → is_text "PRODUCED" (get "rwaStatus" c') ≡ false
    → is_text "COMPLETED" (get "status" r') ≡ is_text "TOKENIZED" (get "rwaStatus" c')
    → Link k r b q c
    → Link k r' b q c'
Link-next r' c' a status pending certified coupled l = record {
  amount = l.amount;
  request_rwa = a.at "rwaStatus" refl ∙ l.request_rwa;
  request_nft = a.at "nftTokenId" refl ∙ l.request_nft;
  batch_of = a.at "batchId" refl ∙ l.batch_of;
  requested = a.at "quantity" refl ∙ l.requested;
  positive = l.positive;
  within = l.within;
  status = status;
  pending = pending ∙ l.pending;
  certified = certified;
  coupled = coupled;
}
