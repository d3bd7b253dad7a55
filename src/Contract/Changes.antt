-- ===== src/Contract/Changes.antt =====
-- What a transaction of index.js may do to a world state, and why that keeps every record sorted.
pub mod Commit
use sustainable_fashion_chai.Prelude.{
  String, ◌≡◌, ◌≢◌, Bool, true, false, Option, none, some, List, ◌==◌, if◌then◌else◌,
}
use sustainable_fashion_chai.Number.{Number}
use sustainable_fashion_chai.Json.{undefined, Fields, get}
use sustainable_fashion_chai.Fabric.{Stored, document, Effect}
use sustainable_fashion_chai.Fabric.Ledger.{written}
use sustainable_fashion_chai.Contract.Records.{IsBatch, Link, IsProduct, Advance, Authority}

-- A write of one document.
pub data Change (has : String → String → Bool) (read : String → Option Stored) (k : String)
    (d : Fields) : Type 0 where
  fresh_product : read k ≡ none → IsProduct d → Change has read k d
  fresh_batch : (q : Number) → read k ≡ none → IsBatch k q d → Change has read k d
  product :
      (c : Fields) → read k ≡ some (document c) → IsProduct c → IsProduct d → Change has read k d
  batch :
      (q : Number) (c : Fields)
      → read k ≡ some (document c)
      → IsBatch k q c
      → Advance k q c d
      → Authority has c d
      → ((j : String) (r : Fields) → Link j r k q c → Link j r k q d)
      → Change has read k d

-- A write of a request and its batch: the request is new, or a new version of a request.
pub record Pair (has : String → String → Bool) (read : String → Option Stored) (k : String)
    (r : Fields) (b : String) (c' : Fields) : Type 0 where
  pub keyed : k ≢ ""
  pub q : Number
  pub c : Fields
  pub found : read b ≡ some (document c)
  pub was : IsBatch b q c
  pub advance : Advance b q c c'
  pub authority : Authority has c c'
  pub link : Link k r b q c'
  pub only : (j : String) (s : Fields) → j ≢ "" → Link j s b q c → j ≡ k
  pub replaced : (d : Fields) → read k ≡ some (document d) → get "rwaStatus" d ≡ undefined

pub data Committed (has : String → String → Bool) (read : String → Option Stored) (w : List Effect)
    : Type 0 where
  quiet : ((j : String) → written j w (read j) ≡ read j) → Committed has read w
  single :
      (k : String) (d : Fields)
      → Change has read k d
      → ((j : String) → written j w (read j) ≡ (if k == j then some (document d) else read j))
      → Committed has read w
  pair :
      (k : String) (r : Fields) (b : String) (c : Fields)
      → Pair has read k r b c
      → ((j : String)
          → written j w (read j)
            ≡ (if b == j then some (document c) else if k == j then some (document r) else read j))
      → Committed has read w
