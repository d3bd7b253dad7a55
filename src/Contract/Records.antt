-- ===== src/Contract/Records.antt =====
-- The records of the world state that the transactions of index.js keep apart: cotton batches,
-- tokenization requests with the batch behind each, and products.
use sustainable_fashion_chai.Prelude.{
  ℕ, String, ◌≡◌, ◌≢◌, ◌≤◌, Bool, true, false, not, ◌||◌, ◌⊎◌, Option, some, if◌then◌else◌,
}
use sustainable_fashion_chai.Number.{Number, less, not_positive}
use sustainable_fashion_chai.Json.{Value, undefined, num, str, Fields, get, is_text}
use sustainable_fashion_chai.Fabric.{Stored, document}

abbrev pub is_batch_status : Value → Bool
is_batch_status v = is_text "HARVESTED" v || is_text "STORED" v || is_text "TOKENIZED" v

abbrev pub is_rwa_status : Value → Bool
is_rwa_status v = is_text "PRODUCED" v || is_text "VERIFIED" v || is_text "TOKENIZED" v

abbrev pub is_request_status : Value → Bool
is_request_status v = is_text "PENDING" v || is_text "APPROVED" v || is_text "COMPLETED" v

-- Nothing yet, or a number that does not exceed `q`.
abbrev pub is_within : Number → Value → Bool
is_within q undefined = true
is_within q (num t) = not (less q t)
is_within q _ = false

-- The stage of a batch: produced, verified, tokenized.
abbrev pub rank : Value → ℕ
rank v = if is_text "PRODUCED" v then 0 else if is_text "VERIFIED" v then 1 else 2

-- A cotton batch of `q` kg under the key `k`.
pub record IsBatch (k : String) (q : Number) (d : Fields) : Type 0 where
  pub keyed : k ≢ ""
  pub batch_id : get "batchId" d ≡ str k
  pub quantity : get "quantity" d ≡ num q
  pub quantity_kg : get "quantityKg" d ≡ num q
  pub positive : not_positive q ≡ false
  pub status : is_batch_status (get "status" d) ≡ true
  pub rwa : is_rwa_status (get "rwaStatus" d) ≡ true
  pub no_nft : get "nftTokenId" d ≡ undefined
  pub tokenized : is_within q (get "tokenizedKg" d) ≡ true

-- `r`, under the key `k`, is the tokenization request of the batch `c` of `q` kg under `b`.
pub record Link (k : String) (r : Fields) (b : String) (q : Number) (c : Fields) : Type 0 where
  pub amount : Number
  pub request_rwa : get "rwaStatus" r ≡ undefined
  pub request_nft : get "nftTokenId" r ≡ undefined
  pub batch_of : get "batchId" r ≡ str b
  pub requested : get "quantity" r ≡ num amount
  pub positive : not_positive amount ≡ false
  pub within : less q amount ≡ false
  pub status : is_request_status (get "status" r) ≡ true
  pub pending : get "pendingTokenizationId" c ≡ str k
  pub certified : is_text "PRODUCED" (get "rwaStatus" c) ≡ false
  pub coupled : is_text "COMPLETED" (get "status" r) ≡ is_text "TOKENIZED" (get "rwaStatus" c)

pub record IsProduct (d : Fields) : Type 0 where
  pub no_rwa : get "rwaStatus" d ≡ undefined
  pub no_batch : get "batchId" d ≡ undefined

pub data Kind (read : String → Option Stored) (k : String) (d : Fields) : Type 0 where
  is_batch : (q : Number) → IsBatch k q d → Kind read k d
  is_request :
      (b : String) (q : Number) (c : Fields)
      → k ≢ ""
      → read b ≡ some (document c)
      → IsBatch b q c
      → Link k d b q c
      → Kind read k d
  is_product : IsProduct d → Kind read k d

-- Every document of a world state is a batch, a request with its batch, or a product.
pub record Sorted (read : String → Option Stored) : Type 0 where
  pub kind : (k : String) (d : Fields) → read k ≡ some (document d) → Kind read k d

-- Between two versions of a batch written by one client, who has the roles `has`: the rwaStatus is
-- the same, or a certifier verified the batch, or the bridge tokenized it.
abbrev pub Authority : (String → String → Bool) → Fields → Fields → Type 0
Authority has c d =
    (get "rwaStatus" d ≡ get "rwaStatus" c)
    ⊎ ((get "rwaStatus" c ≡ str "PRODUCED")
        × (get "rwaStatus" d ≡ str "VERIFIED")
        × (has "sfc.role" "certifier" ≡ true))
    ⊎ ((get "rwaStatus" c ≡ str "VERIFIED")
        × (get "rwaStatus" d ≡ str "TOKENIZED")
        × (has "sfc.role" "bridge" ≡ true))

-- What a batch keeps from one version to the next, and how far it may move.
pub record Advance (k : String) (q : Number) (c c' : Fields) : Type 0 where
  pub still : IsBatch k q c'
  pub producer : get "producer" c' ≡ get "producer" c
  pub created : get "createdAt" c' ≡ get "createdAt" c
  pub harvested : get "harvestDate" c' ≡ get "harvestDate" c
  pub stage : rank (get "rwaStatus" c) ≤ rank (get "rwaStatus" c')
  pub certificate :
      is_text "PRODUCED" (get "rwaStatus" c) ≡ false
      → get "certificationHash" c' ≡ get "certificationHash" c
  pub tokenization :
      is_text "TOKENIZED" (get "rwaStatus" c) ≡ true
      → get "tokenizationId" c' ≡ get "tokenizationId" c
