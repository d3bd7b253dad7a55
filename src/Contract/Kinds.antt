-- ===== src/Contract/Kinds.antt =====
-- What the guards of the transactions say of the kind of a record, and how `push` changes one.
use sustainable_fashion_chai.Prelude.{
  String, ◌≡◌, ◌≢◌, refl, true, false, Option, some, List, arith, ◌==◌, eq_iff,
}
use sustainable_fashion_chai.Number.{Number}
use sustainable_fashion_chai.Json.{
  Value, str, arr, Items, Fields, get, set, push_item, truthy, is_text,
}
use sustainable_fashion_chai.Json.Laws.{is_text→eq}
use sustainable_fashion_chai.Fabric.{Stored, document, Error, ok, Effect, Env, Exec, ◌>>=◌}
use sustainable_fashion_chai.Fabric.Returns.{Returns, Returns-load}
use sustainable_fashion_chai.Contract.{push_onto, load_at}
use sustainable_fashion_chai.Contract.Records.{
  IsBatch, IsProduct, Kind, is_batch, is_request, is_product,
}

pushed_lem :
    (k : String) (v : Value) (fs fs' : Fields) (old : Value)
    → get k fs ≡ old
    → push_onto k v fs ≡ ok fs'
    → (vs : Items) × (get k fs ≡ arr vs) × (fs' ≡ set k (arr (push_item v vs)) fs)
unfolding push_onto
pushed_lem k v fs fs' (arr vs) e h = (vs, e, ground arith)
pushed_lem k v fs fs' _ e h = ground arith

pub push_onto_lem :
    (k : String) (v : Value) (fs fs' : Fields)
    → push_onto k v fs ≡ ok fs'
    → (vs : Items) × (get k fs ≡ arr vs) × (fs' ≡ set k (arr (push_item v vs)) fs)
push_onto_lem k v fs fs' h = pushed_lem k v fs fs' (get k fs) refl h

pub text_truthy : (s : String) → s ≢ "" → truthy (str s) ≡ true
unfolding truthy
text_truthy s h = ground (arith, eq_iff s "")

module _ {read : String → Option Stored} {k : String} {d : Fields} where
  -- Only a product has no batchId.
  pub IsProduct-of_unbatched : Kind read k d → truthy (get "batchId" d) ≡ false → IsProduct d
  IsProduct-of_unbatched (is_batch q h) e = cc (rw h.batch_id at e, text_truthy k h.keyed)
  IsProduct-of_unbatched (is_request b q c keyed found h l) e =
      cc (rw l.batch_of at e, text_truthy b h.keyed)
  IsProduct-of_unbatched (is_product p) e = p

  -- Only a product has one of the states of the NFT's life, or a token.
  pub IsProduct-of_status :
      (s : String)
      → ((s == "HARVESTED") ≡ false)
        × ((s == "STORED") ≡ false)
        × ((s == "TOKENIZED") ≡ false)
        × ((s == "PENDING") ≡ false)
        × ((s == "APPROVED") ≡ false)
        × ((s == "COMPLETED") ≡ false)
      → Kind read k d
      → is_text s (get "status" d) ≡ true
      → IsProduct d
  unfolding is_text
  IsProduct-of_status s free (is_batch q h) e =
      let st = is_text→eq s (get "status" d) e in cc (rw (st, free.0, free.1, free.2) at h.status)
  IsProduct-of_status s free (is_request b q c keyed found h l) e =
      let st = is_text→eq s (get "status" d) e in cc (rw (st, free.3, free.4, free.5) at l.status)
  IsProduct-of_status s free (is_product p) e = p

  -- Only a batch has an rwaStatus.
  pub IsBatch-of_rwa :
      (s : String)
      → Kind read k d
      → is_text s (get "rwaStatus" d) ≡ true
      → (q : Number) × IsBatch k q d
  unfolding is_text
  IsBatch-of_rwa s (is_batch q h) e = (q, h)
  IsBatch-of_rwa s (is_request b q c keyed found h l) e = cc (rw l.request_rwa at e)
  IsBatch-of_rwa s (is_product p) e = cc (rw p.no_rwa at e)

  pub IsProduct-of_token : Kind read k d → truthy (get "nftTokenId" d) ≡ true → IsProduct d
  unfolding truthy
  IsProduct-of_token (is_batch q h) e = cc (rw h.no_nft at e)
  IsProduct-of_token (is_request b q c keyed found h l) e = cc (rw l.request_nft at e)
  IsProduct-of_token (is_product p) e = p

module _ {A : Type 0} {Q : A → List Effect → Type 0} {w : List Effect} (env : Env) where
  pub Returns-load_at :
      (v : Value) (e : String → Error) (f : Fields → Exec A)
      → ((d : Fields) (k : String) → v ≡ str k → env.read k ≡ some (document d) → Returns Q w (f d))
      → Returns Q w (load_at env v e >>= f)
  unfolding ◌>>=◌
  Returns-load_at (str k) e f h = Returns-load env k (e k) f λ d found. h d k refl found
  Returns-load_at _ e f h = record { at = tt }
