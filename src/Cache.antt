-- ===== src/Cache.antt =====
-- The cache service of fabric/application/services/cacheService.js. The Redis client is a
-- parameter, any call of which may throw; the service catches every error.
pub mod Middleware
pub mod Service
pub mod Transparent
pub mod Status
mod Memory
mod Tests
use sustainable_fashion_chai.Prelude.{
  ℕ, String, ◌≡◌, Bool, true, false, Option, none, some, List, [], ◌∷◌, ◌==◌, any, join,
  if◌then◌else◌,
}
use sustainable_fashion_chai.Json.{Value, null}
use sustainable_fashion_chai.Fabric.{Result, ok, err}

-- The server, through the client. `value_at` is what it holds; a value that expires meanwhile is
-- not modelled. `matches` is whether a key matches a pattern of the command KEYS.
pub record Redis : Type 1 where
  pub State : Type 0
  pub value_at : State → String → Option String
  pub matches : String → String → Bool
  pub get : String → State → Result (Option String)
  pub set : String → String → ℕ → State → Result State
  pub del : List String → State → Result State
  pub keys : String → State → Result (List String)
  pub flushall : State → Result State
  pub get-value : (k : String) (s : State) (o : Option String) → get k s ≡ ok o → o ≡ value_at s k
  pub set-value :
      (k v : String) (ttl : ℕ) (s t : State) (j : String)
      → set k v ttl s ≡ ok t
      → value_at t j ≡ (if k == j then some v else value_at s j)
  pub del-value :
      (ks : List String) (s t : State) (j : String)
      → del ks s ≡ ok t
      → value_at t j ≡ (if any (λ k. k == j) ks then none else value_at s j)
  pub keys-value :
      (p : String) (s : State) (ks : List String) (j v : String)
      → keys p s ≡ ok ks
      → value_at s j ≡ some v
      → any (λ k. k == j) ks ≡ matches p j
  pub flushall-value : (s t : State) (j : String) → flushall s ≡ ok t → value_at t j ≡ none

-- JSON.stringify(v), where Redis stores `undefined` as an empty text; JSON.parse(text), or none.
pub record Codec : Type 0 where
  pub stringify : Value → String
  pub parse : String → Option Value

abbrev pub ttl_short : ℕ
ttl_short = 300

abbrev pub ttl_medium : ℕ
ttl_medium = 3600

module _ (codec : Codec) (redis : Redis) where
  abbrev pub Stored : Type 0
  Stored = redis.State

  abbrev pub decoded : Option Value → Value
  decoded none = null
  decoded (some v) = v

  -- value ? JSON.parse(value) : null, or null where the try block throws
  abbrev pub read_back : Result (Option String) → Value
  read_back (ok (some text)) = if text == "" then null else decoded (codec.parse text)
  read_back (ok none) = null
  read_back (err e) = null

  abbrev pub done : Stored → Result Stored → Bool × Stored
  done s (ok t) = (true, t)
  done s (err e) = (false, s)

  unfoldable pub get : String → Stored → Value
  get key s = read_back (redis.get key s)

  unfoldable pub set : String → Value → ℕ → Stored → Bool × Stored
  set key v ttl s = done s (redis.set key (codec.stringify v) ttl s)

  unfoldable pub delete : String → Stored → Bool × Stored
  delete key s = done s (redis.del (key ∷ []) s)

  unfoldable pub clear : Stored → Bool × Stored
  clear s = done s (redis.flushall s)

  unfoldable pub get_batch : String → Stored → Value
  unfolding get
  get_batch batch_id = get (join ("batch:" ∷ batch_id ∷ []))

  unfoldable pub set_batch : String → Value → Stored → Bool × Stored
  unfolding set
  set_batch batch_id v = set (join ("batch:" ∷ batch_id ∷ [])) v ttl_medium

  unfoldable pub get_product : String → Stored → Value
  unfolding get
  get_product product_id = get (join ("product:" ∷ product_id ∷ []))

  unfoldable pub set_product : String → Value → Stored → Bool × Stored
  unfolding set
  set_product product_id v = set (join ("product:" ∷ product_id ∷ [])) v ttl_medium

  unfoldable pub get_analytics : String → Stored → Value
  unfolding get
  get_analytics metric = get (join ("analytics:" ∷ metric ∷ []))

  unfoldable pub set_analytics : String → Value → Stored → Bool × Stored
  unfolding set
  set_analytics metric v = set (join ("analytics:" ∷ metric ∷ [])) v ttl_short

  -- if (keys.length > 0) await this.redis.del(keys);
  abbrev pub delete_found : Stored → Result (List String) → Bool × Stored
  delete_found s (ok []) = (true, s)
  delete_found s (ok (k ∷ ks)) = done s (redis.del (k ∷ ks) s)
  delete_found s (err e) = (false, s)

  unfoldable pub clear_by_prefix : String → Stored → Bool × Stored
  clear_by_prefix prefix s = delete_found s (redis.keys (join (prefix ∷ "*" ∷ [])) s)
