-- ===== src/Cache/Middleware.antt =====
-- The cache middleware of fabric/application/middleware/cache.js, around a handler that answers by
-- res.json.
use sustainable_fashion_chai.Prelude.{
  ℕ, String, Bool, true, false, not, ◌&&◌, ◌||◌, Option, none, some, List, [], ◌∷◌, ◌++◌, ◌==◌,
  join, nat_eq, if◌then◌else◌,
}
use sustainable_fashion_chai.Json.{Value, obj, Fields, end, field, truthy}
use sustainable_fashion_chai.Cache.{Redis, Codec, Stored, get, set, clear_by_prefix, ttl_short}

pub record Request : Type 0 where
  pub original_url : String
  pub method : String
  pub user_id : Option String
  pub query : Fields
  pub body : Fields

-- `cache` is the header X-Cache.
pub record Response : Type 0 where
  pub status : ℕ
  pub data_sent : Value
  pub cache : Option String

abbrev user_part : Option String → String
user_part none = "anonymous"
user_part (some i) = i

-- Object.keys(o).length > 0
abbrev has_keys : Fields → Bool
has_keys end = false
has_keys (field k v fs) = true

-- parts.join(':'), from the second part on
abbrev after_colon : List String → List String
after_colon [] = []
after_colon (p ∷ ps) = ":" ∷ p ∷ after_colon ps

abbrev when : Bool → String → List String
when true part = part ∷ []
when false part = []

module _ (codec : Codec) where
  unfoldable pub generate_cache_key : Request → String
  generate_cache_key req = join (
      req.original_url
      ∷ after_colon (
          req.method
            ∷ user_part req.user_id
            ∷ when (has_keys req.query) (codec.stringify (obj req.query))
          ++ when ((req.method == "POST" || req.method == "PUT") && has_keys req.body)
              (codec.stringify (obj req.body))))

  module _ (redis : Redis) where
    -- res.json as the middleware overrides it; a hit answers with the status of a new response.
    abbrev pub answer_miss :
        String → ℕ → Response → Stored codec redis → Response × Stored codec redis
    answer_miss key ttl r s =
        (record r { cache = some "MISS" }, (set codec redis key r.data_sent ttl s).1)

    abbrev pub answer_hit : Value → Response
    answer_hit v = record { status = 200; data_sent = v; cache = some "HIT" }

    abbrev pub answer_from :
        Value → String → ℕ → Response → Stored codec redis → Response × Stored codec redis
    answer_from cached_data key ttl r s =
        if truthy cached_data then (answer_hit cached_data, s) else answer_miss key ttl r s

    -- cache(ttl), in front of the handler
    unfoldable pub cache :
        ℕ → (Request → Response) → Request → Stored codec redis → Response × Stored codec redis
    cache ttl handler req s =
        if not (req.method == "GET") && not (nat_eq ttl ttl_short)
        then (handler req, s)
        else let key = generate_cache_key req in
          answer_from (get codec redis key s) key ttl (handler req) s

    -- clearCache(routes), which goes on to the handler in any case
    unfoldable pub clear_cache : List String → Stored codec redis → Stored codec redis
    clear_cache [] s = s
    clear_cache (route ∷ routes) s = clear_cache routes (clear_by_prefix codec redis route s).1
