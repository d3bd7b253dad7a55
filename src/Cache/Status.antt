-- ===== src/Cache/Status.antt =====
-- The status of an answer from the cache.
use sustainable_fashion_chai.Prelude.{ℕ, String, ◌≡◌, ◌≢◌, refl, true, false, Option, some, ◌==◌}
use sustainable_fashion_chai.Json.{truthy}
use sustainable_fashion_chai.Fabric.{ok}
use sustainable_fashion_chai.Cache.{Redis, Codec, Stored, get, set}
use sustainable_fashion_chai.Cache.Service.{get-set}
use sustainable_fashion_chai.Cache.Middleware.{Request, Response, generate_cache_key, cache}

module _ (codec : Codec) (redis : Redis) (handler : Request → Response) where
  -- For a GET request that misses the cache, with data that are truthy and survive JSON as a text
  -- that is not empty, when Redis stores them and answers the next read: the first answer has the
  -- handler's status, whatever it is, and the same request is then answered with the same data
  -- and status 200.
  pub cache-status :
      (ttl : ℕ) (req : Request) (s t : Stored codec redis) (o : Option String)
      → req.method ≡ "GET"
      → truthy (get codec redis (generate_cache_key codec req) s) ≡ false
      → truthy (handler req).data_sent ≡ true
      → codec.stringify (handler req).data_sent ≢ ""
      → codec.parse (codec.stringify (handler req).data_sent) ≡ some (handler req).data_sent
      → set codec redis (generate_cache_key codec req) (handler req).data_sent ttl s ≡ (true, t)
      → redis.get (generate_cache_key codec req) t ≡ ok o
      → (cache codec redis ttl handler req s ≡ (record (handler req) { cache = some "MISS" }, t))
        × (cache codec redis ttl handler req t
            ≡ (record { status = 200; data_sent = (handler req).data_sent; cache = some "HIT" }, t))
  unfolding cache
  cache-status ttl req s t o is_get miss full not_empty parsed stored replied =
      let k = generate_cache_key codec req in
      let (again, _) =
        get-set codec redis k (handler req).data_sent ttl s t o not_empty parsed stored replied in
      let get_on : (req.method == "GET") ≡ true = rw is_get refl in
      (rw (get_on, miss, stored) refl, rw (get_on, again, full) refl)
