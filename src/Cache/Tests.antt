-- ===== src/Cache/Tests.antt =====
-- A server in memory in front of a handler that answers with the key of the request.
use sustainable_fashion_chai.Prelude.{
  String, ◌≡◌, ◌≢◌, refl, ap, true, false, none, some, [], ◌∷◌, map, join, if◌then◌else◌,
}
use sustainable_fashion_chai.Json.{str, end, truthy}
use sustainable_fashion_chai.Fabric.{ok}
use sustainable_fashion_chai.Cache.{Codec, get, set, clear_by_prefix}
use sustainable_fashion_chai.Cache.Memory.{memory}
use sustainable_fashion_chai.Cache.Service.{get-set, clear_by_prefix-cleared}
use sustainable_fashion_chai.Cache.Status.{cache-status}
use sustainable_fashion_chai.Cache.Middleware.{Request, Response, generate_cache_key, cache}
use sustainable_fashion_chai.Cache.Transparent.{Cacheable, Coherent, serve_all, serve_all_lem}

-- JSON for texts alone.
abbrev texts : Codec
texts = record { stringify = λ v. elim v [ str s ↦ s | _ ↦ "" ]; parse = λ s. some (str s) }

abbrev handler : Request → Response
handler req = record { status = 500; data_sent = str (generate_cache_key texts req); cache = none }

abbrev request : Request
request = record {
  original_url = "/api/batches";
  method = "GET";
  user_id = some "7";
  query = end;
  body = end;
}

handler-Cacheable : Cacheable texts memory handler
handler-Cacheable = record {
  same_key = λ req req' e. ap (λ k. record { status = 500; data_sent = str k; cache = none }) e;
  round_trip = λ req. refl;
}

empty-Coherent : Coherent texts memory handler []
empty-Coherent = record { held = λ req text e. cc e }

serve_all_lem_example :
    serve_all texts memory handler handler-Cacheable 3600 (request ∷ request ∷ []) []
    ≡ map (λ req. (handler req).data_sent) (request ∷ request ∷ [])
serve_all_lem_example =
    serve_all_lem texts memory handler handler-Cacheable 3600 (request ∷ request ∷ []) []
      empty-Coherent

caching : Unit {0}
unfolding generate_cache_key join truthy get set clear_by_prefix
caching = tt

abbrev key : String
key = "/api/batches:GET:7"

key-of : generate_cache_key texts request ≡ key
unfolding caching
key-of = refl

stored :
    set texts memory (generate_cache_key texts request) (handler request).data_sent 3600 []
    ≡ (true, (key, key) ∷ [])
unfolding caching
stored = refl

missed : truthy (get texts memory (generate_cache_key texts request) []) ≡ false
unfolding caching
missed = refl

full : truthy (handler request).data_sent ≡ true
unfolding caching
full = refl

not_empty : generate_cache_key texts request ≢ ""
unfolding caching
not_empty e = cc e

read : memory.get (generate_cache_key texts request) ((key, key) ∷ []) ≡ ok (some key)
unfolding caching
read = refl

cache-status_example :
    (cache texts memory 3600 handler request []
      ≡ (record (handler request) { cache = some "MISS" }, (key, key) ∷ []))
    × (cache texts memory 3600 handler request ((key, key) ∷ []) ≡ (
      record { status = 200; data_sent = (handler request).data_sent; cache = some "HIT" },
      (key, key) ∷ [],
    ))
cache-status_example =
    cache-status texts memory handler 3600 request [] ((key, key) ∷ []) (some key) refl missed full
      not_empty refl stored read

not_empty_cotton : ◌≢◌ {A = String} "cotton" ""
not_empty_cotton e = cc e

set_cotton : set texts memory "batch:1" (str "cotton") 3600 [] ≡ (true, ("batch:1", "cotton") ∷ [])
unfolding caching
set_cotton = refl

read_cotton : memory.get "batch:1" (("batch:1", "cotton") ∷ []) ≡ ok (some "cotton")
read_cotton = refl

get-set_example :
    (get texts memory "batch:1" (("batch:1", "cotton") ∷ []) ≡ str "cotton")
    × ((j : String)
        → j ≢ "batch:1"
        → memory.value_at (("batch:1", "cotton") ∷ []) j ≡ memory.value_at [] j)
get-set_example =
    get-set texts memory "batch:1" (str "cotton") 3600 [] (("batch:1", "cotton") ∷ [])
      (some "cotton") not_empty_cotton refl set_cotton read_cotton

cleared :
    clear_by_prefix texts memory "batch:" (("batch:1", "cotton") ∷ ("user:1", "ann") ∷ [])
    ≡ (true, ("user:1", "ann") ∷ [])
unfolding caching
cleared = refl

clear_by_prefix-cleared_example : memory.value_at (("user:1", "ann") ∷ []) "batch:1" ≡ (
    if memory.matches (join ("batch:" ∷ "*" ∷ [])) "batch:1"
    then none
    else memory.value_at (("batch:1", "cotton") ∷ ("user:1", "ann") ∷ []) "batch:1")
clear_by_prefix-cleared_example =
    clear_by_prefix-cleared texts memory "batch:" (("batch:1", "cotton") ∷ ("user:1", "ann") ∷ [])
      (("user:1", "ann") ∷ []) "batch:1" cleared
