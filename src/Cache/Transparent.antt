-- ===== src/Cache/Transparent.antt =====
-- The cache middleware against the handler alone.
use sustainable_fashion_chai.Prelude.{
  ℕ, String, ◌≡◌, refl, sym, ap, ◌∙◌, Bool, true, false, not, ◌&&◌, some, List, [], ◌∷◌, ◌==◌, map,
  eq_iff, Bool-cases, inl, inr, nat_eq, if◌then◌else◌,
}
use sustainable_fashion_chai.Json.{Value, truthy}
use sustainable_fashion_chai.Cache.{Redis, Codec, Stored, get, set, ttl_short}
use sustainable_fashion_chai.Cache.Service.{set-stored, set-cases, get-cases}
use sustainable_fashion_chai.Cache.Middleware.{
  Request, Response, generate_cache_key, answer_from, cache,
}

module _ (codec : Codec) (redis : Redis) (handler : Request → Response) where
  -- The handler answers alike where the cache keys are equal, with data that their JSON text
  -- determines.
  pub record Cacheable : Type 0 where
    pub same_key :
        (req req' : Request)
        → generate_cache_key codec req ≡ generate_cache_key codec req'
        → handler req ≡ handler req'
    pub round_trip :
        (req : Request)
        → codec.parse (codec.stringify (handler req).data_sent) ≡ some (handler req).data_sent

  -- What Redis holds under the key of a request is the text of the handler's answer.
  pub record Coherent (s : Stored codec redis) : Type 0 where
    pub held :
        (req : Request) (text : String)
        → redis.value_at s (generate_cache_key codec req) ≡ some text
        → text ≡ codec.stringify (handler req).data_sent

  module _ (fit : Cacheable) where
    Coherent-set :
        (req : Request) (ttl : ℕ) (s : Stored codec redis)
        → Coherent s
        → Coherent (set codec redis (generate_cache_key codec req) (handler req).data_sent ttl s).1
    Coherent-set req ttl s h = elim (set-cases codec redis k v ttl s) [
      | inr same ↦ rw same h
      | inl stored ↦ record {
        held = λ other text e.
            by_key other text (k == generate_cache_key codec other) refl (
              sym (set-stored codec redis k v ttl s _ (generate_cache_key codec other) stored) ∙ e);
      }
    ]
      where
        k : String
        k = generate_cache_key codec req

        v : Value
        v = (handler req).data_sent

        by_key :
            (other : Request) (text : String) (b : Bool)
            → (k == generate_cache_key codec other) ≡ b
            → (if b
                then some (codec.stringify v)
                else redis.value_at s (generate_cache_key codec other))
              ≡ some text
            → text ≡ codec.stringify (handler other).data_sent
        by_key other text true q e =
            let alike = fit.same_key req other ((eq_iff k (generate_cache_key codec other)).0 q) in
            let is_text : codec.stringify v ≡ text = cc e in
            sym is_text ∙ ap (λ r. codec.stringify r.data_sent) alike
        by_key other text false q e = h.held other text e

    -- A text that is read back truthy is the handler's answer.
    get-answer :
        (req : Request) (s : Stored codec redis)
        → Coherent s
        → truthy (get codec redis (generate_cache_key codec req) s) ≡ true
        → get codec redis (generate_cache_key codec req) s ≡ (handler req).data_sent
    unfolding truthy
    get-answer req s h full = elim (get-cases codec redis (generate_cache_key codec req) s) [
      | inl nothing ↦ absurd (cc (rw nothing at full))
      | inr (text, held, read) ↦ read ∙ rw (h.held req text held, fit.round_trip req) refl
    ]

    -- One request through the middleware: the data are those of the handler alone, and Redis stays
    -- coherent.
    cache_lem :
        (ttl : ℕ) (req : Request) (s : Stored codec redis)
        → Coherent s
        → ((cache codec redis ttl handler req s).0.data_sent ≡ (handler req).data_sent)
          × Coherent (cache codec redis ttl handler req s).1
    unfolding cache
    cache_lem ttl req s h =
        elim (Bool-cases (not (req.method == "GET") && not (nat_eq ttl ttl_short))) [
          | inl skip ↦ rw skip (refl, h)
          | inr on ↦ rw on (by_value _ refl)
        ]
      where
        k : String
        k = generate_cache_key codec req

        by_value :
            (v : Value)
            → get codec redis k s ≡ v
            → ((answer_from codec redis v k ttl (handler req) s).0.data_sent
                ≡ (handler req).data_sent)
              × Coherent (answer_from codec redis v k ttl (handler req) s).1
        by_value v e = elim (Bool-cases (truthy v)) [
          | inl hit ↦ rw hit (sym e ∙ get-answer req s h (rw e hit), h)
          | inr miss ↦ rw miss (refl, Coherent-set req ttl s h)
        ]

    abbrev pub serve_all : ℕ → List Request → Stored codec redis → List Value
    serve_all ttl [] s = []
    serve_all ttl (req ∷ reqs) s =
        let answered = cache codec redis ttl handler req s in
        answered.0.data_sent ∷ serve_all ttl reqs answered.1

    -- With a handler whose answers depend on the cache key alone and survive JSON, and a cache that
    -- holds nothing else under the keys, a sequence of requests through the middleware is answered
    -- with the data that the handler alone answers with, whichever calls of Redis throw.
    pub serve_all_lem :
        (ttl : ℕ) (reqs : List Request) (s : Stored codec redis)
        → Coherent s
        → serve_all ttl reqs s ≡ map (λ req. (handler req).data_sent) reqs
    serve_all_lem ttl [] s h = refl
    serve_all_lem ttl (req ∷ reqs) s h =
        let (same, next) = cache_lem ttl req s h in
        rw (same, serve_all_lem ttl reqs (cache codec redis ttl handler req s).1 next) refl
