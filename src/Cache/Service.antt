-- ===== src/Cache/Service.antt =====
-- What the calls of the cache service leave in Redis.
use sustainable_fashion_chai.Prelude.{
  ℕ, String, ◌≡◌, ◌≢◌, ◌⊎◌, false≢true, eq_refl, refl, sym, ap, ◌∙◌, Bool, true, false, Option,
  none, some, List, [], ◌∷◌, ◌==◌, any, join, eq_iff, arith, inl, inr, if◌then◌else◌,
}
use sustainable_fashion_chai.Json.{Value, null}
use sustainable_fashion_chai.Fabric.{Result, ok, err}
use sustainable_fashion_chai.Cache.{
  Redis, Codec, Stored, done, read_back, decoded, get, set, delete_found, clear_by_prefix,
}

module _ (codec : Codec) (redis : Redis) where
  -- A call that says it was done took the state of the command.
  done_ok :
      (s t : Stored codec redis) (r : Result (Stored codec redis))
      → done codec redis s r ≡ (true, t)
      → r ≡ ok t
  done_ok s t (ok u) e = ap (λ x. ok x) (ap (λ x. x.1) e)
  done_ok s t (err x) e = absurd (false≢true (ap (λ x. x.0) e))

  pub set-stored :
      (k : String) (v : Value) (ttl : ℕ) (s t : Stored codec redis) (j : String)
      → set codec redis k v ttl s ≡ (true, t)
      → redis.value_at t j ≡ (if k == j then some (codec.stringify v) else redis.value_at s j)
  unfolding set
  set-stored k v ttl s t j e = redis.set-value k (codec.stringify v) ttl s t j (done_ok s t _ e)

  -- A call either throws, and changes nothing, or says that it was done.
  pub set-cases :
      (k : String) (v : Value) (ttl : ℕ) (s : Stored codec redis)
      → (set codec redis k v ttl s ≡ (true, (set codec redis k v ttl s).1))
        ⊎ ((set codec redis k v ttl s).1 ≡ s)
  unfolding set
  set-cases k v ttl s = by_result (redis.set k (codec.stringify v) ttl s)
    where
      by_result :
          (r : Result (Stored codec redis))
          → (done codec redis s r ≡ (true, (done codec redis s r).1))
            ⊎ ((done codec redis s r).1 ≡ s)
      by_result (ok t) = inl refl
      by_result (err x) = inr refl

  -- What `get` reads is null, or what the server holds under the key.
  pub get-cases :
      (k : String) (s : Stored codec redis)
      → (get codec redis k s ≡ null)
        ⊎ ((text : String) × (redis.value_at s k ≡ some text)
            × (get codec redis k s ≡ decoded codec redis (codec.parse text)))
  unfolding get
  get-cases k s = by_reply (redis.get k s) refl
    where
      by_text :
          (text : String) (b : Bool)
          → redis.value_at s k ≡ some text
          → ((if b then null else decoded codec redis (codec.parse text)) ≡ null)
            ⊎ ((t : String) × (redis.value_at s k ≡ some t)
                × ((if b then null else decoded codec redis (codec.parse text))
                    ≡ decoded codec redis (codec.parse t)))
      by_text text true held = inl refl
      by_text text false held = inr (text, held, refl)

      by_reply :
          (r : Result (Option String))
          → redis.get k s ≡ r
          → (read_back codec redis r ≡ null)
            ⊎ ((text : String) × (redis.value_at s k ≡ some text)
                × (read_back codec redis r ≡ decoded codec redis (codec.parse text)))
      by_reply (ok none) e = inl refl
      by_reply (ok (some text)) e =
          by_text text (text == "") (sym (redis.get-value k s (some text) e))
      by_reply (err x) e = inl refl

  -- When a value was set, and Redis answers afterwards, `get` under the same key gives the value
  -- back, for a value that its JSON text determines; and no other key is changed.
  pub get-set :
      (k : String) (v : Value) (ttl : ℕ) (s t : Stored codec redis) (o : Option String)
      → codec.stringify v ≢ ""
      → codec.parse (codec.stringify v) ≡ some v
      → set codec redis k v ttl s ≡ (true, t)
      → redis.get k t ≡ ok o
      → (get codec redis k t ≡ v) × ((j : String) → j ≢ k → redis.value_at t j ≡ redis.value_at s j)
  unfolding get
  get-set k v ttl s t o full parsed e replied = (read, kept)
    where
      held : o ≡ some (codec.stringify v)
      held = redis.get-value k t o replied ∙ set-stored k v ttl s t k e ∙ rw (eq_refl k) refl

      not_empty : (codec.stringify v == "") ≡ false
      not_empty = ground (arith, eq_iff (codec.stringify v) "", full)

      read : get codec redis k t ≡ v
      read = rw (replied, held, not_empty, parsed) refl

      kept : (j : String) → j ≢ k → redis.value_at t j ≡ redis.value_at s j
      kept j other = ground (arith, set-stored k v ttl s t j e, eq_iff k j, other)

  -- When clearByPrefix says it was done, Redis holds nothing under the keys that match the prefix
  -- with a star after it, and the same as before under all others.
  pub clear_by_prefix-cleared :
      (prefix : String) (s t : Stored codec redis) (j : String)
      → clear_by_prefix codec redis prefix s ≡ (true, t)
      → redis.value_at t j
        ≡ (if redis.matches (join (prefix ∷ "*" ∷ [])) j then none else redis.value_at s j)
  unfolding clear_by_prefix
  clear_by_prefix-cleared prefix s t j = by_reply (redis.keys (join (prefix ∷ "*" ∷ [])) s) refl
    where
      agrees :
          (ks : List String) (o : Option String) (m : Bool)
          → redis.keys (join (prefix ∷ "*" ∷ [])) s ≡ ok ks
          → redis.value_at s j ≡ o
          → redis.matches (join (prefix ∷ "*" ∷ [])) j ≡ m
          → (if any (λ k. k == j) ks then none else o) ≡ (if m then none else o)
      agrees ks none m q held h = ground arith
      agrees ks (some v) m q held h = ground (arith, redis.keys-value _ s ks j v q held, h)

      by_reply :
          (r : Result (List String))
          → redis.keys (join (prefix ∷ "*" ∷ [])) s ≡ r
          → delete_found codec redis s r ≡ (true, t)
          → redis.value_at t j
            ≡ (if redis.matches (join (prefix ∷ "*" ∷ [])) j then none else redis.value_at s j)
      by_reply (ok []) q e =
          ap (λ u. redis.value_at u j) (sym (ap (λ x. x.1) e)) ∙ agrees [] _ _ q refl refl
      by_reply (ok (k ∷ ks)) q e =
          redis.del-value (k ∷ ks) s t j (done_ok s t _ e) ∙ agrees (k ∷ ks) _ _ q refl refl
      by_reply (err x) q e = absurd (false≢true (ap (λ x. x.0) e))
