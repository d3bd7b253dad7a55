-- ===== src/Analytics/Fresh/Changes.antt =====
-- What each call does to the cached batches and their time.
use sustainable_fashion_chai.Prelude.{
  ℕ, zero, ◌<◌, ◌≡◌, refl, Bool, true, false, ◌||◌, Option, none, some, List, arith, ℤ, pos, negsuc,
  suc, if◌then◌else◌,
}
use sustainable_fashion_chai.Json.{Fields}
use sustainable_fashion_chai.Fabric.{Result, ok, err}
use sustainable_fashion_chai.Analytics.Metrics.{Env}
use sustainable_fashion_chai.Analytics.Batches.{BatchMetrics, batch_metrics}
use sustainable_fashion_chai.Analytics.Products.{product_metrics}
use sustainable_fashion_chai.Analytics.Service.{
  Call, continue, with_reply, query, lift, Service, is_fresh, stamped, ◌>>=◌, cached, ensure_fabric,
  load_batch, store_batch, get_batch_metrics, load_product, store_product, get_product_metrics,
  load_tokenization, get_tokenization_metrics, load_sustainability, store_sustainability,
  get_sustainability_metrics, analyze_circular_economy, clear_cache, set_cache_ttl,
}
use sustainable_fashion_chai.Analytics.Fresh.{
  Operation, batches, products, tokenization, sustainability, circular, clear, set_ttl, run,
  Computed,
}

-- What a call does to the cached batches: it keeps them and their time, or drops them, or stores
-- new ones with its own time.
pub data Change (env : Env) (s t : Service) : Type 0 where
  keeps :
      t.batch_cache ≡ s.batch_cache
      → ((u : ℕ) → 0 < u → s.last_update ≡ some u → t.last_update ≡ some u)
      → Change env s t
  drops : t.batch_cache ≡ none → Change env s t
  stores :
      (m : BatchMetrics)
      → Computed env m
      → t.batch_cache ≡ some m
      → t.last_update ≡ some env.now
      → Change env s t

Change-trans : {env : Env} {s t u : Service} → Change env s t → Change env t u → Change env s u
Change-trans (keeps b k) (keeps c l) = keeps (cc (b, c)) λ n p e. l n p (k n p e)
Change-trans (drops b) (keeps c l) = drops (cc (b, c))
Change-trans {env} (stores m h b k) (keeps c l) =
    stores m h (cc (b, c)) (l env.now env.after_1970 k)
Change-trans h (drops c) = drops c
Change-trans h (stores m g c l) = stores m g c l

module _ (env : Env) where
  abbrev Changes : {A : Type 0} → Call A → Type 0
  Changes m = (s : Service) → Change env s (m s).1

  keeps_all : (s : Service) → Change env s s
  keeps_all s = keeps refl λ u p e. e

  Changes-bind :
      {A B : Type 0} (m : Call A) (f : A → Call B)
      → Changes m
      → ((a : A) → Changes (f a))
      → Changes (m >>= f)
  unfolding ◌>>=◌
  Changes-bind {A} {B} m f h k s = after (m s) (h s)
    where
      after : (r : Result A × Service) → Change env s r.1 → Change env s (continue r f).1
      after (ok a, t) g = Change-trans g (k a t)
      after (err e, t) g = g

  stamped_lem : (o : Option ℕ) (u : ℕ) → 0 < u → o ≡ some u → stamped env o ≡ some u
  unfolding stamped
  stamped_lem none u p e = cc
  stamped_lem (some t) u p e = let same : t ≡ u = cc e in rw same (ground arith)

  -- Storing another answer than that of the batches.
  stamps :
      (s t : Service)
      → t.batch_cache ≡ s.batch_cache
      → t.last_update ≡ stamped env s.last_update
      → Change env s t
  stamps s t b e = keeps b λ u p h. cc (e, stamped_lem s.last_update u p h)

  Change-if :
      {A : Type 0} (b : Bool) (x y : Result A × Service) (s : Service)
      → Change env s x.1
      → Change env s y.1
      → Change env s (if◌then◌else◌ {A = Result A × Service} b x y).1
  Change-if true x y s h k = h
  Change-if false x y s h k = k

  ensure_fabric-Changes : Changes (ensure_fabric env)
  unfolding ensure_fabric
  ensure_fabric-Changes s = Change-if s.fabric _ _ s (keeps_all s) (by_reply env.connect)
    where
      by_reply : (r : Result (Unit {0})) → Change env s (with_reply r s).1
      by_reply (ok _) = keeps refl λ u p e. e
      by_reply (err e) = keeps_all s

  cached-Changes :
      {A : Type 0} (fresh : Bool) (o : Option A) (m : Call A) (s : Service)
      → Change env s (m s).1
      → Change env s (cached fresh o m s).1
  cached-Changes fresh none m s h = h
  cached-Changes true (some a) m s h = keeps_all s
  cached-Changes false (some a) m s h = h

  load_batch-Changes : Changes (load_batch env)
  unfolding load_batch store_batch
  load_batch-Changes =
      Changes-bind (ensure_fabric env) _ ensure_fabric-Changes
        λ _ s. by_reply s (env.query "cotton") refl
    where
      by_reply :
          (s : Service) (r : Result (List Fields))
          → env.query "cotton" ≡ r
          → Change env s (continue (r, s) (λ bs. store_batch env (batch_metrics env bs))).1
      by_reply s (ok bs) e =
          stores (batch_metrics env bs) (record { batches_read = bs; read = e; result = refl }) refl
            refl
      by_reply s (err x) e = keeps_all s

  get_batch_metrics-Changes : Changes (get_batch_metrics env)
  unfolding get_batch_metrics
  get_batch_metrics-Changes s =
      cached-Changes (is_fresh env s) s.batch_cache (load_batch env) s (load_batch-Changes s)

  load_product-Changes : Changes (load_product env)
  unfolding load_product store_product
  load_product-Changes = Changes-bind (ensure_fabric env) _ ensure_fabric-Changes λ _.
      Changes-bind (query env "finished") _ keeps_all λ ps.
        Changes-bind (lift env (product_metrics env ps)) _ keeps_all λ m s. stamps s _ refl refl

  get_product_metrics-Changes : Changes (get_product_metrics env)
  unfolding get_product_metrics
  get_product_metrics-Changes s =
      cached-Changes (is_fresh env s) s.product_cache (load_product env) s (load_product-Changes s)

  load_tokenization-Changes : Changes (load_tokenization env)
  unfolding load_tokenization
  load_tokenization-Changes s =
      Change-if (s.ethereum || env.ethereum) _ _ s (stamps s _ refl refl) (keeps_all s)

  get_tokenization_metrics-Changes : Changes (get_tokenization_metrics env)
  unfolding get_tokenization_metrics
  get_tokenization_metrics-Changes s =
      cached-Changes (is_fresh env s) s.tokenization_cache (load_tokenization env) s
        (load_tokenization-Changes s)

  load_sustainability-Changes : Changes (load_sustainability env)
  unfolding load_sustainability store_sustainability
  load_sustainability-Changes =
      Changes-bind (get_batch_metrics env) _ get_batch_metrics-Changes λ b.
        Changes-bind (get_product_metrics env) _ get_product_metrics-Changes
          λ p s. stamps s _ refl refl

  get_sustainability_metrics-Changes : Changes (get_sustainability_metrics env)
  unfolding get_sustainability_metrics
  get_sustainability_metrics-Changes s =
      cached-Changes (is_fresh env s) s.sustainability_cache (load_sustainability env) s
        (load_sustainability-Changes s)

  analyze_circular_economy-Changes : Changes (analyze_circular_economy env)
  unfolding analyze_circular_economy
  analyze_circular_economy-Changes =
      Changes-bind (get_tokenization_metrics env) _ get_tokenization_metrics-Changes
        λ t. Changes-bind (get_product_metrics env) _ get_product_metrics-Changes λ p. keeps_all

  set_cache_ttl-Change : (minutes : ℤ) (s : Service) → Change env s (set_cache_ttl minutes s).1
  unfolding set_cache_ttl
  set_cache_ttl-Change (pos (suc n)) s = keeps refl λ u p e. e
  set_cache_ttl-Change (pos zero) s = keeps_all s
  set_cache_ttl-Change (negsuc n) s = keeps_all s

  pub run-Change : (o : Operation) (s : Service) → Change env s (run env o s)
  unfolding run clear_cache
  run-Change batches s = get_batch_metrics-Changes s
  run-Change products s = get_product_metrics-Changes s
  run-Change tokenization s = get_tokenization_metrics-Changes s
  run-Change sustainability s = get_sustainability_metrics-Changes s
  run-Change circular s = analyze_circular_economy-Changes s
  run-Change clear s = drops refl
  run-Change (set_ttl minutes) s = set_cache_ttl-Change minutes s
