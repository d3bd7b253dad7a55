-- ===== src/Analytics/Fresh/Batches.antt =====
-- The age of the metrics of batches.
use sustainable_fashion_chai.Prelude.{
  ℕ, ◌+◌, ◌<◌, ◌≡◌, refl, Bool, true, false, Option, none, some, List, ◌∷◌, ◌⊎◌, inl, inr, subst,
  tests,
}
use sustainable_fashion_chai.Json.{Fields}
use sustainable_fashion_chai.Fabric.{Result, ok, err}
use sustainable_fashion_chai.Analytics.Metrics.{Env}
use sustainable_fashion_chai.Analytics.Batches.{BatchMetrics, batch_metrics}
use sustainable_fashion_chai.Analytics.Service.{
  continue, query, ok_eq, err_ne, Service, is_fresh, ◌>>=◌, cached, ensure_fabric, load_batch,
  store_batch, get_batch_metrics,
}
use sustainable_fashion_chai.Analytics.Fresh.{Reaches, start, called, Saw, last, earlier, Computed}
use sustainable_fashion_chai.Analytics.Fresh.Changes.{Change, keeps, drops, stores, run-Change}

-- The cached metrics were computed by a call, at the time of the last update.
record Sourced (seen : List Env) (s : Service) : Type 0 where
  source :
      (m : BatchMetrics)
      → s.batch_cache ≡ some m
      → (e : Env) × Saw e seen × Computed e m × (s.last_update ≡ some e.now)

Sourced-Change :
    {seen : List Env} {env : Env} {s t : Service}
    → Change env s t
    → Sourced seen s
    → Sourced (env ∷ seen) t
Sourced-Change {s = s} {t} (keeps b k) h = record {
  source = λ m e.
      let (f, saw, computed, at) = h.source m (cc (b, e)) in
      (f, earlier saw, computed, k f.now f.after_1970 at);
}
Sourced-Change (drops b) h = record { source = λ m e. cc (b, e) }
Sourced-Change {env = env} (stores n c b l) h = record {
  source = λ m e. let same : n ≡ m = cc (b, e) in (env, last, subst (Computed env) same c, l);
}

Sourced-Reaches : {seen : List Env} {s : Service} → Reaches seen s → Sourced seen s
Sourced-Reaches start = record { source = λ m e. cc e }
Sourced-Reaches (called {s = s} env o h) = Sourced-Change (run-Change env o s) (Sourced-Reaches h)

is_fresh-lt :
    (env : Env) (s : Service) (u : ℕ)
    → s.last_update ≡ some u
    → is_fresh env s ≡ true
    → env.now < u + s.cache_ttl
unfolding is_fresh
is_fresh-lt env s u e h = grind (tests, rw e at h)

load_batch-Computed :
    (env : Env) (s t : Service) (m : BatchMetrics) → load_batch env s ≡ (ok m, t) → Computed env m
unfolding load_batch store_batch ◌>>=◌
load_batch-Computed env s t m = connected (ensure_fabric env s)
  where
    replied :
        (r : Result (List Fields)) (u : Service)
        → env.query "cotton" ≡ r
        → continue (r, u) (λ bs. store_batch env (batch_metrics env bs)) ≡ (ok m, t)
        → Computed env m
    replied (ok bs) u q e = record { batches_read = bs; read = q; result = (ok_eq e).0 }
    replied (err x) u q e = absurd (err_ne e)

    connected :
        (r : Result (Unit {0}) × Service)
        → continue r
            (λ _ u. continue (query env "cotton" u) λ bs. store_batch env (batch_metrics env bs))
          ≡ (ok m, t)
        → Computed env m
    connected (ok _, u) e = replied (env.query "cotton") u refl e
    connected (err x, u) e = absurd (err_ne e)

-- Whatever was called before, the metrics of batches that getBatchMetrics answers with are those of
-- a reply of the ledger that an earlier call or this one read; and it is this one, or less than the
-- time to live has passed since.
pub get_batch_metrics-Recent :
    (seen : List Env) (s : Service)
    → Reaches seen s
    → (env : Env) (m : BatchMetrics) (t : Service) → get_batch_metrics env s ≡ (ok m, t)
    → (e : Env) × Saw e (env ∷ seen) × Computed e m × ((e ≡ env) ⊎ (env.now < e.now + s.cache_ttl))
unfolding get_batch_metrics
get_batch_metrics-Recent seen s h env m t e = by_cache s.batch_cache refl (is_fresh env s) refl e
  where
    by_cache :
        (o : Option BatchMetrics)
        → s.batch_cache ≡ o
        → (b : Bool) → is_fresh env s ≡ b
        → cached b o (load_batch env) s ≡ (ok m, t)
        → (f : Env) × Saw f (env ∷ seen)
          × Computed f m
          × ((f ≡ env) ⊎ (env.now < f.now + s.cache_ttl))
    by_cache none there b test e = (env, last, load_batch-Computed env s t m e, inl refl)
    by_cache (some n) there false test e = (env, last, load_batch-Computed env s t m e, inl refl)
    by_cache (some n) there true test e =
        let same : m ≡ n = (ok_eq e).0 in
        let (f, saw, computed, at) = (Sourced-Reaches h).source m (cc (there, same)) in
        (f, earlier saw, computed, inr (is_fresh-lt env s f.now at test))
