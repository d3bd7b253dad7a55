-- ===== src/Analytics/Fresh/Stale.antt =====
-- The age of the metrics of products: an answer in the cache is kept alive by other calls.
use sustainable_fashion_chai.Prelude.{
  ℕ, ◌+◌, ◌<◌, ◌≡◌, refl, Bool, true, false, Option, none, some, List, arith, if◌then◌else◌,
}
use sustainable_fashion_chai.Json.{Fields}
use sustainable_fashion_chai.Fabric.{Result, ok, err}
use sustainable_fashion_chai.Analytics.Metrics.{Env}
use sustainable_fashion_chai.Analytics.Batches.{BatchMetrics, batch_metrics}
use sustainable_fashion_chai.Analytics.Products.{ProductMetrics}
use sustainable_fashion_chai.Analytics.Service.{
  continue, with_reply, query, ok_eq, err_ne, Service, is_fresh, ◌>>=◌, cached, ensure_fabric,
  load_batch, store_batch, get_batch_metrics, load_product, get_product_metrics,
}

-- What computing the metrics of batches leaves of the rest.
record Renewed (e : Env) (s t : Service) : Type 0 where
  products : t.product_cache ≡ s.product_cache
  time : t.last_update ≡ some e.now
  ttl : t.cache_ttl ≡ s.cache_ttl

load_batch-Renewed :
    (e : Env) (s t : Service) (b : BatchMetrics) → load_batch e s ≡ (ok b, t) → Renewed e s t
unfolding load_batch store_batch ensure_fabric ◌>>=◌
load_batch-Renewed e s t b = by_fabric s.fabric e.connect
  where
    replied :
        (r : Result (List Fields)) (f : Bool)
        → continue (r, record s { fabric = f }) (λ bs. store_batch e (batch_metrics e bs))
          ≡ (ok b, t)
        → Renewed e s t
    replied (ok bs) f h = rw (ok_eq h).1 (record { products = refl; time = refl; ttl = refl })
    replied (err x) f h = absurd (err_ne h)

    by_fabric :
        (f : Bool) (c : Result (Unit {0}))
        → continue
            (if◌then◌else◌ {A = Result (Unit {0}) × Service} f (ok tt, s) (with_reply c s))
            (λ _ u. continue (query e "cotton" u) λ bs. store_batch e (batch_metrics e bs))
          ≡ (ok b, t)
        → Renewed e s t
    by_fabric true c h = replied (e.query "cotton") s.fabric h
    by_fabric false (ok _) h = replied (e.query "cotton") true h
    by_fabric false (err x) h = absurd (err_ne h)

is_fresh-of :
    (f : Env) (t : Service) (u : ℕ)
    → 0 < u
    → t.last_update ≡ some u
    → f.now < u + t.cache_ttl
    → is_fresh f t ≡ true
unfolding is_fresh
is_fresh-of f t u p e h = rw e (ground arith)

-- When the cached metrics of batches are out of date and are computed again, metrics of products
-- that are in the cache, however old, stay there and are answered with until the time to live has
-- passed once more.
pub get_product_metrics-Stale :
    (e f : Env) (s t : Service) (b : BatchMetrics) (m : ProductMetrics)
    → s.product_cache ≡ some m
    → is_fresh e s ≡ false
    → get_batch_metrics e s ≡ (ok b, t)
    → f.now < e.now + s.cache_ttl
    → (t.product_cache ≡ some m) × (get_product_metrics f t ≡ (ok m, t))
unfolding get_batch_metrics get_product_metrics
get_product_metrics-Stale e f s t b m there old h soon =
    let r = load_batch-Renewed e s t b (recomputed s.batch_cache (rw old at h)) in
    let kept : t.product_cache ≡ some m = cc (r.products, there) in
    (
      kept,
      from_cache t.product_cache (is_fresh f t) kept
          (is_fresh-of f t e.now e.after_1970 r.time (rw r.ttl soon)),
    )
  where
    recomputed :
        (o : Option BatchMetrics)
        → cached false o (load_batch e) s ≡ (ok b, t)
        → load_batch e s ≡ (ok b, t)
    recomputed none k = k
    recomputed (some n) k = k

    from_cache :
        (o : Option ProductMetrics) (fresh : Bool)
        → o ≡ some m
        → fresh ≡ true
        → cached fresh o (load_product f) t ≡ (ok m, t)
    from_cache none fresh k l = cc
    from_cache (some n) true k l = let same : n ≡ m = cc k in rw same refl
    from_cache (some n) false k l = cc
