-- ===== src/Analytics/Fresh.antt =====
-- How old the answers of the service are. All four caches share one time of update, which only
-- getBatchMetrics renews.
pub mod Changes
pub mod Batches
pub mod Stale
use sustainable_fashion_chai.Prelude.{◌≡◌, some, List, [], ◌∷◌, ℤ}
use sustainable_fashion_chai.Json.{Fields}
use sustainable_fashion_chai.Fabric.{ok}
use sustainable_fashion_chai.Analytics.Metrics.{Env}
use sustainable_fashion_chai.Analytics.Batches.{BatchMetrics, batch_metrics}
use sustainable_fashion_chai.Analytics.Service.{
  Service, new_service, get_batch_metrics, get_product_metrics, get_tokenization_metrics,
  get_sustainability_metrics, analyze_circular_economy, clear_cache, set_cache_ttl,
}

-- The calls that a client may make.
pub data Operation : Type 0 where
  batches products tokenization sustainability circular clear : Operation
  set_ttl : ℤ → Operation

unfoldable pub run : Env → Operation → Service → Service
run env batches s = (get_batch_metrics env s).1
run env products s = (get_product_metrics env s).1
run env tokenization s = (get_tokenization_metrics env s).1
run env sustainability s = (get_sustainability_metrics env s).1
run env circular s = (analyze_circular_economy env s).1
run env clear s = clear_cache s
run env (set_ttl minutes) s = (set_cache_ttl minutes s).1

-- The states after some calls, and what each of the calls saw, the last one first.
pub data Reaches : List Env → Service → Type 0 where
  start : Reaches [] new_service
  called :
      {seen : List Env} {s : Service} (env : Env) (o : Operation)
      → Reaches seen s
      → Reaches (env ∷ seen) (run env o s)

pub data Saw : Env → List Env → Type 0 where
  last : {e : Env} {seen : List Env} → Saw e (e ∷ seen)
  earlier : {e f : Env} {seen : List Env} → Saw e seen → Saw e (f ∷ seen)

-- What one call saw gives these metrics of batches.
pub record Computed (e : Env) (m : BatchMetrics) : Type 0 where
  pub batches_read : List Fields
  pub read : e.query "cotton" ≡ ok batches_read
  pub result : m ≡ batch_metrics e batches_read
