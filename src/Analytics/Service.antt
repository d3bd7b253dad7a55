-- ===== src/Analytics/Service.antt =====
-- The service and its cache: the methods of AnalyticsService in
-- bridging/services/analyticsService.js. Each call has one reading of the clock; a call that throws
-- keeps what it did.
use sustainable_fashion_chai.Prelude.{
  ℕ, ◌+◌, ◌*◌, ◌≡◌, sym, ap, String, Bool, true, false, ◌&&◌, ◌||◌, not, Option, none, some, List,
  ltb, nat_eq, ℤ, pos, if◌then◌else◌, suc,
}
use sustainable_fashion_chai.Number.{whole}
use sustainable_fashion_chai.Json.{Fields}
use sustainable_fashion_chai.Fabric.{Error, Result, ok, err}
use sustainable_fashion_chai.Analytics.Metrics.{Env, Double}
use sustainable_fashion_chai.Analytics.Batches.{BatchMetrics, batch_metrics}
use sustainable_fashion_chai.Analytics.Products.{ProductMetrics, product_metrics}
use sustainable_fashion_chai.Analytics.Answers.{
  Actions, TokenizationMetrics, SustainabilityMetrics, CircularEconomy,
}

-- `last_update` is null, or a time; `fabric` and `ethereum` say whether the contracts are there.
pub record Service : Type 0 where
  pub fabric : Bool
  pub ethereum : Bool
  pub batch_cache : Option BatchMetrics
  pub product_cache : Option ProductMetrics
  pub tokenization_cache : Option TokenizationMetrics
  pub sustainability_cache : Option SustainabilityMetrics
  pub last_update : Option ℕ
  pub cache_ttl : ℕ

abbrev pub new_service : Service
new_service = record {
  fabric = false;
  ethereum = false;
  batch_cache = none;
  product_cache = none;
  tokenization_cache = none;
  sustainability_cache = none;
  last_update = none;
  cache_ttl = 15 * 60 * 1000;
}

-- this.cache.lastUpdate && Date.now() - this.cache.lastUpdate < this.cache.cacheTTL
unfoldable pub is_fresh : Env → Service → Bool
is_fresh env s = elim s.last_update [
  | none ↦ false
  | some t ↦ not (nat_eq t 0) && ltb env.now (t + s.cache_ttl)
]

-- if (!this.cache.lastUpdate) this.cache.lastUpdate = Date.now()
unfoldable pub stamped : Env → Option ℕ → Option ℕ
stamped env none = some env.now
stamped env (some t) = some (if nat_eq t 0 then env.now else t)

abbrev pub Call : Type 0 → Type 0
Call A = Service → Result A × Service

abbrev pub continue : {A B : Type 0} → Result A × Service → (A → Call B) → Result B × Service
continue (ok a, s) f = f a s
continue (err e, s) f = (err e, s)

infixl 5 ◌>>=◌
unfoldable pub ◌>>=◌ : {A B : Type 0} → Call A → (A → Call B) → Call B
◌>>=◌ m f s = continue (m s) f

pub err_ne :
    {B : Type 0} {x : Error} {s t : Service} {b : B}
    → ◌≡◌ {A = Result B × Service} (err x, s) (ok b, t)
    → ⊥
err_ne {B} e = ne (ap (λ r. r.0) e)
  where
    ne : {x : Error} {b : B} → ◌≡◌ {A = Result B} (err x) (ok b) → ⊥
    ne h = cc

pub ok_eq :
    {B : Type 0} {a b : B} {s t : Service}
    → ◌≡◌ {A = Result B × Service} (ok a, s) (ok b, t)
    → (b ≡ a) × (t ≡ s)
ok_eq {B} {a} {b} e = (same (ap (λ r. r.0) e), sym (ap (λ r. r.1) e))
  where
    same : ◌≡◌ {A = Result B} (ok a) (ok b) → b ≡ a
    same h = cc h

abbrev pub pure : {A : Type 0} → A → Call A
pure a s = (ok a, s)

-- A cached answer that is fresh, or else a computed one.
abbrev pub cached : {A : Type 0} → Bool → Option A → Call A → Call A
cached fresh none compute s = compute s
cached fresh (some a) compute s = if fresh then (ok a, s) else compute s

-- What connecting to Fabric changes.
abbrev pub with_reply : Result (Unit {0}) → Call (Unit {0})
with_reply (ok _) s = (ok tt, record s { fabric = true })
with_reply (err e) s = (err e, s)

module _ (env : Env) where
  -- if (!this.fabricContract) await this.connectToFabric();
  unfoldable pub ensure_fabric : Call (Unit {0})
  ensure_fabric s = if s.fabric then (ok tt, s) else with_reply env.connect s

  abbrev pub query : String → Call (List Fields)
  query kind s = (env.query kind, s)

  abbrev pub lift : {A : Type 0} → Result A → Call A
  lift r s = (r, s)

  unfoldable pub store_batch : BatchMetrics → Call BatchMetrics
  store_batch m s = (ok m, record s { batch_cache = some m; last_update = some env.now })

  unfoldable pub load_batch : Call BatchMetrics
  unfolding ◌>>=◌
  load_batch = do
    _ ← ensure_fabric
    batches ← query "cotton"
    store_batch (batch_metrics env batches)

  unfoldable pub get_batch_metrics : Call BatchMetrics
  get_batch_metrics s = cached (is_fresh env s) s.batch_cache load_batch s

  unfoldable pub store_product : ProductMetrics → Call ProductMetrics
  store_product m s =
      (ok m, record s { product_cache = some m; last_update = stamped env s.last_update })

  unfoldable pub load_product : Call ProductMetrics
  unfolding ◌>>=◌
  load_product = do
    _ ← ensure_fabric
    products ← query "finished"
    m ← lift (product_metrics env products)
    store_product m

  unfoldable pub get_product_metrics : Call ProductMetrics
  get_product_metrics s = cached (is_fresh env s) s.product_cache load_product s

  -- What is answered without contracts; it is not cached.
  abbrev pub mock_metrics : TokenizationMetrics
  mock_metrics = record {
    unavailable = true;
    total_tokenized = some (whole 65);
    total_token_value = some (whole 147520);
    circular_economy_actions = record { recycle = 28; repair = 42; resell = 35; upcycle = 15 };
  }

  -- A call of totalSupply that throws is caught, and both sums stay 0.
  abbrev pub supplied : Option Double → TokenizationMetrics
  supplied supply = record {
    unavailable = false;
    total_tokenized = elim supply [ none ↦ some (whole 0) | some d ↦ d ];
    total_token_value = elim supply [ none ↦ some (whole 0) | some d ↦ env.times_30 d ];
    circular_economy_actions = record { recycle = 28; repair = 42; resell = 35; upcycle = 15 };
  }

  abbrev pub store_tokenization : TokenizationMetrics → Call TokenizationMetrics
  store_tokenization m s =
      (ok m, record s { tokenization_cache = some m; last_update = stamped env s.last_update })

  -- connectToEthereum keeps the contracts that are there, and does not throw.
  unfoldable pub load_tokenization : Call TokenizationMetrics
  load_tokenization s =
      if s.ethereum || env.ethereum
      then store_tokenization (supplied env.total_supply) (record s { ethereum = true })
      else (ok mock_metrics, s)

  unfoldable pub get_tokenization_metrics : Call TokenizationMetrics
  get_tokenization_metrics s = cached (is_fresh env s) s.tokenization_cache load_tokenization s

  -- total > 0 ? (part / total * 100).toFixed(1) : 0
  unfoldable pub percentage : ℕ → ℕ → Option String
  percentage part total = if nat_eq total 0 then none else some (env.percent part total)

  abbrev pub combine : BatchMetrics → ProductMetrics → SustainabilityMetrics
  combine b p = record {
    organic_percentage = percentage b.organic_count b.total_count;
    high_sustainability_products_percentage =
        percentage p.by_sustainability_score.high p.total_count;
    certifications = p.certification_counts;
  }

  unfoldable pub store_sustainability : SustainabilityMetrics → Call SustainabilityMetrics
  store_sustainability m s =
      (ok m, record s { sustainability_cache = some m; last_update = stamped env s.last_update })

  unfoldable pub load_sustainability : Call SustainabilityMetrics
  unfolding ◌>>=◌
  load_sustainability = do
    b ← get_batch_metrics
    p ← get_product_metrics
    store_sustainability (combine b p)

  unfoldable pub get_sustainability_metrics : Call SustainabilityMetrics
  get_sustainability_metrics s =
      cached (is_fresh env s) s.sustainability_cache load_sustainability s

  -- Object.values(circularActions).reduce((a, b) => a + b, 0)
  abbrev pub total_actions : Actions → ℕ
  total_actions a = a.recycle + a.repair + a.resell + a.upcycle

  unfoldable pub analyze_circular_economy : Call CircularEconomy
  unfolding ◌>>=◌
  analyze_circular_economy = do
    t ← get_tokenization_metrics
    p ← get_product_metrics
    let actions = t.circular_economy_actions in
        pure (record {
          total_circular_actions = total_actions actions;
          circular_percentage = percentage (total_actions actions) p.total_count;
          action_breakdown = actions;
        })

unfoldable pub clear_cache : Service → Service
clear_cache s = record s {
  batch_cache = none;
  product_cache = none;
  tokenization_cache = none;
  sustainability_cache = none;
  last_update = none;
}

-- For an integer number of minutes.
unfoldable pub set_cache_ttl : ℤ → Service → Bool × Service
set_cache_ttl (pos (suc n)) s = (true, record s { cache_ttl = suc n * 60 * 1000 })
set_cache_ttl _ s = (false, s)
