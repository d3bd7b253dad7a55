-- ===== src/Analytics/Batches.antt =====
-- The metrics of cotton batches: the loop of getBatchMetrics in
-- bridging/services/analyticsService.js.
pub mod Sort
use sustainable_fashion_chai.Prelude.{
  Table, update, ℕ, ◌+◌, String, Bool, true, false, some, List, [], ◌∷◌, ltb, nat_eq, codes, length,
  if◌then◌else◌,
}
use sustainable_fashion_chai.Number.{whole}
use sustainable_fashion_chai.Json.{num, Fields, get, truthy, or_else}
use sustainable_fashion_chai.Analytics.Metrics.{Count, Env, Double, bump, has_entries}

pub record Month : Type 0 where
  pub total : ℕ
  pub organic : ℕ
  pub non_organic : ℕ
  pub weight : Double

pub record BatchMetrics : Type 0 where
  pub total_count : ℕ
  pub organic_count : ℕ
  pub fair_trade_count : ℕ
  pub tokenized_count : ℕ
  pub certified_count : ℕ
  pub total_weight : Double
  pub by_status : Table Count
  pub by_origin : Table Count
  pub monthly_production : Table Month
  pub monthly_production_data : Table Month

abbrev pub new_month : Month
new_month = record { total = 0; organic = 0; non_organic = 0; weight = some (whole 0) }

abbrev pub new_batch_metrics : ℕ → BatchMetrics
new_batch_metrics count = record {
  total_count = count;
  organic_count = 0;
  fair_trade_count = 0;
  tokenized_count = 0;
  certified_count = 0;
  total_weight = some (whole 0);
  by_status = [];
  by_origin = [];
  monthly_production = [];
  monthly_production_data = [];
}

-- if (test) n++
abbrev pub plus_if : Bool → ℕ → ℕ
plus_if test n = if test then n + 1 else n

-- a < b, for texts
less_codes : List ℕ → List ℕ → Bool
less_codes [] [] = false
less_codes [] (d ∷ ds) = true
less_codes (c ∷ cs) [] = false
less_codes (c ∷ cs) (d ∷ ds) = let rest = less_codes cs ds in if nat_eq c d then rest else ltb c d

insert : {A : Type 0} → String → A → Table A → Table A
unfolding less_codes
insert k a [] = (k, a) ∷ []
insert k a ((j, b) ∷ m) =
    let rest = insert k a m in
    if less_codes (codes j) (codes k) then (j, b) ∷ rest else (k, a) ∷ (j, b) ∷ m

-- The entries under Object.keys(m).sort()
unfoldable pub sort : {A : Type 0} → Table A → Table A
unfolding insert
sort [] = []
sort ((k, a) ∷ m) = insert k a (sort m)

module _ (env : Env) where
  -- parseFloat(batch.quantity || 0)
  abbrev quantity_of : Fields → Double
  quantity_of batch = env.parse_float (or_else (get "quantity" batch) (num (whole 0)))

  abbrev pub produce : Fields → Month → Month
  produce batch m = record {
    total = m.total + 1;
    organic = plus_if (truthy (get "organic" batch)) m.organic;
    non_organic = if truthy (get "organic" batch) then m.non_organic else m.non_organic + 1;
    weight = env.plus m.weight (quantity_of batch);
  }

  abbrev pub add_production : Fields → Table Month → Table Month
  add_production batch m =
      if truthy (get "harvestDate" batch)
      then update new_month (produce batch) (env.month_of (get "harvestDate" batch)) m
      else m

  unfoldable pub add_batch : Fields → BatchMetrics → BatchMetrics
  add_batch batch m = record m {
    organic_count = plus_if (truthy (get "organic" batch)) m.organic_count;
    fair_trade_count = plus_if (truthy (get "fairTrade" batch)) m.fair_trade_count;
    tokenized_count = plus_if (truthy (get "tokenizationId" batch)) m.tokenized_count;
    certified_count = plus_if (has_entries env (get "certifications" batch)) m.certified_count;
    total_weight = env.plus m.total_weight (quantity_of batch);
    by_status = bump env.native (env.text (get "status" batch)) m.by_status;
    by_origin = bump env.native (env.text (get "origin" batch)) m.by_origin;
    monthly_production = add_production batch m.monthly_production;
  }

  -- batches.forEach
  unfoldable pub add_batches : List Fields → BatchMetrics → BatchMetrics
  unfolding add_batch
  add_batches [] m = m
  add_batches (batch ∷ batches) m = add_batches batches (add_batch batch m)

  abbrev with_data : BatchMetrics → BatchMetrics
  with_data m = record m { monthly_production_data = sort m.monthly_production }

  -- The metrics of the parsed reply.
  unfoldable pub batch_metrics : List Fields → BatchMetrics
  unfolding add_batches
  batch_metrics batches = with_data (add_batches batches (new_batch_metrics (length batches)))
