-- ===== src/Analytics/Products.antt =====
-- The metrics of products: the loop of getProductMetrics in
-- bridging/services/analyticsService.js.
use sustainable_fashion_chai.Prelude.{
  String, if◌then◌else◌, Table, update, ℕ, ◌+◌, ◌*◌, Bool, List, [], ◌∷◌, leb, length,
}
use sustainable_fashion_chai.Json.{is_inherited, Value, Fields, get, truthy}
use sustainable_fashion_chai.Fabric.{Result, ok}
use sustainable_fashion_chai.Analytics.Metrics.{
  Count, Env, ◌>>=◌, bump, has_entries, list_of, property,
}
use sustainable_fashion_chai.Analytics.Batches.{plus_if}

pub record Scores : Type 0 where
  pub high : ℕ
  pub medium : ℕ
  pub low : ℕ

pub record Usage : Type 0 where
  pub total : ℕ
  pub sustainable : ℕ

pub record ProductMetrics : Type 0 where
  pub total_count : ℕ
  pub nft_count : ℕ
  pub by_manufacturer : Table Count
  pub by_sustainability_score : Scores
  pub material_usage : Table Usage
  pub certification_counts : Table Count

abbrev pub new_usage : Usage
new_usage = record { total = 0; sustainable = 0 }

abbrev pub new_product_metrics : ℕ → ProductMetrics
new_product_metrics count = record {
  total_count = count;
  nft_count = 0;
  by_manufacturer = [];
  by_sustainability_score = record { high = 0; medium = 0; low = 0 };
  material_usage = [];
  certification_counts = [];
}

-- materials.filter(m => m.sustainable).length
unfoldable pub count_sustainable : List Value → Result ℕ
count_sustainable [] = ok 0
count_sustainable (m ∷ ms) = do
  v ← property "sustainable" m
  n ← count_sustainable ms
  ok (plus_if (truthy v) n)

-- sustainabilityScore >= 0.8, >= 0.5 or below, for the score s / n. Both limits are rounded the way
-- the quotient is, and no quotient of two lengths of arrays is that close to one of them without
-- being it.
unfoldable pub add_score : ℕ → ℕ → Scores → Scores
add_score s n scores =
    if leb (4 * n) (5 * s)
    then record scores { high = scores.high + 1 }
    else if leb n (2 * s)
    then record scores { medium = scores.medium + 1 }
    else record scores { low = scores.low + 1 }

module _ (env : Env) where
  abbrev pub use_material : Bool → Usage → Usage
  use_material sustainable u = record {
    total = u.total + 1;
    sustainable = plus_if sustainable u.sustainable;
  }

  -- The counters of one kind of material. Under a name that every object inherits there is
  -- something already, which takes the counters and is not among the own properties.
  abbrev pub use_kind : String → Bool → Table Usage → Table Usage
  use_kind kind sustainable usage =
      if is_inherited kind then usage else update new_usage (use_material sustainable) kind usage

  -- materials.forEach
  unfoldable pub add_materials : List Value → Table Usage → Result (Table Usage)
  add_materials [] usage = ok usage
  add_materials (m ∷ ms) usage = do
    kind ← property "type" m
    v ← property "sustainable" m
    add_materials ms (use_kind (env.text kind) (truthy v) usage)

  -- certifications.forEach
  unfoldable pub add_certifications : List Value → Table Count → Result (Table Count)
  add_certifications [] counts = ok counts
  add_certifications (c ∷ cs) counts = do
    kind ← property "type" c
    add_certifications cs (bump env.native (env.text kind) counts)

  abbrev pub score_materials : Value → ProductMetrics → Result ProductMetrics
  score_materials materials m = do
    ms ← list_of materials
    s ← count_sustainable ms
    usage ← add_materials ms m.material_usage
    ok (record m {
      by_sustainability_score = add_score s (length ms) m.by_sustainability_score;
      material_usage = usage;
    })

  abbrev pub add_product_materials : Value → ProductMetrics → Result ProductMetrics
  add_product_materials materials m =
      if has_entries env materials then score_materials materials m else ok m

  abbrev pub count_certifications : Value → ProductMetrics → Result ProductMetrics
  count_certifications certifications m = do
    cs ← list_of certifications
    counts ← add_certifications cs m.certification_counts
    ok (record m { certification_counts = counts })

  abbrev pub add_product_certifications : Value → ProductMetrics → Result ProductMetrics
  add_product_certifications certifications m =
      if has_entries env certifications then count_certifications certifications m else ok m

  abbrev pub count_product : Fields → ProductMetrics → ProductMetrics
  count_product product m = record m {
    nft_count = plus_if (truthy (get "nftTokenId" product)) m.nft_count;
    by_manufacturer = bump env.native (env.text (get "manufacturer" product)) m.by_manufacturer;
  }

  unfoldable pub add_product : Fields → ProductMetrics → Result ProductMetrics
  unfolding add_materials add_certifications
  add_product product m = do
    m' ← add_product_materials (get "materials" product) (count_product product m)
    add_product_certifications (get "certifications" product) m'

  -- products.forEach
  unfoldable pub add_products : List Fields → ProductMetrics → Result ProductMetrics
  unfolding add_product
  add_products [] m = ok m
  add_products (product ∷ products) m = do m' ← add_product product m; add_products products m'

  -- The metrics of the parsed reply.
  unfoldable pub product_metrics : List Fields → Result ProductMetrics
  unfolding add_products
  product_metrics products = add_products products (new_product_metrics (length products))
