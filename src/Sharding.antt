-- ===== src/Sharding.antt =====
-- The sharding service of fabric/application/services/shardingServices.js. The MongoDB cluster is a
-- parameter; it may change between any two commands, so each command gives a state anew.
pub mod Balance
pub mod Totals
pub mod Even
pub mod Rounds
mod Tests
use sustainable_fashion_chai.Prelude.{
  ℕ, ◌+◌, ◌-◌, ◌*◌, ◌/◌, String, ◌≡◌, Bool, Option, none, some, List, [], ◌∷◌, ltb, length, Table,
  update, if◌then◌else◌,
}
use sustainable_fashion_chai.Fabric.{Result, ok, err}

-- A number of chunks: `none` is undefined, or NaN, which it gives every sum. The field `chunks`
-- that the source reads is not one that the documentation of collStats names.
abbrev pub ChunkCount : Type 0
ChunkCount = Option ℕ

-- What is counted of a shard, or of all of them: megabytes, documents and chunks.
pub record Load : Type 0 where
  pub size : ℕ
  pub documents : ℕ
  pub chunks : ChunkCount

abbrev pub no_load : Load
no_load = record { size = 0; documents = 0; chunks = some 0 }

abbrev pub add_count : ChunkCount → ChunkCount → ChunkCount
add_count (some a) (some b) = some (a + b)
add_count (some a) none = none
add_count none _ = none

abbrev pub plus : Load → Load → Load
plus a b = record {
  size = a.size + b.size;
  documents = a.documents + b.documents;
  chunks = add_count a.chunks b.chunks;
}

-- The numbers that collStats gives for a collection, in all and for each shard. A reply without
-- shards, of a collection that is not sharded, makes the caller throw: it counts as an error.
pub record Distribution : Type 0 where
  pub total : Load
  pub shard_distribution : Table Load

-- The cluster's admin commands, and what becomes of it while the service sleeps.
pub record Cluster : Type 1 where
  pub State : Type 0
  pub coll_stats : String → State → Result Distribution × State
  pub balancer_start : State → Result (Unit {0}) × State
  pub in_balancer_round : State → Result Bool × State
  pub sleep : ℕ → State → State

pub record Metrics : Type 0 where
  pub shards : Table Load
  pub total : Load

pub record Imbalance : Type 0 where
  pub shard_id : String
  pub kind : String
  pub chunk_difference : ℕ
  pub recommended_action : String

-- `optimal` is none where there is no shard to divide by.
pub record Analysis : Type 0 where
  pub optimal : Option Load
  pub imbalances : List Imbalance

-- Object.keys(SHARD_CONFIG.shardKeys)
abbrev pub shard_keys : List String
shard_keys = "batches" ∷ "products" ∷ "users" ∷ "transactions" ∷ []

-- The loop over the shards of one collection.
unfoldable pub add_shards : Table Load → Table Load → Table Load
add_shards [] shards = shards
add_shards ((shard_id, stats) ∷ more) shards =
    add_shards more (update no_load (λ l. plus l stats) shard_id shards)

abbrev pub add_distribution : Distribution → Metrics → Metrics
add_distribution d m = record {
  shards = add_shards d.shard_distribution m.shards;
  total = plus m.total d.total;
}

-- Math.abs(a - b)
abbrev pub distance : ℕ → ℕ → ℕ
distance a b = if ltb a b then b - a else a - b

-- Math.abs(chunks - optimal) > optimal * 0.1. The product is rounded, by too little to change the
-- comparison of two integers below 2^49.
abbrev pub is_imbalanced : ℕ → ℕ → Bool
is_imbalanced optimal chunks = ltb optimal (10 * distance chunks optimal)

abbrev pub imbalance : ℕ → String → ℕ → Imbalance
imbalance optimal shard_id chunks = record {
  shard_id = shard_id;
  kind = if ltb optimal chunks then "overloaded" else "underloaded";
  chunk_difference = distance chunks optimal;
  recommended_action = if ltb optimal chunks then "migrate_from" else "migrate_to";
}

-- One shard; no comparison with NaN holds.
abbrev pub add_imbalance : ChunkCount → String → ChunkCount → List Imbalance → List Imbalance
add_imbalance (some optimal) shard_id (some chunks) rest =
    if is_imbalanced optimal chunks then imbalance optimal shard_id chunks ∷ rest else rest
add_imbalance (some optimal) shard_id none rest = rest
add_imbalance none shard_id chunks rest = rest

unfoldable pub find_imbalances : ChunkCount → Table Load → List Imbalance
find_imbalances optimal [] = []
find_imbalances optimal ((shard_id, stats) ∷ more) =
    add_imbalance optimal shard_id stats.chunks (find_imbalances optimal more)

abbrev pub mean : ChunkCount → ℕ → ChunkCount
mean none n = none
mean (some c) n = some (c / n)

-- Math.floor of the totals divided by the number of shards; a division by 0 is no number.
abbrev per_shard : ℕ → Load → Load
per_shard n l = record { size = l.size / n; documents = l.documents / n; chunks = mean l.chunks n }

-- The rest of analyzeDistribution, for the metrics it got.
unfoldable pub analyze : Metrics → Analysis
unfolding find_imbalances
analyze m = elim m.shards [
  | [] ↦ record { optimal = none; imbalances = [] }
  | shards ↦
      let optimal = per_shard (length shards) m.total in
      record { optimal = some optimal; imbalances = find_imbalances optimal.chunks shards }
]

module _ (cluster : Cluster) where
  abbrev pub Act : Type 0 → Type 0
  Act A = cluster.State → Result A × cluster.State

  abbrev pub continue :
      {A B : Type 0} → Result A × cluster.State → (A → Act B) → Result B × cluster.State
  continue (ok a, s) f = f a s
  continue (err e, s) f = (err e, s)

  -- getMetrics, from the collections that are left
  unfoldable pub add_collections : List String → Metrics → Act Metrics
  unfolding add_shards
  add_collections [] m s = (ok m, s)
  add_collections (name ∷ names) m s =
      continue (cluster.coll_stats name s) λ d. add_collections names (add_distribution d m)

  unfoldable pub get_metrics : Act Metrics
  unfolding add_collections
  get_metrics = add_collections shard_keys (record { shards = []; total = no_load })

  unfoldable pub analyze_distribution : Act Analysis
  unfolding get_metrics
  analyze_distribution s = continue (get_metrics s) λ m t. (ok (analyze m), t)
