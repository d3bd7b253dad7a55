-- ===== src/Sharding/Tests.antt =====
-- A cluster of two shards, whose balancer needs a few rounds.
use sustainable_fashion_chai.Prelude.{
  ℕ, ◌-◌, ◌<◌, ◌≡◌, ◌↔◌, refl, sym, ap, true, false, none, some, [], ◌∷◌, arith, zero, suc, Bool,
  update,
}
use sustainable_fashion_chai.Fabric.{Result, ok}
use sustainable_fashion_chai.Sharding.{
  Load, Cluster, Metrics, Distribution, analyze, get_metrics, add_collections, add_shards,
}
use sustainable_fashion_chai.Sharding.Balance.{Balance, auto_balance}
use sustainable_fashion_chai.Sharding.Even.{Even, analyze_iff}
use sustainable_fashion_chai.Sharding.Totals.{IsMeasured, get_metrics-IsMeasured}
use sustainable_fashion_chai.Sharding.Rounds.{Ends, Ending, auto_balance-Ending}

abbrev with_chunks : ℕ → Load
with_chunks n = record { size = 64; documents = 100; chunks = some n }

-- The state is the number of rounds that are left.
abbrev spread : ℕ → Distribution
spread zero = record {
  total = record { size = 128; documents = 200; chunks = some 20 };
  shard_distribution = ("shard1", with_chunks 10) ∷ ("shard2", with_chunks 10) ∷ [];
}
spread (suc n) = record {
  total = record { size = 128; documents = 200; chunks = some 20 };
  shard_distribution = ("shard1", with_chunks 14) ∷ ("shard2", with_chunks 6) ∷ [];
}

abbrev working : ℕ → Bool
working zero = false
working (suc n) = true

abbrev pair : Cluster
pair = record {
  State = ℕ;
  coll_stats = λ name n. (ok (spread n), n);
  balancer_start = λ n. (ok tt, n);
  in_balancer_round = λ n. (ok (working n), n);
  sleep = λ ms n. n - 1;
}

one_less : (s t : ℕ) → ◌≡◌ {A = Result Bool × ℕ} (ok (working s), s) (ok true, t) → t - 1 < s
one_less s t e = below s t (sym (ap (λ r. r.1) e)) (is_true (working s) (ap (λ r. r.0) e))
  where
    is_true : (b : Bool) → ◌≡◌ {A = Result Bool} (ok b) (ok true) → b ≡ true
    is_true b h = cc h

    below : (s t : ℕ) → t ≡ s → working s ≡ true → t - 1 < s
    below zero t h w = cc
    below (suc n) t h w = omega arith

pair-Ends : Ends pair
pair-Ends = record { rounds = λ n. n; shorter = one_less }

auto_balance-Ending_example :
    (fuel : ℕ) × (r : Result Balance × ℕ) × (auto_balance pair fuel 3 ≡ some r) × Ending pair r
auto_balance-Ending_example = auto_balance-Ending pair pair-Ends 3

abbrev uneven : Metrics
uneven = record {
  shards = ("shard1", with_chunks 56) ∷ ("shard2", with_chunks 24) ∷ [];
  total = record { size = 512; documents = 800; chunks = some 80 };
}

analyze_iff_example : ((analyze uneven).imbalances ≡ []) ↔ Even uneven
analyze_iff_example = analyze_iff uneven

-- Without numbers of chunks nothing is out of balance.
abbrev uncounted : Metrics
uncounted = record {
  shards =
      ("shard1", record { size = 500; documents = 800; chunks = none })
      ∷ ("shard2", record { size = 12; documents = 0; chunks = none })
      ∷ [];
  total = record { size = 512; documents = 800; chunks = none };
}

uncounted_balanced : (analyze uncounted).imbalances ≡ []
uncounted_balanced = (analyze_iff uncounted).1 (tt, (tt, tt))

abbrev even_metrics : Metrics
even_metrics = record {
  shards =
      ("shard1", record { size = 256; documents = 400; chunks = some 40 })
      ∷ ("shard2", record { size = 256; documents = 400; chunks = some 40 })
      ∷ [];
  total = record { size = 512; documents = 800; chunks = some 80 };
}

measured : get_metrics pair 0 ≡ (ok even_metrics, 0)
unfolding get_metrics add_collections add_shards update
measured = refl

get_metrics-IsMeasured_example : IsMeasured pair 0 0 even_metrics
get_metrics-IsMeasured_example = get_metrics-IsMeasured pair 0 0 even_metrics measured
