-- ===== src/Sharding/Balance.antt =====
-- rebalanceChunks and autoBalance of fabric/application/services/shardingServices.js. The service
-- polls the balancer without a limit, so that loop runs on fuel, and `none` is a loop that has not
-- ended; the loop of autoBalance has its own limit of 10.
use sustainable_fashion_chai.Prelude.{
  ℕ, ◌+◌, String, Bool, true, false, Option, none, some, List, [], ◌∷◌, zero, suc,
}
use sustainable_fashion_chai.Fabric.{Result, ok, err}
use sustainable_fashion_chai.Sharding.{Cluster, Imbalance, Act, continue, analyze_distribution}

-- `attempts` is none where nothing was balanced; `timeSpent` is left out.
pub record Balance : Type 0 where
  pub balanced : Bool
  pub attempts : Option ℕ
  pub message : String

abbrev pub finished : Bool → ℕ → Balance
finished true attempts = record {
  balanced = true;
  attempts = some attempts;
  message = "Balancing completed";
}
finished false attempts = record {
  balanced = false;
  attempts = some attempts;
  message = "Balancing incomplete";
}

abbrev pub no_need : Balance
no_need = record { balanced = true; attempts = none; message = "No balancing needed" }

module _ (cluster : Cluster) where
  abbrev pub Run : Type 0 → Type 0
  Run A = cluster.State → Option (Result A × cluster.State)

  abbrev pub then_run :
      {A B : Type 0} → Result A × cluster.State → (A → Run B) → Option (Result B × cluster.State)
  then_run (ok a, s) f = f a s
  then_run (err e, s) f = some (err e, s)

  abbrev pub after_run :
      {A B : Type 0}
      → Option (Result A × cluster.State)
      → (A → Run B)
      → Option (Result B × cluster.State)
  after_run none f = none
  after_run (some r) f = then_run r f

  abbrev pub polled :
      Result Bool × cluster.State → Run (Unit {0}) → Option (Result (Unit {0}) × cluster.State)
  polled (ok true, s) again = again (cluster.sleep 1000 s)
  polled (ok false, s) again = some (ok tt, s)
  polled (err e, s) again = some (err e, s)

  -- while (balancerRunning)
  unfoldable pub wait_for_round : ℕ → Run (Unit {0})
  wait_for_round zero s = none
  wait_for_round (suc fuel) s = polled (cluster.in_balancer_round s) (wait_for_round fuel)

  unfoldable pub rebalance_chunks : ℕ → Run (Unit {0})
  unfolding wait_for_round
  rebalance_chunks fuel s = then_run (cluster.balancer_start s) λ _. wait_for_round fuel

  abbrev pub judged : List Imbalance → ℕ → Act cluster Balance → Act cluster Balance
  judged [] attempts again s = (ok (finished true attempts), s)
  judged (i ∷ is) attempts again s = again s

  -- while (!balanced && attempts < maxAttempts), with `left` of the 10 attempts left
  unfoldable pub monitor : ℕ → ℕ → Act cluster Balance
  monitor zero attempts s = (ok (finished false attempts), s)
  monitor (suc left) attempts s =
      continue cluster (analyze_distribution cluster (cluster.sleep 5000 s))
        λ a. judged a.imbalances (attempts + 1) (monitor left (attempts + 1))

  abbrev pub balance_if_needed : ℕ → List Imbalance → Run Balance
  balance_if_needed fuel [] s = some (ok no_need, s)
  balance_if_needed fuel (i ∷ is) s =
      after_run (rebalance_chunks fuel s) λ _ t. some (monitor 10 0 t)

  unfoldable pub auto_balance : ℕ → Run Balance
  unfolding rebalance_chunks monitor
  auto_balance fuel s =
      then_run (analyze_distribution cluster s) λ a. balance_if_needed fuel a.imbalances
