-- ===== src/Sharding/Rounds.antt =====
-- autoBalance ends when the balancer does, and says the truth about the result.
use sustainable_fashion_chai.Prelude.{
  ℕ, ◌+◌, ◌≤◌, ◌<◌, ◌≡◌, refl, Bool, true, false, Option, some, List, [], ◌∷◌, arith, zero, suc,
}
use sustainable_fashion_chai.Fabric.{Error, Result, ok, err}
use sustainable_fashion_chai.Sharding.{
  Cluster, Metrics, Imbalance, Analysis, analyze, continue, get_metrics, analyze_distribution,
}
use sustainable_fashion_chai.Sharding.Balance.{
  Balance, then_run, polled, wait_for_round, rebalance_chunks, finished, judged, monitor, no_need,
  balance_if_needed, auto_balance,
}
use sustainable_fashion_chai.Sharding.Even.{Even, analyze_iff}

module _ (cluster : Cluster) where
  -- The balancer ends by itself: some measure gets smaller in every second that it works.
  pub record Ends : Type 0 where
    pub rounds : cluster.State → ℕ
    pub shorter :
        (s t : cluster.State)
        → cluster.in_balancer_round s ≡ (ok true, t)
        → rounds (cluster.sleep 1000 t) < rounds s

  module _ (ends : Ends) where
    wait_for_round-ends :
        (fuel : ℕ) (s : cluster.State)
        → ends.rounds s < fuel
        → (r : Result (Unit {0}) × cluster.State) × (wait_for_round cluster fuel s ≡ some r)
    unfolding wait_for_round
    wait_for_round-ends zero s h = absurd (omega arith)
    wait_for_round-ends (suc fuel) s h =
        by_status (wait_for_round-ends fuel) (cluster.in_balancer_round s) refl
      where
        by_status :
            ((t : cluster.State)
              → ends.rounds t < fuel
              → (r : Result (Unit {0}) × cluster.State) × (wait_for_round cluster fuel t ≡ some r))
            → (q : Result Bool × cluster.State) → cluster.in_balancer_round s ≡ q
            → (r : Result (Unit {0}) × cluster.State) × (polled cluster q
                  (wait_for_round cluster fuel)
                ≡ some r)
        by_status again (ok true, t) e =
            again (cluster.sleep 1000 t) (omega (arith, ends.shorter s t e))
        by_status again (ok false, t) e = ((ok tt, t), refl)
        by_status again (err x, t) e = ((err x, t), refl)

  -- The last command before this state completed metrics that are even.
  pub record Measured (t : cluster.State) : Type 0 where
    pub before : cluster.State
    pub metrics : Metrics
    pub read : get_metrics cluster before ≡ (ok metrics, t)
    pub even : Even metrics

  -- How autoBalance may end: by an error; at once; or after 1 to 10 attempts, and all 10 where it
  -- did not get the cluster balanced.
  pub data Ending : Result Balance × cluster.State → Type 0 where
    failed : (x : Error) (t : cluster.State) → Ending (err x, t)
    not_needed : (t : cluster.State) → Measured t → Ending (ok no_need, t)
    completed :
        (n : ℕ) (t : cluster.State) → 0 < n → n ≤ 10 → Measured t → Ending (ok (finished true n), t)
    incomplete : (t : cluster.State) → Ending (ok (finished false 10), t)

  -- The rule for what follows an analysis.
  analysis-Ending :
      (s : cluster.State) (P : Result Balance × cluster.State → Type 0)
      (f : Analysis → cluster.State → Result Balance × cluster.State)
      → ((x : Error) (t : cluster.State) → P (err x, t))
      → ((a : Analysis) (t : cluster.State) → (a.imbalances ≡ [] → Measured t) → P (f a t))
      → P (continue cluster (analyze_distribution cluster s) f)
  unfolding analyze_distribution
  analysis-Ending s P f fails next = by_metrics (get_metrics cluster s) refl
    where
      by_metrics :
          (r : Result Metrics × cluster.State)
          → get_metrics cluster s ≡ r
          → P (continue cluster (continue cluster r λ m t. (ok (analyze m), t)) f)
      by_metrics (ok m, t) e =
          next (analyze m) t
            λ none_. record { before = s; metrics = m; read = e; even = (analyze_iff m).0 none_ }
      by_metrics (err x, t) e = fails x t

  monitor-Ending :
      (left attempts : ℕ) (s : cluster.State)
      → left + attempts ≡ 10
      → Ending (monitor cluster left attempts s)
  unfolding monitor
  monitor-Ending zero attempts s h =
      let done : attempts ≡ 10 = omega arith in rw done (incomplete s)
  monitor-Ending (suc left) attempts s h =
      analysis-Ending (cluster.sleep 5000 s) Ending _ failed
        λ a t. by_imbalances (monitor-Ending left (attempts + 1)) a.imbalances t
    where
      by_imbalances :
          ((u : cluster.State)
            → left + (attempts + 1) ≡ 10
            → Ending (monitor cluster left (attempts + 1) u))
          → (is : List Imbalance) (t : cluster.State) → (is ≡ [] → Measured t)
          → Ending (judged cluster is (attempts + 1) (monitor cluster left (attempts + 1)) t)
      by_imbalances again [] t m = completed (attempts + 1) t (omega arith) (omega arith) (m refl)
      by_imbalances again (i ∷ is) t m = again t (omega arith)

  module _ (ends : Ends) where
    rebalance_chunks-ends :
        (s : cluster.State)
        → (fuel : ℕ) × (r : Result (Unit {0}) × cluster.State) × (rebalance_chunks cluster fuel s
            ≡ some r)
    unfolding rebalance_chunks
    rebalance_chunks-ends s = by_start (cluster.balancer_start s)
      where
        by_start :
            (q : Result (Unit {0}) × cluster.State)
            → (fuel : ℕ) × (r : Result (Unit {0}) × cluster.State) × (then_run cluster q
                  (λ _. wait_for_round cluster fuel)
                ≡ some r)
        by_start (ok _, t) =
            let (r, e) = wait_for_round-ends ends (ends.rounds t + 1) t (omega arith) in
            (ends.rounds t + 1, r, e)
        by_start (err x, t) = (0, (err x, t), refl)

    Ended : (ℕ → Option (Result Balance × cluster.State)) → Type 0
    Ended run = (fuel : ℕ) × (r : Result Balance × cluster.State) × (run fuel ≡ some r) × Ending r

    balance_if_needed-Ended :
        (is : List Imbalance) (t : cluster.State)
        → (is ≡ [] → Measured t)
        → Ended (λ fuel. balance_if_needed cluster fuel is t)
    unfolding Ended
    balance_if_needed-Ended [] t m = (0, (ok no_need, t), refl, not_needed t (m refl))
    balance_if_needed-Ended (i ∷ is) t m =
        let (fuel, r, e) = rebalance_chunks-ends t in by_result fuel r e
      where
        by_result :
            (fuel : ℕ) (r : Result (Unit {0}) × cluster.State)
            → rebalance_chunks cluster fuel t ≡ some r
            → (n : ℕ) × (q : Result Balance × cluster.State) × (balance_if_needed cluster n
                  (i ∷ is)
                  t
                ≡ some q)
              × Ending q
        by_result fuel (ok _, u) e =
            (fuel, monitor cluster 10 0 u, rw e refl, monitor-Ending 10 0 u refl)
        by_result fuel (err x, u) e = (fuel, (err x, u), rw e refl, failed x u)

    -- When the balancer ends by itself, autoBalance ends too: with an error; or at once, since
    -- every shard's number of chunks is within a tenth of the mean, as far as these are numbers; or
    -- after at most 10 attempts with such shards; or after exactly 10 attempts, saying that the
    -- balancing is incomplete.
    pub auto_balance-Ending :
        (s : cluster.State)
        → (fuel : ℕ) × (r : Result Balance × cluster.State) × (auto_balance cluster fuel s ≡ some r)
          × Ending r
    unfolding auto_balance analyze_distribution Ended
    auto_balance-Ending s = by_metrics (get_metrics cluster s) refl
      where
        by_metrics :
            (q : Result Metrics × cluster.State)
            → get_metrics cluster s ≡ q
            → (fuel : ℕ) × (r : Result Balance × cluster.State) × (then_run cluster
                  (continue cluster q λ m t. (ok (analyze m), t))
                  (λ a. balance_if_needed cluster fuel a.imbalances)
                ≡ some r)
              × Ending r
        by_metrics (ok m, t) e =
            balance_if_needed-Ended (analyze m).imbalances t
              λ none_. record { before = s; metrics = m; read = e; even = (analyze_iff m).0 none_ }
        by_metrics (err x, t) e = (0, (err x, t), refl, failed x t)
