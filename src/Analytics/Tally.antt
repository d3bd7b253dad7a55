-- ===== src/Analytics/Tally.antt =====
-- The metrics of batches, counted one by one, against counts over the whole list.
use sustainable_fashion_chai.Prelude.{
  entry-update_other, update, if◌then◌else◌, ◌∙◌, ap, eq_iff, eq_refl, Bool-cases, inl, inr, suc,
  zero, false, Table, entry, entry-update, ℕ, ◌+◌, String, ◌≡◌, refl, Bool, true, not, ◌&&◌, List,
  [], ◌∷◌, ◌==◌, arith, count, length,
}
use sustainable_fashion_chai.Json.{is_inherited, Fields, get, truthy}
use sustainable_fashion_chai.Analytics.Metrics.{
  Count, number, text, plus_one, first_count, times, counted, Env, bump, has_entries,
}
use sustainable_fashion_chai.Analytics.Batches.Sort.{entry-sort}
use sustainable_fashion_chai.Analytics.Batches.{
  Month, BatchMetrics, new_month, new_batch_metrics, plus_if, produce, add_production, add_batch,
  add_batches, batch_metrics,
}

module _ (env : Env) where
  abbrev pub is_at : String → String → Fields → Bool
  is_at name k batch = env.text (get name batch) == k

  -- Whether a batch with a harvest date was harvested in that month.
  abbrev pub is_of : String → Fields → Bool
  is_of month batch =
      truthy (get "harvestDate" batch) && (env.month_of (get "harvestDate" batch) == month)

  abbrev pub is_organic : Fields → Bool
  is_organic batch = truthy (get "organic" batch)

  pub record IsTally (batches : List Fields) (m : BatchMetrics) : Type 0 where
    pub all_counted : m.total_count ≡ length batches
    pub organic : m.organic_count ≡ count is_organic batches
    pub fair_trade : m.fair_trade_count ≡ count (λ b. truthy (get "fairTrade" b)) batches
    pub tokenized : m.tokenized_count ≡ count (λ b. truthy (get "tokenizationId" b)) batches
    pub certified :
        m.certified_count ≡ count (λ b. has_entries env (get "certifications" b)) batches
    pub status :
        (k : String)
        → entry (first_count env.native k) k m.by_status
          ≡ counted env.native k (count (is_at "status" k) batches)
    pub origin :
        (k : String)
        → entry (first_count env.native k) k m.by_origin
          ≡ counted env.native k (count (is_at "origin" k) batches)
    pub month :
        (k : String) → (entry new_month k m.monthly_production).total ≡ count (is_of k) batches
    pub organic_month :
        (k : String)
        → (entry new_month k m.monthly_production).organic
          ≡ count (λ b. is_of k b && is_organic b) batches
    pub non_organic_month :
        (k : String)
        → (entry new_month k m.monthly_production).non_organic
          ≡ count (λ b. is_of k b && not (is_organic b)) batches
    pub sorted :
        (k : String)
        → entry new_month k m.monthly_production_data ≡ entry new_month k m.monthly_production

  -- A counter that grows by each batch of a kind counts that kind.
  counts :
      (f : BatchMetrics → ℕ) (p : Fields → Bool)
      → ((b : Fields) (m : BatchMetrics) → f (add_batch env b m) ≡ plus_if (p b) (f m))
      → (batches : List Fields) (m : BatchMetrics)
      → f (add_batches env batches m) ≡ count p batches + f m
  unfolding add_batches
  counts f p step [] m = omega arith
  counts f p step (b ∷ bs) m = ground (arith, counts f p step bs (add_batch env b m), step b m)

  unchanged :
      (batches : List Fields) (m : BatchMetrics)
      → (add_batches env batches m).total_count ≡ m.total_count
  unfolding add_batches add_batch
  unchanged [] m = refl
  unchanged (b ∷ bs) m = unchanged bs (add_batch env b m)

  bumped :
      (k j : String) (m : Table Count)
      → entry (first_count env.native j) j (bump env.native k m) ≡ (
          if (k == j) && not (j == "__proto__")
          then plus_one (entry (first_count env.native j) j m)
          else entry (first_count env.native j) j m)
  unfolding bump
  bumped k j m = elim (Bool-cases (k == j)) [
    | inl here ↦
        rw (← (eq_iff k j).0 here, eq_refl k)
          (by_name (k == "__proto__")
            (entry-update (first_count env.native k) plus_one k k m ∙ rw (eq_refl k) refl))
    | inr other ↦
        let kept =
          entry-update_other (first_count env.native k) (first_count env.native j) plus_one k j m
            other in
        rw other (elim (Bool-cases (k == "__proto__")) [ inl t ↦ rw t refl | inr f ↦ rw f kept ])
  ]
    where
      by_name :
          (b : Bool)
          → entry (first_count env.native k) k (update (first_count env.native k) plus_one k m)
            ≡ plus_one (entry (first_count env.native k) k m)
          → entry
              (first_count env.native k)
              k
              (if b then m else update (first_count env.native k) plus_one k m)
            ≡ (if not b
                then plus_one (entry (first_count env.native k) k m)
                else entry (first_count env.native k) k m)
      by_name true h = refl
      by_name false h = h

  -- A table that counts a name of each batch.
  counts_as :
      (k : String) (table : BatchMetrics → Table Count) (name : Fields → String)
      → ((b : Fields) (m : BatchMetrics)
          → table (add_batch env b m) ≡ bump env.native (name b) (table m))
      → (batches : List Fields) (m : BatchMetrics)
      → entry (first_count env.native k) k (table (add_batches env batches m)) ≡ (
          if k == "__proto__"
          then entry (first_count env.native k) k (table m)
          else times
              (count (λ b. name b == k) batches)
              (entry (first_count env.native k) k (table m)))
  unfolding add_batches
  counts_as k table name step [] m = elim (Bool-cases (k == "__proto__")) [
    | inl t ↦ rw t refl
    | inr f ↦ rw f refl
  ]
  counts_as k table name step (b ∷ bs) m =
      rw (counts_as k table name step bs (add_batch env b m), step b m, bumped (name b) k (table m))
        (by_tests (k == "__proto__") (name b == k) (count (λ x. name x == k) bs)
          (entry (first_count env.native k) k (table m)))
    where
      by_tests :
          (p q : Bool) (n : ℕ) (c : Count)
          → (if p
              then (if q && not p then plus_one c else c)
              else times n (if q && not p then plus_one c else c))
            ≡ (if p then c else times (if q then suc n else n) c)
      by_tests true true n c = refl
      by_tests true false n c = refl
      by_tests false true n c = refl
      by_tests false false n c = refl

  times_number : (n m : ℕ) → times n (number m) ≡ number (m + n)
  times_number zero m = ap (λ i. number i) (omega arith)
  times_number (suc n) m = times_number n (m + 1) ∙ ap (λ i. number i) (omega arith)

  counted_lem :
      (k : String) (n : ℕ)
      → (if k == "__proto__" then first_count env.native k else times n (first_count env.native k))
        ≡ counted env.native k n
  unfolding is_inherited
  counted_lem k n = elim (Bool-cases (k == "__proto__")) [
    | inl t ↦ rw ((eq_iff k "__proto__").0 t) refl
    | inr f ↦ rw f (by_test (is_inherited k))
  ]
    where
      by_test :
          (b : Bool)
          → times n (if b then text (env.native k) else number 0)
            ≡ (if b then times n (text (env.native k)) else number n)
      by_test true = refl
      by_test false = times_number n 0 ∙ ap (λ i. number i) (omega arith)

  month_step :
      (f : Month → ℕ) (p : Fields → Bool)
      → ((b : Fields) (x : Month) → f (produce env b x) ≡ plus_if (p b) (f x))
      → (k : String) (b : Fields) (m : Table Month)
      → f (entry new_month k (add_production env b m))
        ≡ plus_if (is_of k b && p b) (f (entry new_month k m))
  month_step f p grows k b m = ground (
    arith,
    grows b (entry new_month k m),
    entry-update new_month (produce env b) (env.month_of (get "harvestDate" b)) k m,
  )

  month_total :
      (k : String) (b : Fields) (m : Table Month)
      → (entry new_month k (add_production env b m)).total
        ≡ plus_if (is_of k b) (entry new_month k m).total
  month_total k b m = ground (arith, month_step (λ x. x.total) (λ b. true) (λ b x. refl) k b m)

  months :
      (f : Month → ℕ) (p : Fields → Bool)
      → ((b : Fields) (x : Month) → f (produce env b x) ≡ plus_if (p b) (f x))
      → (k : String) (batches : List Fields) (m : BatchMetrics)
      → f (entry new_month k (add_batches env batches m).monthly_production)
        ≡ count (λ b. is_of k b && p b) batches + f (entry new_month k m.monthly_production)
  unfolding add_batch
  months f p grows k =
      counts (λ m. f (entry new_month k m.monthly_production)) (λ b. is_of k b && p b)
        λ b m. month_step f p grows k b m.monthly_production

  -- The metrics of a list of batches say how many there are and how many are organic, fair trade,
  -- tokenized and certified; for each text as a status or an origin, how many batches have it,
  -- but for a name that every object inherits the text of what is inherited, with a 1 added for
  -- each batch (with none for `__proto__`); for each month how many batches were harvested in it,
  -- how many of these are organic and how many are not; and the sorted months have the same
  -- numbers.
  pub batch_metrics-IsTally : (batches : List Fields) → IsTally batches (batch_metrics env batches)
  unfolding batch_metrics add_batch entry
  batch_metrics-IsTally bs =
      let start = new_batch_metrics (length bs) in
      record {
        all_counted = unchanged bs start;
        organic = ground (arith, counts (λ m. m.organic_count) is_organic (λ b m. refl) bs start);
        fair_trade = ground (
          arith,
          counts (λ m. m.fair_trade_count) (λ b. truthy (get "fairTrade" b)) (λ b m. refl) bs start,
        );
        tokenized = ground (
          arith,
          counts (λ m. m.tokenized_count) (λ b. truthy (get "tokenizationId" b)) (λ b m. refl) bs
              start,
        );
        certified = ground (
          arith,
          counts (λ m. m.certified_count) (λ b. has_entries env (get "certifications" b))
              (λ b m. refl) bs start,
        );
        status = λ k.
            counts_as k (λ m. m.by_status) (λ b. env.text (get "status" b)) (λ b m. refl) bs start
            ∙ counted_lem k (count (is_at "status" k) bs);
        origin = λ k.
            counts_as k (λ m. m.by_origin) (λ b. env.text (get "origin" b)) (λ b m. refl) bs start
            ∙ counted_lem k (count (is_at "origin" k) bs);
        month = λ k. ground (
          arith,
          counts (λ m. (entry new_month k m.monthly_production).total) (is_of k)
              (λ b m. month_total k b m.monthly_production) bs start,
        );
        organic_month =
            λ k. ground (arith, months (λ x. x.organic) is_organic (λ b x. refl) k bs start);
        non_organic_month = λ k. ground (
          arith,
          months (λ x. x.non_organic) (λ b. not (is_organic b)) (λ b x. ground arith) k bs start,
        );
        sorted = λ k. entry-sort new_month k (add_batches env bs start).monthly_production;
      }
