-- ===== src/Analytics/Scores.antt =====
-- The metrics of products against counts over the whole list of products.
use sustainable_fashion_chai.Prelude.{
  ◌&&◌, Table, entry, entry-update, ℕ, ◌+◌, ◌≤◌, String, ◌≡◌, refl, Bool, List, [], ◌∷◌, arith,
  count, length, Bool-cases, inl, inr,
}
use sustainable_fashion_chai.Json.{Value, Fields, get, truthy}
use sustainable_fashion_chai.Fabric.{ok}
use sustainable_fashion_chai.Analytics.Metrics.{Env, bind_ok, has_entries}
use sustainable_fashion_chai.Analytics.Batches.{plus_if}
use sustainable_fashion_chai.Analytics.Products.{
  Usage, ProductMetrics, new_usage, new_product_metrics, add_score, add_materials,
  add_product_materials, add_product_certifications, count_product, use_material, use_kind,
  add_product, add_products, product_metrics,
}
use sustainable_fashion_chai.Analytics.Ratings.{
  is_high, is_medium, is_low, is_sustainable, materials_in, list_of_lem, count_sustainable_lem,
}

module _ (env : Env) where
  abbrev pub has_materials : Fields → Bool
  has_materials product = has_entries env (get "materials" product)

  abbrev pub has_nft : Fields → Bool
  has_nft product = truthy (get "nftTokenId" product)

  -- No kind of material was used sustainably more often than it was used.
  abbrev pub Bounded : Table Usage → Type 0
  Bounded usage =
      (k : String) → (entry new_usage k usage).sustainable ≤ (entry new_usage k usage).total

  use_kind-Bounded :
      (kind : Value) (sustainable : Bool) (usage : Table Usage)
      → Bounded usage
      → Bounded (use_kind env (env.text kind) sustainable usage)
  use_kind-Bounded kind sustainable usage h k =
      ground
        (arith, h k, entry-update new_usage (use_material env sustainable) (env.text kind) k usage)

  add_materials-Bounded :
      (ms : List Value) (usage usage' : Table Usage)
      → add_materials env ms usage ≡ ok usage'
      → Bounded usage
      → Bounded usage'
  unfolding add_materials
  add_materials-Bounded [] usage usage' e h = λ k. ground (arith, h k)
  add_materials-Bounded (m ∷ ms) usage usage' e h =
      let (kind, _, e1) = bind_ok _ _ usage' e in
      let (v, _, e2) = bind_ok _ _ usage' e1 in
      add_materials-Bounded ms _ usage' e2 λ k. use_kind-Bounded kind (truthy v) usage h k

  -- A product with materials whose score is of this kind.
  abbrev pub rated : (ℕ → ℕ → Bool) → Fields → Bool
  rated kind product =
      let ms = materials_in (get "materials" product) in
      has_materials product && kind (count is_sustainable ms) (length ms)

  -- What a change to the metrics adds to the scores and to the NFTs.
  record Adds (high medium low nfts : ℕ) (m n : ProductMetrics) : Type 0 where
    counted : n.total_count ≡ m.total_count
    nft : n.nft_count ≡ nfts + m.nft_count
    high_score : n.by_sustainability_score.high ≡ high + m.by_sustainability_score.high
    medium_score : n.by_sustainability_score.medium ≡ medium + m.by_sustainability_score.medium
    low_score : n.by_sustainability_score.low ≡ low + m.by_sustainability_score.low
    usage : Bounded m.material_usage → Bounded n.material_usage

  Adds-nothing : (m : ProductMetrics) → Adds 0 0 0 0 m m
  Adds-nothing m = record {
    counted = refl;
    nft = omega arith;
    high_score = omega arith;
    medium_score = omega arith;
    low_score = omega arith;
    usage = λ h. h;
  }

  -- One for a product with materials whose score is of this kind.
  abbrev one_if : Value → (ℕ → ℕ → Bool) → ℕ
  one_if materials kind =
      plus_if
        (has_entries env materials
          && kind (count is_sustainable (materials_in materials)) (length (materials_in materials)))
        0

  score-Adds :
      (all_ ms : List Value) (s : ℕ) (usage : Table Usage) (m n : ProductMetrics)
      → ms ≡ all_
      → s ≡ count is_sustainable ms
      → add_materials env ms m.material_usage ≡ ok usage
      → n ≡ record m {
        by_sustainability_score = add_score s (length ms) m.by_sustainability_score;
        material_usage = usage;
      }
      → Adds
          (plus_if (is_high (count is_sustainable all_) (length all_)) 0)
          (plus_if (is_medium (count is_sustainable all_) (length all_)) 0)
          (plus_if (is_low (count is_sustainable all_) (length all_)) 0)
          0
          m
          n
  unfolding add_score
  score-Adds all_ ms s usage m n same total found e =
      rw (← same, ← total, e)
        (record {
          counted = refl;
          nft = omega arith;
          high_score = ground arith;
          medium_score = ground arith;
          low_score = ground arith;
          usage = add_materials-Bounded ms m.material_usage usage found;
        })

  materials-Adds :
      (materials : Value) (m n : ProductMetrics)
      → add_product_materials env materials m ≡ ok n
      → Adds (one_if materials is_high) (one_if materials is_medium) (one_if materials is_low) 0 m n
  materials-Adds materials m n e = elim (Bool-cases (has_entries env materials)) [
    | inl some_ ↦
        let (ms, listed, e1) = bind_ok _ _ n (rw some_ at e) in
        let (s, summed, e2) = bind_ok _ _ n e1 in
        let (usage, found, e3) = bind_ok _ _ n e2 in
        rw some_ (
          score-Adds (materials_in materials) ms s usage m n (list_of_lem materials ms listed)
            (count_sustainable_lem ms s summed) found (cc e3))
    | inr none_ ↦ let same : n ≡ m = cc (rw none_ at e) in rw (none_, same) (Adds-nothing m)
  ]

  certifications-Adds :
      (certifications : Value) (m n : ProductMetrics)
      → add_product_certifications env certifications m ≡ ok n
      → Adds 0 0 0 0 m n
  certifications-Adds certifications m n e = elim (Bool-cases (has_entries env certifications)) [
    | inl some_ ↦
        let (cs, _, e1) = bind_ok _ _ n (rw some_ at e) in
        let (counts, _, e2) = bind_ok _ _ n e1 in
        let same : n ≡ record m { certification_counts = counts } = cc e2 in
        rw same (record {
          counted = refl;
          nft = omega arith;
          high_score = omega arith;
          medium_score = omega arith;
          low_score = omega arith;
          usage = λ h. h;
        })
    | inr none_ ↦ let same : n ≡ m = cc (rw none_ at e) in rw same (Adds-nothing m)
  ]

  add_product-Adds :
      (product : Fields) (m n : ProductMetrics)
      → add_product env product m ≡ ok n
      → Adds
          (plus_if (rated is_high product) 0)
          (plus_if (rated is_medium product) 0)
          (plus_if (rated is_low product) 0)
          (plus_if (has_nft product) 0)
          m
          n
  unfolding add_product
  add_product-Adds product m n e =
      let (m', e1, e2) = bind_ok _ _ n e in
      let h = materials-Adds (get "materials" product) (count_product env product m) m' e1 in
      let k = certifications-Adds (get "certifications" product) m' n e2 in
      record {
        counted = cc (h.counted, k.counted);
        nft = ground (arith, h.nft, k.nft);
        high_score = ground (arith, h.high_score, k.high_score);
        medium_score = ground (arith, h.medium_score, k.medium_score);
        low_score = ground (arith, h.low_score, k.low_score);
        usage = λ b. k.usage (h.usage b);
      }

  add_products-Adds :
      (products : List Fields) (m n : ProductMetrics)
      → add_products env products m ≡ ok n
      → Adds
          (count (rated is_high) products)
          (count (rated is_medium) products)
          (count (rated is_low) products)
          (count has_nft products)
          m
          n
  unfolding add_products
  add_products-Adds [] m n e = let same : n ≡ m = cc e in rw same (Adds-nothing m)
  add_products-Adds (p ∷ ps) m n e =
      let (m', e1, e2) = bind_ok _ _ n e in
      let h = add_product-Adds p m m' e1 in
      let k = add_products-Adds ps m' n e2 in
      record {
        counted = cc (h.counted, k.counted);
        nft = ground (arith, h.nft, k.nft);
        high_score = ground (arith, h.high_score, k.high_score);
        medium_score = ground (arith, h.medium_score, k.medium_score);
        low_score = ground (arith, h.low_score, k.low_score);
        usage = λ b. k.usage (h.usage b);
      }

  -- When the metrics of a list of products are computed without an error, their total is the
  -- number of products, the NFT count that of the products with a token, the high, medium and low
  -- scores count the products with materials of which at least 80 percent, at least 50 but less
  -- than 80, and less than 50 percent are sustainable, and no material counts more sustainable
  -- uses than uses.
  pub product_metrics-Adds :
      (products : List Fields) (m : ProductMetrics)
      → product_metrics env products ≡ ok m
      → (m.total_count ≡ length products)
        × (m.nft_count ≡ count has_nft products)
        × (m.by_sustainability_score.high ≡ count (rated is_high) products)
        × (m.by_sustainability_score.medium ≡ count (rated is_medium) products)
        × (m.by_sustainability_score.low ≡ count (rated is_low) products)
        × Bounded m.material_usage
  unfolding product_metrics entry
  product_metrics-Adds ps m e =
      let h = add_products-Adds ps (new_product_metrics (length ps)) m e in
      (
        h.counted,
        ground (arith, h.nft),
        ground (arith, h.high_score),
        ground (arith, h.medium_score),
        ground (arith, h.low_score),
        h.usage λ k. omega arith,
      )
