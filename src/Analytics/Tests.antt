-- ===== src/Analytics/Tests.antt =====
-- Two batches and a product, and a service that is asked for their metrics over half an hour.
use sustainable_fashion_chai.Prelude.{
  update, ℕ, ◌+◌, ◌<◌, ◌≡◌, refl, true, false, none, some, List, [], ◌∷◌, ◌==◌, arith, count,
  length, ◌⊎◌, if◌then◌else◌,
}
use sustainable_fashion_chai.Number.{whole}
use sustainable_fashion_chai.Json.{
  is_inherited, bool, num, str, arr, Fields, fields, items, get, truthy, object,
}
use sustainable_fashion_chai.Fabric.{ok}
use sustainable_fashion_chai.Analytics.Metrics.{
  number, bump, Env, property, has_entries, list_of, ◌>>=◌,
}
use sustainable_fashion_chai.Analytics.Batches.{batch_metrics}
use sustainable_fashion_chai.Analytics.Products.{
  ProductMetrics, product_metrics, add_products, add_product, add_materials, add_certifications,
  count_sustainable, add_score,
}
use sustainable_fashion_chai.Analytics.Service
use sustainable_fashion_chai.Analytics.Service.{
  Service, new_service, get_batch_metrics, get_product_metrics, is_fresh, load_batch, load_product,
  ensure_fabric, store_batch, store_product, stamped,
}
use sustainable_fashion_chai.Analytics.Tally.{IsTally, batch_metrics-IsTally}
use sustainable_fashion_chai.Analytics.Ratings.{is_high, is_medium, is_low}
use sustainable_fashion_chai.Analytics.Scores.{Bounded, has_nft, rated, product_metrics-Adds}
use sustainable_fashion_chai.Analytics.Fresh.{
  Reaches, start, called, Saw, Computed, batches, products, run,
}
use sustainable_fashion_chai.Analytics.Fresh.Batches.{get_batch_metrics-Recent}
use sustainable_fashion_chai.Analytics.Fresh.Stale.{get_product_metrics-Stale}

abbrev harvest : List Fields
harvest =
    fields (
      ("type", str "cotton")
      ∷ ("organic", bool true)
      ∷ ("status", str "STORED")
      ∷ ("origin", str "Izmir")
      ∷ ("harvestDate", str "2026-05-02")
      ∷ ("quantity", num (whole 40))
      ∷ [])
    ∷ fields (
        ("type", str "cotton")
        ∷ ("organic", bool false)
        ∷ ("status", str "STORED")
        ∷ ("origin", str "Adana")
        ∷ ("harvestDate", str "2026-05-09")
        ∷ ("quantity", num (whole 60))
        ∷ [])
    ∷ []

abbrev shirts : List Fields
shirts =
    fields (
      ("type", str "finished")
      ∷ ("manufacturer", str "Mill")
      ∷ ("nftTokenId", str "7")
      ∷ (
        "materials",
        arr (
            items (
              object (("type", str "cotton") ∷ ("sustainable", bool true) ∷ [])
              ∷ object (("type", str "silk") ∷ ("sustainable", bool false) ∷ [])
              ∷ [])),
      )
      ∷ [])
    ∷ []

abbrev at : (now : ℕ) → 0 < now → Env
at now after_1970 = record {
  now = now;
  after_1970 = after_1970;
  number_of = λ s. none;
  native = λ k. "function";
  text = λ v. elim v [ str s ↦ s | _ ↦ "undefined" ];
  parse_float = λ v. elim v [ num n ↦ some n | _ ↦ none ];
  plus = λ a b. b;
  times_30 = λ a. a;
  month_of = λ v. "2026-05";
  percent = λ a b. "50.0";
  connect = ok tt;
  query = λ kind. ok (if kind == "cotton" then harvest else shirts);
  ethereum = false;
  total_supply = none;
}

abbrev morning : Env
morning = at 1000 (omega arith)

abbrev noon : Env
noon = at 2000000 (omega arith)

abbrev later : Env
later = at 2800000 (omega arith)

batch_metrics-IsTally_example : IsTally morning harvest (batch_metrics morning harvest)
batch_metrics-IsTally_example = batch_metrics-IsTally morning harvest

abbrev shirt_metrics : ProductMetrics
shirt_metrics = record {
  total_count = 1;
  nft_count = 1;
  by_manufacturer = ("Mill", number 1) ∷ [];
  by_sustainability_score = record { high = 0; medium = 1; low = 0 };
  material_usage =
      ("cotton", record { total = 1; sustainable = 1 })
      ∷ ("silk", record { total = 1; sustainable = 0 })
      ∷ [];
  certification_counts = [];
}

metrics : Unit {0}
unfolding run is_inherited bump get_batch_metrics get_product_metrics is_fresh load_batch
    load_product ensure_fabric store_batch store_product stamped product_metrics add_products
    add_product add_materials add_certifications count_sustainable add_score update property ◌>>=◌
    Service.◌>>=◌ has_entries get truthy list_of
metrics = tt

shirts_counted : product_metrics morning shirts ≡ ok shirt_metrics
unfolding metrics
shirts_counted = refl

product_metrics-Adds_example :
    (shirt_metrics.total_count ≡ length shirts)
    × (shirt_metrics.nft_count ≡ count (has_nft morning) shirts)
    × (shirt_metrics.by_sustainability_score.high ≡ count (rated morning is_high) shirts)
    × (shirt_metrics.by_sustainability_score.medium ≡ count (rated morning is_medium) shirts)
    × (shirt_metrics.by_sustainability_score.low ≡ count (rated morning is_low) shirts)
    × Bounded morning shirt_metrics.material_usage
product_metrics-Adds_example = product_metrics-Adds morning shirts shirt_metrics shirts_counted

-- Both metrics are computed in the morning.
abbrev started : Service
started = run morning products (run morning batches new_service)

started-Reaches : Reaches (morning ∷ morning ∷ []) started
started-Reaches = called morning products (called morning batches start)

abbrev renewed : Service
renewed = (get_batch_metrics noon started).1

noon_batches : get_batch_metrics noon started ≡ (ok (batch_metrics noon harvest), renewed)
unfolding metrics
noon_batches = refl

get_batch_metrics-Recent_example :
    (e : Env) × Saw e (noon ∷ morning ∷ morning ∷ [])
    × Computed e (batch_metrics noon harvest)
    × ((e ≡ noon) ⊎ (2000000 < e.now + started.cache_ttl))
get_batch_metrics-Recent_example =
    get_batch_metrics-Recent (morning ∷ morning ∷ []) started started-Reaches noon
      (batch_metrics noon harvest) renewed noon_batches

old_products : started.product_cache ≡ some shirt_metrics
unfolding metrics
old_products = refl

out_of_date : is_fresh noon started ≡ false
unfolding metrics
out_of_date = refl

in_time : 2800000 < 2000000 + started.cache_ttl
unfolding metrics
in_time = omega arith

get_product_metrics-Stale_example :
    (renewed.product_cache ≡ some shirt_metrics)
    × (get_product_metrics later renewed ≡ (ok shirt_metrics, renewed))
get_product_metrics-Stale_example =
    get_product_metrics-Stale noon later started renewed (batch_metrics noon harvest) shirt_metrics
      old_products out_of_date noon_batches in_time
