-- ===== src/Contract/Cotton/Effects.antt =====
-- registerCottonBatch writes a new batch; verifyCottonBatch and storeCottonBatch advance one.
use sustainable_fashion_chai.Prelude.{
  String, ◌≡◌, ◌≢◌, refl, true, false, Option, none, some, [], ◌∷◌, arith, eq_iff, inl, inr,
}
use mathlib.Core.Bool.{and-eq-true_iff}
use sustainable_fashion_chai.Number.{Number, not_positive}
use sustainable_fashion_chai.Json.{Value, str, Fields, get, is_text, assign}
use sustainable_fashion_chai.Json.Laws.{get-set, is_text→eq}
use sustainable_fashion_chai.Fabric.{document, Error, ok, Env}
use sustainable_fashion_chai.Fabric.Returns.{
  Returns, Returns-pure, Returns-lift, Returns-ensure, Returns-put, Returns-event, Returns-load,
  none_of_present,
}
use sustainable_fashion_chai.Contract.{push_onto}
use sustainable_fashion_chai.Contract.Records.{
  IsBatch, Kind, is_batch, is_request, is_product, Sorted,
}
use sustainable_fashion_chai.Contract.Batches.{
  Agree, Agree-refl, Agree-set, Agree-tail, Agree-push_onto, get-push_onto, settled,
  Advance-settled, Link-settled,
}
use sustainable_fashion_chai.Contract.Changes.{
  Change, Committed, single, fresh_batch, batch, product,
}
use sustainable_fashion_chai.Contract.Products.Effects.{
  single_put, set-IsProduct, push_onto-IsProduct,
}
use sustainable_fashion_chai.Contract.Cotton.{
  positive_of, new_batch, register_cotton_batch, certify, verify_cotton_batch, store_cotton_batch,
}

not_positive-positive_of :
    (e : Error) (o : Option Number) (q : Number) → positive_of e o ≡ ok q → not_positive q ≡ false
not_positive-positive_of e none q h = cc
not_positive-positive_of e (some n) q h = ground arith

module _ (env : Env) where
  new_batch-IsBatch :
      (id farm_id : String) (q : Number) (organic fair_trade harvest_date location : String)
      → id ≢ ""
      → not_positive q ≡ false
      → IsBatch id q (new_batch env id farm_id q organic fair_trade harvest_date location)
  unfolding new_batch get is_text
  new_batch-IsBatch id farm_id q organic fair_trade harvest_date location keyed positive = record {
    keyed = keyed;
    batch_id = refl;
    quantity = refl;
    quantity_kg = refl;
    positive = positive;
    status = refl;
    rwa = refl;
    no_nft = refl;
    tokenized = refl;
  }

  pub register_cotton_batch-Committed :
      (id farm_id quantity organic fair_trade harvest_date location : String)
      → Returns
          (λ _ w. Committed env.has_attribute env.read w)
          []
          (register_cotton_batch env id farm_id quantity organic fair_trade harvest_date location)
  unfolding register_cotton_batch
  register_cotton_batch-Committed id farm_id quantity organic fair_trade harvest_date location =
      Returns-ensure _ _ _ λ given. Returns-lift _ _ λ q positive. Returns-ensure _ _ _ λ absent.
        Returns-put id _ _ (
          Returns-pure _ (
            single_put (
              fresh_batch q (none_of_present _ (ground arith)) (
                new_batch-IsBatch id farm_id q organic fair_trade harvest_date location
                  (λ e. ground (arith, eq_iff id "")) (not_positive-positive_of _ _ q positive)))))

  -- The certificate advances a produced batch, which no request names yet.
  certify-Change :
      (id hash : String) (d : Fields)
      → env.read id ≡ some (document d)
      → Kind env.read id d
      → is_text "STORED" (get "status" d) ≡ true
      → is_text "PRODUCED" (get "rwaStatus" d) ≡ true
      → env.has_attribute "sfc.role" "certifier" ≡ true
      → Change env.has_attribute env.read id (certify env hash d)
  unfolding certify is_text
  certify-Change id hash d found (is_batch q h) stored produced certifier =
      batch q d found h
        (record {
          still = record {
            keyed = h.keyed;
            batch_id = simp get-set h.batch_id;
            quantity = simp get-set h.quantity;
            quantity_kg = simp get-set h.quantity_kg;
            positive = h.positive;
            status = simp get-set h.status;
            rwa = simp get-set refl;
            no_nft = simp get-set h.no_nft;
            tokenized = simp get-set h.tokenized;
          };
          producer = simp get-set refl;
          created = simp get-set refl;
          harvested = simp get-set refl;
          stage = simp get-set (rw produced (omega arith));
          certificate = λ e. cc;
          tokenization = λ e. simp get-set refl;
        })
        (inr
          (inl (is_text→eq "PRODUCED" (get "rwaStatus" d) produced, simp get-set refl, certifier)))
        (λ j r l. cc (l.certified, produced))
  certify-Change id hash d found (is_request b q c keyed at_b h l) stored produced certifier =
      cc (rw l.request_rwa at produced)
  certify-Change id hash d found (is_product p) stored produced certifier =
      cc (rw p.no_rwa at produced)

  pub verify_cotton_batch-Committed :
      Sorted env.read
      → (id certification_hash : String)
      → Returns
          (λ _ w. Committed env.has_attribute env.read w)
          []
          (verify_cotton_batch env id certification_hash)
  unfolding verify_cotton_batch
  verify_cotton_batch-Committed s id hash = Returns-ensure _ _ _ λ certifier.
      Returns-ensure _ _ _ λ well_formed. Returns-load env id _ _ λ d found.
        Returns-ensure _ _ _ λ verifiable.
          let (stored, produced) = (and-eq-true_iff _ _).0 verifiable in
          Returns-put id _ _ (
            Returns-event _ _ _ (
              Returns-pure _ (
                single id (certify env hash d)
                  (certify-Change id hash d found (s.kind id d found) stored produced certifier)
                  (λ j. refl))))

  -- What storeCottonBatch assigns before it adds to the history.
  abbrev stored_at : String → Fields → Fields
  stored_at warehouse_id = assign (
      ("status", str "STORED")
      ∷ ("location", str warehouse_id)
      ∷ ("currentCustody", str warehouse_id)
      ∷ [])

  stored_at-Agree :
      (warehouse_id : String) (d : Fields)
      → Agree ("pendingTokenizationId" ∷ settled) d (stored_at warehouse_id d)
  stored_at-Agree warehouse_id d =
      Agree-set _ "currentCustody" _ d _ refl
        (Agree-set _ "location" _ d _ refl (Agree-set _ "status" _ d d refl (Agree-refl _ d)))

  store-Change :
      (id warehouse_id : String) (v : Value) (d d' : Fields)
      → env.read id ≡ some (document d)
      → Kind env.read id d
      → is_text "HARVESTED" (get "status" d) ≡ true
      → push_onto "history" v (stored_at warehouse_id d) ≡ ok d'
      → Change env.has_attribute env.read id d'
  unfolding is_text
  store-Change id warehouse_id v d d' found (is_batch q h) harvested pushed =
      let agree =
        Agree-push_onto ("pendingTokenizationId" ∷ settled) "history" v d _ d' refl pushed
          (stored_at-Agree warehouse_id d) in
      let status = get-push_onto "history" "status" v _ d' refl pushed in
      batch q d found h
        (Advance-settled id q d d' (Agree-tail "pendingTokenizationId" settled d d' agree)
          (rw status (simp get-set refl)) h)
        (inl (agree.at "rwaStatus" refl))
        (λ j r l.
          Link-settled id q d d' j r (agree.at "rwaStatus" refl)
            (agree.at "pendingTokenizationId" refl) l)
  store-Change id warehouse_id v d d' found (is_request b q c keyed at_b h l) harvested pushed =
      let st = is_text→eq "HARVESTED" (get "status" d) harvested in cc (rw st at l.status)
  store-Change id warehouse_id v d d' found (is_product p) harvested pushed = product d found p (
      push_onto-IsProduct "history" v _ d' refl refl pushed (
        set-IsProduct "currentCustody" _ _ refl refl
          (set-IsProduct "location" _ _ refl refl (set-IsProduct "status" _ d refl refl p))))

  pub store_cotton_batch-Committed :
      Sorted env.read
      → (id warehouse_id : String)
      → Returns
          (λ _ w. Committed env.has_attribute env.read w)
          []
          (store_cotton_batch env id warehouse_id)
  unfolding store_cotton_batch
  store_cotton_batch-Committed s id warehouse_id = Returns-load env id _ _ λ d found.
      Returns-ensure _ _ _ λ storable. Returns-lift _ _ λ d' pushed. Returns-put id d' _ (
        Returns-pure _ (
          single_put (
            store-Change id warehouse_id _ d d' found (s.kind id d found)
              ((and-eq-true_iff _ _).0 storable).1 pushed)))
