-- ===== src/Contract/Products/Effects.antt =====
-- registerProduct, transferCustody, updateStatus, addCertification and createFinishedProduct write
-- products, and only products.
use sustainable_fashion_chai.Prelude.{
  ℕ, String, ◌≡◌, refl, ◌∙◌, Bool, true, false, not, Option, List, [], ◌∷◌, arith, ◌==◌, eq_iff,
  inl, inr, Bool-cases, any,
}
use sustainable_fashion_chai.Json.{Value, str, Fields, end, field, get, set, keys}
use sustainable_fashion_chai.Json.Laws.{get-set}
use sustainable_fashion_chai.Fabric.{Stored, ok, put, Env, pure}
use sustainable_fashion_chai.Fabric.Returns.{
  Returns, Returns-pure, Returns-lift, Returns-ensure, Returns-put, Returns-if, Returns-load, Reads,
  Returns-read, none_of_present,
}
use sustainable_fashion_chai.Contract.{push_onto}
use sustainable_fashion_chai.Contract.Records.{IsProduct, Sorted}
use sustainable_fashion_chai.Contract.Kinds.{push_onto_lem, IsProduct-of_unbatched, Returns-load_at}
use sustainable_fashion_chai.Contract.Changes.{Change, Committed, single, fresh_product, product}
use sustainable_fashion_chai.Contract.Products.{
  register_product, transfer_custody, update_status, add_certification, create_finished_product,
  is_reserved, merge, merge_additional, merge_parsed, materials_of,
}

not-true : {b : Bool} → not b ≡ true → b ≡ false
not-true {b} h = ground arith

pub single_put :
    {has : String → String → Bool} {read : String → Option Stored} {k : String} {d : Fields}
    → Change has read k d
    → Committed has read (put k d ∷ [])
single_put {k} {d} c = single k d c (λ j. refl)

-- A field other than "rwaStatus" and "batchId" may be set in a product.
pub set-IsProduct :
    (k : String) (v : Value) (d : Fields)
    → (k == "rwaStatus") ≡ false
    → (k == "batchId") ≡ false
    → IsProduct d
    → IsProduct (set k v d)
set-IsProduct k v d e f p = record {
  no_rwa = get-set k "rwaStatus" v d ∙ rw e p.no_rwa;
  no_batch = get-set k "batchId" v d ∙ rw f p.no_batch;
}

pub push_onto-IsProduct :
    (k : String) (v : Value) (d d' : Fields)
    → (k == "rwaStatus") ≡ false
    → (k == "batchId") ≡ false
    → push_onto k v d ≡ ok d'
    → IsProduct d
    → IsProduct d'
push_onto-IsProduct k v d d' e f h p =
    let (vs, was, now) = push_onto_lem k v d d' h in rw now (set-IsProduct k _ d e f p)

is_reserved-ne : (j k : String) → is_reserved j ≡ true → is_reserved k ≡ false → (k == j) ≡ false
is_reserved-ne j k r h = elim (Bool-cases (k == j)) [
  | inl same ↦ let e = (eq_iff k j).0 same in cc (rw e at h, r)
  | inr other ↦ other
]

-- What updateStatus merges reaches no reserved field.
get-merge :
    (j : String) (fs d : Fields)
    → is_reserved j ≡ true
    → any is_reserved (keys fs) ≡ false
    → get j (merge fs d) ≡ get j d
unfolding merge
get-merge j end d r h = refl
get-merge j (field k v fs) d r h =
    let here : is_reserved k ≡ false = ground arith in
    let later : any is_reserved (keys fs) ≡ false = ground arith in
    get-merge j fs (set k v d) r later ∙ get-set k j v d ∙ rw (is_reserved-ne j k r here)

module _ (env : Env) (s : Sorted env.read) where
  pub register_product-Committed :
      (id kind origin timestamp certifications metadata : String)
      → Returns
          (λ _ w. Committed env.has_attribute env.read w)
          []
          (register_product env id kind origin timestamp certifications metadata)
  unfolding register_product get
  register_product-Committed id kind origin timestamp certifications metadata =
      Returns-ensure _ _ _ λ absent. Returns-lift _ _ λ certs _. Returns-lift _ _ λ meta _.
        Returns-put id _ _ (
          Returns-pure _ (
            single_put (
              fresh_product (none_of_present _ (not-true absent))
                (record { no_rwa = refl; no_batch = refl }))))

  pub transfer_custody-Committed :
      (id new_holder timestamp location : String)
      → Returns
          (λ _ w. Committed env.has_attribute env.read w)
          []
          (transfer_custody env id new_holder timestamp location)
  unfolding transfer_custody
  transfer_custody-Committed id new_holder timestamp location = Returns-load env id _ _ λ d found.
      Returns-ensure _ _ _ λ unbatched. Returns-lift _ _ λ d' pushed.
        let p = IsProduct-of_unbatched (s.kind id d found) (not-true unbatched) in
        Returns-put id d' _ (
          Returns-pure _ (
            single_put
              (product d found p (push_onto-IsProduct "custodyHistory" _ d d' refl refl pushed p))))

  merge_additional-IsProduct :
      (additional : String) (d : Fields)
      → IsProduct d
      → Reads IsProduct [] (merge_additional env additional d)
  unfolding merge_additional merge_parsed is_reserved
  merge_additional-IsProduct additional d p =
      Returns-if (additional == "") (pure d) (merge_parsed env additional d)
        (λ none_given. Returns-pure d (refl, p))
        (λ given. Returns-lift _ _ λ value read_it. Returns-lift _ _ λ more keyed.
          Returns-ensure _ _ _ λ free. Returns-pure (merge more d) (
            refl,
            record {
              no_rwa = get-merge "rwaStatus" more d refl (not-true free) ∙ p.no_rwa;
              no_batch = get-merge "batchId" more d refl (not-true free) ∙ p.no_batch;
            },
          ))

  pub update_status-Committed :
      (id new_status timestamp additional : String)
      → Returns
          (λ _ w. Committed env.has_attribute env.read w)
          []
          (update_status env id new_status timestamp additional)
  unfolding update_status
  update_status-Committed id new_status timestamp additional = Returns-load env id _ _ λ d found.
      Returns-ensure _ _ _ λ unbatched.
        let p = IsProduct-of_unbatched (s.kind id d found) (not-true unbatched) in
        Returns-ensure _ _ _ λ unminted.
          Returns-read _ _
            (merge_additional-IsProduct additional _
              (set-IsProduct "status" (str new_status) d refl refl p))
            λ merged pm. Returns-lift _ _ λ updated pushed. Returns-put id updated _ (
              Returns-pure _ (
                single_put (
                  product d found p (
                    push_onto-IsProduct "statusHistory" _ _ updated refl refl pushed
                      (set-IsProduct "statusHistory" _ merged refl refl pm)))))

  pub add_certification-Committed :
      (id cert_type cert_id issuer timestamp : String)
      → Returns
          (λ _ w. Committed env.has_attribute env.read w)
          []
          (add_certification env id cert_type cert_id issuer timestamp)
  unfolding add_certification
  add_certification-Committed id cert_type cert_id issuer timestamp =
      Returns-load env id _ _ λ d found. Returns-ensure _ _ _ λ unbatched.
        Returns-lift _ _ λ d' pushed.
          let p = IsProduct-of_unbatched (s.kind id d found) (not-true unbatched) in
          Returns-put id d' _ (
            Returns-pure _ (
              single_put (
                product d found p (
                  push_onto-IsProduct "certifications" _ _ d' refl refl pushed
                    (set-IsProduct "certifications" _ d refl refl p)))))

  materials_of-Reads :
      (n : ℕ) (batch_ids : List Value) → Reads (λ _. Unit {0}) [] (materials_of env n batch_ids)
  unfolding materials_of
  materials_of-Reads n [] = Returns-pure [] (refl, tt)
  materials_of-Reads n (batch_id ∷ batch_ids) =
      Returns-load_at env batch_id _ _ λ batch k named found.
        Returns-read _ _ (materials_of-Reads n batch_ids) λ more _. Returns-pure _ (refl, tt)

  pub create_finished_product-Committed :
      (product_id product_type manufacturer batch_ids product_date : String)
      → Returns
          (λ _ w. Committed env.has_attribute env.read w)
          []
          (create_finished_product env product_id product_type manufacturer batch_ids product_date)
  unfolding create_finished_product get
  create_finished_product-Committed product_id product_type manufacturer batch_ids product_date =
      Returns-ensure _ _ _ λ given. Returns-lift _ _ λ parsed_ids _.
        Returns-lift _ _ λ batch_id_array _. Returns-ensure _ _ _ λ absent.
          Returns-read _ _ (materials_of-Reads _ batch_id_array) λ materials _.
            Returns-put product_id _ _ (
              Returns-pure _ (
                single_put (
                  fresh_product (none_of_present _ (not-true absent))
                    (record { no_rwa = refl; no_batch = refl }))))
