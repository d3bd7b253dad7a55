-- ===== src/Contract/Queries/Effects.antt =====
-- The queries write nothing.
use sustainable_fashion_chai.Prelude.{String, refl, Bool, []}
use sustainable_fashion_chai.Json.{Fields}
use sustainable_fashion_chai.Fabric.{Env}
use sustainable_fashion_chai.Fabric.Returns.{Returns, Returns-pure, Returns-lift, Returns-load}
use sustainable_fashion_chai.Contract.Changes.{Committed, quiet}
use sustainable_fashion_chai.Contract.Queries.{
  query_records, query_product, query_products_by_type, query_all_batches, query_all_products,
  get_tokenization_request, query_pending_tokenization_requests,
  query_approved_tokenization_requests,
}

module _ (env : Env) where
  query_records-Committed :
      (predicate : Fields → Bool)
      → Returns (λ _ w. Committed env.has_attribute env.read w) [] (query_records env predicate)
  unfolding query_records
  query_records-Committed predicate =
      Returns-lift _ _ λ records _. Returns-pure _ (quiet (λ j. refl))

  pub query_product-Committed :
      (id : String)
      → Returns (λ _ w. Committed env.has_attribute env.read w) [] (query_product env id)
  unfolding query_product
  query_product-Committed id = Returns-load env id _ _ λ d _. Returns-pure _ (quiet (λ j. refl))

  pub query_products_by_type-Committed :
      (kind : String)
      → Returns (λ _ w. Committed env.has_attribute env.read w) [] (query_products_by_type env kind)
  unfolding query_products_by_type
  query_products_by_type-Committed kind = query_records-Committed _

  pub query_all_batches-Committed :
      Returns (λ _ w. Committed env.has_attribute env.read w) [] (query_all_batches env)
  unfolding query_all_batches
  query_all_batches-Committed = query_records-Committed _

  pub query_all_products-Committed :
      Returns (λ _ w. Committed env.has_attribute env.read w) [] (query_all_products env)
  unfolding query_all_products
  query_all_products-Committed = query_records-Committed _

  pub get_tokenization_request-Committed :
      (request_id : String)
      → Returns
          (λ _ w. Committed env.has_attribute env.read w)
          []
          (get_tokenization_request env request_id)
  unfolding get_tokenization_request
  get_tokenization_request-Committed request_id =
      Returns-load env request_id _ _ λ d _. Returns-pure _ (quiet (λ j. refl))

  pub query_pending_tokenization_requests-Committed :
      Returns
        (λ _ w. Committed env.has_attribute env.read w)
        []
        (query_pending_tokenization_requests env)
  unfolding query_pending_tokenization_requests
  query_pending_tokenization_requests-Committed = query_records-Committed _

  pub query_approved_tokenization_requests-Committed :
      Returns
        (λ _ w. Committed env.has_attribute env.read w)
        []
        (query_approved_tokenization_requests env)
  unfolding query_approved_tokenization_requests
  query_approved_tokenization_requests-Committed = query_records-Committed _
