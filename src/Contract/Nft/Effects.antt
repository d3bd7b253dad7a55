-- ===== src/Contract/Nft/Effects.antt =====
-- requestNFTMinting, mintNFT and recordRecycling write products, and only products.
use mathlib.Core.Bool.{and-eq-true_iff}
use sustainable_fashion_chai.Prelude.{String, ◌≡◌, refl, true, some, []}
use sustainable_fashion_chai.Json.{obj, Fields, get, truthy, is_text}
use sustainable_fashion_chai.Fabric.{document, Env, pure}
use sustainable_fashion_chai.Fabric.Returns.{
  Returns, Returns-pure, Returns-lift, Returns-ensure, Returns-put, Returns-event, Returns-if,
  Returns-load,
}
use sustainable_fashion_chai.Contract.Records.{Sorted}
use sustainable_fashion_chai.Contract.Kinds.{IsProduct-of_status, IsProduct-of_token}
use sustainable_fashion_chai.Contract.Changes.{Committed, quiet, single, product}
use sustainable_fashion_chai.Contract.Products.Effects.{
  single_put, set-IsProduct, push_onto-IsProduct,
}
use sustainable_fashion_chai.Contract.Nft.{
  request_nft_minting, mint, mint_nft, recycle, record_recycling,
}

module _ (env : Env) (s : Sorted env.read) where
  pub request_nft_minting-Committed :
      (product_id recipient metadata_uri : String)
      → Returns
          (λ _ w. Committed env.has_attribute env.read w)
          []
          (request_nft_minting env product_id recipient metadata_uri)
  unfolding request_nft_minting
  request_nft_minting-Committed product_id recipient metadata_uri =
      Returns-load env product_id _ _ λ d found. Returns-ensure _ _ _ λ finished.
        Returns-ensure _ _ _ λ addressed.
          let p =
            IsProduct-of_status "FINISHED" (refl, refl, refl, refl, refl, refl)
              (s.kind product_id d found) ((and-eq-true_iff _ _).0 finished).0 in
          Returns-put product_id _ _ (
            Returns-event _ _ _ (
              Returns-pure _ (
                single product_id _ (product d found p (set-IsProduct "status" _ d refl refl p))
                  (λ j. refl))))

  mint-Committed :
      (product_id nft_token_id : String) (d : Fields)
      → env.read product_id ≡ some (document d)
      → Returns
          (λ _ w. Committed env.has_attribute env.read w)
          []
          (mint env product_id nft_token_id d)
  unfolding mint
  mint-Committed product_id nft_token_id d found = Returns-ensure _ _ _ λ pending.
      Returns-lift _ _ λ d' pushed.
        let p =
          IsProduct-of_status "NFT_MINT_PENDING" (refl, refl, refl, refl, refl, refl)
            (s.kind product_id d found) ((and-eq-true_iff _ _).0 pending).1 in
        Returns-put product_id d' _ (
          Returns-pure _ (
            single_put (
              product d found p (
                push_onto-IsProduct "history" _ _ d' refl refl pushed (
                  set-IsProduct "history" _ _ refl refl (
                    set-IsProduct "status" _ _ refl refl
                      (set-IsProduct "nftTokenId" _ d refl refl p)))))))

  pub mint_nft-Committed :
      (product_id nft_token_id : String)
      → Returns
          (λ _ w. Committed env.has_attribute env.read w)
          []
          (mint_nft env product_id nft_token_id)
  unfolding mint_nft
  mint_nft-Committed product_id nft_token_id = Returns-ensure _ _ _ λ bridge.
      Returns-ensure _ _ _ λ numeral. Returns-load env product_id _ _ λ d found.
        Returns-if (is_text nft_token_id (get "nftTokenId" d)) (pure (obj d))
          (mint env product_id nft_token_id d) (λ same. Returns-pure _ (quiet (λ j. refl)))
          (λ other. mint-Committed product_id nft_token_id d found)

  recycle-Committed :
      (product_id ethereum_tx : String) (d : Fields)
      → env.read product_id ≡ some (document d)
      → truthy (get "nftTokenId" d) ≡ true
      → Returns
          (λ _ w. Committed env.has_attribute env.read w)
          []
          (recycle env product_id ethereum_tx d)
  unfolding recycle
  recycle-Committed product_id ethereum_tx d found token = Returns-ensure _ _ _ λ tokenized.
      Returns-lift _ _ λ d' pushed.
        let p = IsProduct-of_token (s.kind product_id d found) token in
        Returns-put product_id d' _ (
          Returns-pure _ (
            single_put (
              product d found p (
                push_onto-IsProduct "history" _ _ d' refl refl pushed (
                  set-IsProduct "recyclingTx" _ _ refl refl
                    (set-IsProduct "status" _ d refl refl p))))))

  pub record_recycling-Committed :
      (product_id nft_token_id ethereum_tx : String)
      → Returns
          (λ _ w. Committed env.has_attribute env.read w)
          []
          (record_recycling env product_id nft_token_id ethereum_tx)
  unfolding record_recycling
  record_recycling-Committed product_id nft_token_id ethereum_tx = Returns-ensure _ _ _ λ bridge.
      Returns-ensure _ _ _ λ well_formed. Returns-load env product_id _ _ λ d found.
        Returns-ensure _ _ _ λ token.
          Returns-if (is_text ethereum_tx (get "recyclingTx" d)) (pure (obj d))
            (recycle env product_id ethereum_tx d) (λ same. Returns-pure _ (quiet (λ j. refl)))
            (λ other.
              recycle-Committed product_id ethereum_tx d found ((and-eq-true_iff _ _).0 token).0)
