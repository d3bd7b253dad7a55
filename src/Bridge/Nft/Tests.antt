-- ===== src/Bridge/Nft/Tests.antt =====
-- A shirt whose NFT is asked for again and again, the first time without a confirmation.
use sustainable_fashion_chai.Prelude.{
  ◌≢◌, String, ◌≡◌, refl, true, false, some, List, [], ◌∷◌, ◌==◌, decimal, arith,
}
use sustainable_fashion_chai.Fabric.{ok}
use sustainable_fashion_chai.Bridge.Relay.{same_address}
use sustainable_fashion_chai.Bridge.Nft.{
  Product, fabric_to_token_id, product_data, mint_product, Request, refused, mined, Env, World,
  settle, process_nft_minting, handle_product_recycled,
}
use sustainable_fashion_chai.Bridge.Nft.Recycled.{Reported, handle_product_recycled-Reported}
use sustainable_fashion_chai.Bridge.Nft.Unique.{Unique, process_all, process_all-Unique}
use sustainable_fashion_chai.Bridge.Nft.Backed.{Backed, process_nft_minting-Backed}

-- The contract on Fabric keeps the tokens that it is told.
abbrev env : Env
env = record {
  Fabric = List (String × String);
  is_address = λ a. a == "0xAB";
  minter = true;
  accepts = λ p. true;
  receipt = λ hash. some (record { hash = hash; status = 1 });
  wait = λ hash. true;
  mint_nft = λ product token told. (true, (product, token) ∷ told);
  record_recycling = λ product token hash told. (true, told);
}

abbrev shirt : Request
shirt = record {
  product_id = "shirt";
  fabric_product_id = "shirt";
  product_type = "T-shirt";
  manufacturer = "Mill";
  metadata_uri = "ipfs://shirt";
  recipient = "0xAB";
}

abbrev empty : World env
empty = record { nft = []; fabric = [] }

abbrev minted_shirt : Product
minted_shirt = record {
  fabric_product_id = "shirt";
  product_type = "T-shirt";
  manufacturer = "Mill";
  metadata_uri = "ipfs://shirt";
  minted_to = "0xAB";
  mint_hash = "0x1";
  recycled = false;
  recycle_logs = [];
}

abbrev told : World env
told = record { nft = minted_shirt ∷ []; fabric = ("shirt", "1") ∷ [] }

answered :
    process_nft_minting env shirt (mined "0x1" true) empty
    ≡ (ok (record { token_id = 1; transaction_hash = "0x1" }), told)
unfolding process_nft_minting settle mint_product product_data fabric_to_token_id same_address
    decimal
answered = refl

process_nft_minting-Backed_example :
    (shirt.product_id ≢ "")
    × (env.is_address shirt.recipient ≡ true)
    × Backed env shirt (record { token_id = 1; transaction_hash = "0x1" }) [] told
process_nft_minting-Backed_example =
    process_nft_minting-Backed env shirt (mined "0x1" true) empty told
      (record { token_id = 1; transaction_hash = "0x1" }) answered

abbrev returned : World env
returned = record {
  nft = record minted_shirt { recycled = true; recycle_logs = "0x3" ∷ [] } ∷ [];
  fabric = ("shirt", "1") ∷ [];
}

reported : handle_product_recycled env 1 returned ≡ (ok tt, returned)
unfolding handle_product_recycled product_data
reported = refl

handle_product_recycled-Reported_example : Reported env 1 returned returned
handle_product_recycled-Reported_example =
    handle_product_recycled-Reported env 1 returned returned tt reported

empty-Unique : Unique []
empty-Unique = record { at_most_one = λ id. omega arith }

process_all-Unique_example :
    Unique
      (process_all env
        ((shirt, mined "0x1" false) ∷ (shirt, mined "0x2" true) ∷ (shirt, refused) ∷ [])
        empty).nft
process_all-Unique_example =
    process_all-Unique env
      ((shirt, mined "0x1" false) ∷ (shirt, mined "0x2" true) ∷ (shirt, refused) ∷ []) empty
      empty-Unique
