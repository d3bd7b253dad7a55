-- ===== src/Bridge/Nft/Backed.antt =====
-- What an answer of the bridge about an NFT stands for.
use sustainable_fashion_chai.Prelude.{
  ℕ, ◌≡◌, ◌≢◌, ◌∙◌, ◌&&◌, ◌==◌, eq_iff, refl, sym, ap, Bool, true, false, not, Option, none, some,
  decimal, arith, nat_eq, Bool-cases, inl, inr, if◌then◌else◌,
}
use sustainable_fashion_chai.Fabric.{Error, Result, ok, err}
use sustainable_fashion_chai.Bridge.Services.{Receipt}
use sustainable_fashion_chai.Bridge.Relay.{same_address}
use sustainable_fashion_chai.Bridge.Nft.{
  Product, Nft, fabric_to_token_id, product_data, mint_product, Request, Sending, refused, mined,
  Env, Minted, World, acknowledged, settle_receipt, settle_product, settle, after_mint, send_mint,
  or_text, product_of, matches, is_valid, process_nft_minting,
}

module _ (env : Env) where
  -- The token of the answer is that of the product, with the recipient and the data of the request,
  -- minted by a transaction with this hash's receipt, and the contract on Fabric took the
  -- acknowledgment.
  pub record Backed (req : Request) (m : Minted) (before : env.Fabric) (w : World env)
      : Type 0 where
    pub product : Product
    pub found : product_data m.token_id w.nft ≡ some product
    pub token_of : fabric_to_token_id req.product_id w.nft ≡ m.token_id
    pub minted_to : same_address product.minted_to req.recipient ≡ true
    pub stands_for : product.fabric_product_id ≡ req.product_id
    pub kind : product.product_type ≡ req.product_type
    pub made_by : product.manufacturer ≡ req.manufacturer
    pub metadata : product.metadata_uri ≡ req.metadata_uri
    pub receipt_of : Receipt
    pub mined_by : env.receipt product.mint_hash ≡ some receipt_of
    pub successful : receipt_of.status ≡ 1
    pub hash_of : m.transaction_hash ≡ receipt_of.hash
    pub confirmed : env.wait receipt_of.hash ≡ true
    pub taken : env.mint_nft req.product_id (decimal m.token_id) before ≡ (true, w.fabric)

  err_ne :
      {x : Error} {v w : World env} {m : Minted}
      → ◌≡◌ {A = Result Minted × World env} (err x, v) (ok m, w)
      → ⊥
  err_ne e = ne (ap (λ r. r.0) e)
    where
      ne : {x : Error} {m : Minted} → ◌≡◌ {A = Result Minted} (err x) (ok m) → ⊥
      ne h = cc

  ok_eq :
      {a m : Minted} {v w : World env}
      → ◌≡◌ {A = Result Minted × World env} (ok a, v) (ok m, w)
      → (a ≡ m) × (v ≡ w)
  ok_eq {a} {m} e = (same (ap (λ r. r.0) e), ap (λ r. r.1) e)
    where
      same : ◌≡◌ {A = Result Minted} (ok a) (ok m) → a ≡ m
      same h = cc h

  not-false : (b : Bool) → not b ≡ false → b ≡ true
  not-false true h = refl
  not-false false h = cc

  both : (a b : Bool) → (a && b) ≡ true → (a ≡ true) × (b ≡ true)
  both true b h = (refl, h)
  both false b h = cc

  matches_lem :
      (req : Request) (p : Product)
      → matches env req p ≡ true
      → (same_address p.minted_to req.recipient ≡ true)
        × (p.metadata_uri ≡ req.metadata_uri)
        × (p.fabric_product_id ≡ or_text env req.fabric_product_id req.product_id)
        × (p.product_type ≡ req.product_type)
        × (p.manufacturer ≡ req.manufacturer)
  matches_lem req p h =
      let (h1, made) = both _ _ h in
      let (h2, kind) = both _ _ h1 in
      let (h3, id) = both _ _ h2 in
      let (to, uri) = both _ _ h3 in
      (to, (eq_iff _ _).0 uri, (eq_iff _ _).0 id, (eq_iff _ _).0 kind, (eq_iff _ _).0 made)

  -- The branch that an answer came from.
  taken_if :
      (b : Bool) (x y : Result Minted × World env) (m : Minted) (w : World env)
      → ((e : y ≡ (ok m, w)) → ⊥)
      → if◌then◌else◌ {A = Result Minted × World env} b x y ≡ (ok m, w)
      → (b ≡ true) × (x ≡ (ok m, w))
  taken_if true x y m w never e = (refl, e)
  taken_if false x y m w never e = absurd (never e)

  refused_if :
      (b : Bool) (x y : Result Minted × World env) (m : Minted) (w : World env)
      → ((e : x ≡ (ok m, w)) → ⊥)
      → if◌then◌else◌ {A = Result Minted × World env} b x y ≡ (ok m, w)
      → (b ≡ false) × (y ≡ (ok m, w))
  refused_if true x y m w never e = absurd (never e)
  refused_if false x y m w never e = (refl, e)

  acknowledged-ok :
      (m n : Minted) (v w : World env) (r : Bool × env.Fabric)
      → acknowledged env m v r ≡ (ok n, w)
      → (m ≡ n) × (r ≡ (true, w.fabric)) × (w.nft ≡ v.nft)
  acknowledged-ok m n v w (true, f) e =
      let (same, there) = ok_eq e in
      (same, ap (λ u. (true, u.fabric)) there, sym (ap (λ u. u.nft) there))
  acknowledged-ok m n v w (false, f) e = absurd (err_ne e)

  settle-Backed :
      (req : Request) (v w : World env) (m : Minted)
      → or_text env req.fabric_product_id req.product_id ≡ req.product_id
      → settle env req v ≡ (ok m, w)
      → Backed req m v.fabric w
  unfolding settle
  settle-Backed req v w m one = by_product _ refl
    where
      token_id : ℕ
      token_id = fabric_to_token_id (or_text env req.fabric_product_id req.product_id) v.nft

      by_receipt :
          (p : Product)
          → product_data token_id v.nft ≡ some p
          → matches env req p ≡ true
          → (o : Option Receipt) → env.receipt p.mint_hash ≡ o
          → settle_receipt env req token_id o v ≡ (ok m, w)
          → Backed req m v.fabric w
      by_receipt p found fits none q e = absurd (err_ne e)
      by_receipt p found fits (some r) q e =
          let (good, e1) = refused_if (not (nat_eq r.status 1)) _ _ m w err_ne e in
          let (waited, e2) = taken_if (env.wait r.hash) _ _ m w err_ne e1 in
          let (same, took, kept) = acknowledged-ok _ m v w _ e2 in
          let parts = matches_lem req p fits in
          let id : token_id ≡ m.token_id = ap (λ x. x.token_id) same in
          record {
            product = p;
            found = rw (kept, ← id) found;
            token_of = rw (kept, ← one) id;
            minted_to = parts.0;
            stands_for = parts.2 ∙ one;
            kind = parts.3;
            made_by = parts.4;
            metadata = parts.1;
            receipt_of = r;
            mined_by = q;
            successful = ground (arith, good);
            hash_of = sym (ap (λ x. x.transaction_hash) same);
            confirmed = waited;
            taken = rw (← id) took;
          }

      by_product :
          (o : Option Product)
          → product_data token_id v.nft ≡ o
          → settle_product env req token_id o v ≡ (ok m, w)
          → Backed req m v.fabric w
      by_product none q e = absurd (err_ne e)
      by_product (some p) q e =
          let (fits, e1) = taken_if (matches env req p) _ _ m w err_ne e in
          by_receipt p q fits (env.receipt p.mint_hash) refl e1

  send_mint-Backed :
      (req : Request) (sending : Sending) (v w : World env) (m : Minted)
      → or_text env req.fabric_product_id req.product_id ≡ req.product_id
      → send_mint env req sending v ≡ (ok m, w)
      → Backed req m v.fabric w
  send_mint-Backed req refused v w m one = λ e. absurd (err_ne e)
  send_mint-Backed req (mined hash confirmed) v w m one =
      by_result
        (mint_product env.minter (env.accepts (product_of env req hash)) (product_of env req hash)
          v.nft)
        confirmed
    where
      by_result :
          (r : Result Nft) (confirmed : Bool)
          → after_mint env req confirmed r v ≡ (ok m, w)
          → Backed req m v.fabric w
      by_result (err x) confirmed e = absurd (err_ne e)
      by_result (ok nft') true e = settle-Backed req (record v { nft = nft' }) w m one e
      by_result (ok nft') false e = absurd (err_ne e)

  -- When the bridge answers a minting request with a token, the request names a product and its
  -- recipient is an address; the product's token is this one, with the product's id and the type,
  -- manufacturer and metadata of the request, minted to its recipient by a successful and confirmed
  -- transaction; and the contract on Fabric took the token's id.
  pub process_nft_minting-Backed :
      (req : Request) (sending : Sending) (v w : World env) (m : Minted)
      → process_nft_minting env req sending v ≡ (ok m, w)
      → (req.product_id ≢ "") × (env.is_address req.recipient ≡ true) × Backed req m v.fabric w
  unfolding process_nft_minting
  process_nft_minting-Backed req sending v w m e =
      let id = or_text env req.fabric_product_id req.product_id in
      let (valid, e1) = refused_if (not (is_valid env req)) _ _ m w err_ne e in
      let (v1, address) = both _ _ (not-false (is_valid env req) valid) in
      let (named, names_one) = both (not (id == "")) (id == req.product_id) v1 in
      let one : id ≡ req.product_id = (eq_iff id req.product_id).0 names_one in
      (
        λ none_. cc (rw (one, none_) at named),
        address,
        elim (Bool-cases (nat_eq (fabric_to_token_id id v.nft) 0)) [
          | inl new ↦ send_mint-Backed req sending v w m one (rw new at e1)
          | inr old ↦ settle-Backed req v w m one (rw old at e1)
        ],
      )
