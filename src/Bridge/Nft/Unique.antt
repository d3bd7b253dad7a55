-- ===== src/Bridge/Nft/Unique.antt =====
-- One token for a product, however often the bridge is asked for it.
use sustainable_fashion_chai.Prelude.{
  ℕ, ◌≤◌, String, ◌≡◌, refl, Bool, true, false, not, Option, none, some, List, [], ◌∷◌, ◌==◌,
  decimal, count, arith, eq_iff, nat_eq, Bool-cases, inl, inr, if◌then◌else◌,
}
use sustainable_fashion_chai.Fabric.{Result, ok, err}
use sustainable_fashion_chai.Bridge.Services.{Receipt}
use sustainable_fashion_chai.Bridge.Nft.{
  Product, Nft, fabric_to_token_id, mint_product, Request, Sending, refused, mined, Env, Minted,
  World, acknowledged, settle_receipt, settle_product, settle, after_mint, send_mint, or_text,
  product_of, matches, is_valid, process_nft_minting,
}

abbrev pub stands_for : String → Product → Bool
stands_for id p = p.fabric_product_id == id

pub record Unique (nft : Nft) : Type 0 where
  pub at_most_one : (id : String) → count (stands_for id) nft ≤ 1

no_token : (id : String) (nft : Nft) → fabric_to_token_id id nft ≡ 0 → count (stands_for id) nft ≡ 0
unfolding fabric_to_token_id
no_token id [] e = refl
no_token id (p ∷ ps) e = ground (arith, e, no_token id ps)

-- mintProduct adds the product where it is allowed, and only where no token stands for it.
pub mint_product-Unique :
    (minter accepts : Bool) (p : Product) (nft nft' : Nft)
    → mint_product minter accepts p nft ≡ ok nft'
    → Unique nft
    → Unique nft'
unfolding mint_product
mint_product-Unique minter accepts p nft nft' e h =
    elim (Bool-cases (nat_eq (fabric_to_token_id p.fabric_product_id nft) 0)) [
      | inl free ↦
          let new : nft' ≡ p ∷ nft = ground (arith, e, free) in
          rw new (record { at_most_one = λ id. ground (arith, h.at_most_one id, none_yet free id) })
      | inr taken ↦ ground (arith, e, taken)
    ]
  where
    none_yet :
        nat_eq (fabric_to_token_id p.fabric_product_id nft) 0 ≡ true
        → (id : String) → (p.fabric_product_id == id) ≡ true
        → count (stands_for id) nft ≡ 0
    none_yet free id here =
        rw (← (eq_iff p.fabric_product_id id).0 here)
          (no_token p.fabric_product_id nft (ground (arith, free)))

module _ (env : Env) where
  Leaves-if :
      (b : Bool) (x y : Result Minted × World env) (nft : Nft)
      → x.1.nft ≡ nft
      → y.1.nft ≡ nft
      → (if◌then◌else◌ {A = Result Minted × World env} b x y).1.nft ≡ nft
  Leaves-if true x y nft h k = h
  Leaves-if false x y nft h k = k

  acknowledged-nft :
      (m : Minted) (w : World env) (r : Bool × env.Fabric) → (acknowledged env m w r).1.nft ≡ w.nft
  acknowledged-nft m w (true, f) = refl
  acknowledged-nft m w (false, f) = refl

  settle_receipt-nft :
      (req : Request) (token_id : ℕ) (o : Option Receipt) (w : World env)
      → (settle_receipt env req token_id o w).1.nft ≡ w.nft
  settle_receipt-nft req token_id none w = refl
  settle_receipt-nft req token_id (some r) w = Leaves-if (not (nat_eq r.status 1)) _ _ w.nft refl (
      Leaves-if (env.wait r.hash) _ _ w.nft
        (acknowledged-nft (record { token_id = token_id; transaction_hash = r.hash }) w
          (env.mint_nft req.product_id (decimal token_id) w.fabric))
        refl)

  settle_product-nft :
      (req : Request) (token_id : ℕ) (o : Option Product) (w : World env)
      → (settle_product env req token_id o w).1.nft ≡ w.nft
  settle_product-nft req token_id none w = refl
  settle_product-nft req token_id (some p) w =
      Leaves-if (matches env req p) _ _ w.nft
        (settle_receipt-nft req token_id (env.receipt p.mint_hash) w) refl

  settle-nft : (req : Request) (w : World env) → (settle env req w).1.nft ≡ w.nft
  unfolding settle
  settle-nft req w = settle_product-nft req _ _ w

  send_mint-Unique :
      (req : Request) (sending : Sending) (w : World env)
      → Unique w.nft
      → Unique (send_mint env req sending w).1.nft
  send_mint-Unique req refused w h = h
  send_mint-Unique req (mined hash confirmed) w h = by_result _ refl confirmed
    where
      by_result :
          (r : Result Nft)
          → mint_product env.minter
              (env.accepts (product_of env req hash))
              (product_of env req hash)
              w.nft
            ≡ r
          → (confirmed : Bool) → Unique (after_mint env req confirmed r w).1.nft
      by_result (err e) q confirmed = h
      by_result (ok nft') q true =
          rw (settle-nft req (record w { nft = nft' })) (mint_product-Unique _ _ _ _ _ q h)
      by_result (ok nft') q false = mint_product-Unique _ _ _ _ _ q h

  process_nft_minting-Unique :
      (req : Request) (sending : Sending) (w : World env)
      → Unique w.nft
      → Unique (process_nft_minting env req sending w).1.nft
  unfolding process_nft_minting
  process_nft_minting-Unique req sending w h =
      let id = or_text env req.fabric_product_id req.product_id in
      elim (Bool-cases (not (is_valid env req))) [
        | inl invalid ↦ rw invalid h
        | inr valid ↦ rw valid (elim (Bool-cases (nat_eq (fabric_to_token_id id w.nft) 0)) [
          | inl new ↦ rw new (send_mint-Unique req sending w h)
          | inr old ↦ rw old (rw (settle-nft req w) h)
        ])
      ]

  -- Requests, one after another, with what becomes of a mint that each of them may send.
  unfoldable pub process_all : List (Request × Sending) → World env → World env
  unfolding process_nft_minting
  process_all [] w = w
  process_all ((req, sending) ∷ more) w = process_all more (process_nft_minting env req sending w).1

  -- However many minting requests the bridge processes, with whichever of its mints refused, mined
  -- or mined without a confirmation: where every product had at most one token at first, every
  -- product has at most one token at the end.
  pub process_all-Unique :
      (requests : List (Request × Sending)) (w : World env)
      → Unique w.nft
      → Unique (process_all requests w).nft
  unfolding process_all
  process_all-Unique [] w h = h
  process_all-Unique ((req, sending) ∷ more) w h =
      process_all-Unique more (process_nft_minting env req sending w).1
        (process_nft_minting-Unique req sending w h)
