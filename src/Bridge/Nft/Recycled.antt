-- ===== src/Bridge/Nft/Recycled.antt =====
-- What it takes for the bridge to report a product as recycled.
use sustainable_fashion_chai.Prelude.{
  List, [], ◌∷◌, ℕ, String, ◌≡◌, refl, ap, sym, Bool, true, false, not, Option, none, some, arith,
  nat_eq, decimal, if◌then◌else◌,
}
use sustainable_fashion_chai.Fabric.{Error, message, Result, ok, err}
use sustainable_fashion_chai.Bridge.Services.{Receipt}
use sustainable_fashion_chai.Bridge.Nft.{
  Product, product_data, Env, World, recorded, recycle_receipt, recycle_logged, recycle_product,
  handle_product_recycled,
}

module _ (env : Env) where
  -- The token's product is recycled on Ethereum, by a successful and confirmed transaction, and the
  -- contract on Fabric took the report of it; the tokens are as before.
  pub record Reported (token_id : ℕ) (v w : World env) : Type 0 where
    pub product : Product
    pub found : product_data token_id v.nft ≡ some product
    pub recycled_by : String
    pub recycled : product.recycled ≡ true
    pub logged_once : product.recycle_logs ≡ recycled_by ∷ []
    pub receipt_of : Receipt
    pub mined_by : env.receipt recycled_by ≡ some receipt_of
    pub successful : receipt_of.status ≡ 1
    pub confirmed : env.wait receipt_of.hash ≡ true
    pub taken :
        env.record_recycling product.fabric_product_id (decimal token_id) receipt_of.hash v.fabric
        ≡ (true, w.fabric)
    pub kept : w.nft ≡ v.nft

  err_ne :
      {x : Error} {v w : World env} {u : Unit {0}}
      → ◌≡◌ {A = Result (Unit {0}) × World env} (err x, v) (ok u, w)
      → ⊥
  err_ne e = ne (ap (λ r. r.0) e)
    where
      ne : {x : Error} {u : Unit {0}} → ◌≡◌ {A = Result (Unit {0})} (err x) (ok u) → ⊥
      ne h = cc

  module _ (token_id : ℕ) (v w : World env) (u : Unit {0}) where
    by_recorded :
        (r : Bool × env.Fabric)
        → recorded env v r ≡ (ok u, w)
        → (r ≡ (true, w.fabric)) × (w.nft ≡ v.nft)
    by_recorded (true, f) e = (ap (λ x. (true, x.1.fabric)) e, sym (ap (λ x. x.1.nft) e))
    by_recorded (false, f) e = absurd (err_ne e)

    by_checks :
        (r : Receipt) (good waited : Bool) (q : Bool × env.Fabric)
        → (if◌then◌else◌ {A = Result (Unit {0}) × World env} good
            (err (message "RECYCLING_NOT_CONFIRMED"), v)
            (if waited then recorded env v q else (err (message "CONFIRMATIONS_NOT_REACHED"), v)))
          ≡ (ok u, w)
        → (good ≡ false) × (waited ≡ true) × (q ≡ (true, w.fabric)) × (w.nft ≡ v.nft)
    by_checks r true waited q e = absurd (err_ne e)
    by_checks r false true q e = let (took, same) = by_recorded q e in (refl, refl, took, same)
    by_checks r false false q e = absurd (err_ne e)

    by_receipt :
        (p : Product) (hash : String) (o : Option Receipt)
        → product_data token_id v.nft ≡ some p
        → p.recycled ≡ true
        → p.recycle_logs ≡ hash ∷ []
        → env.receipt hash ≡ o
        → recycle_receipt env token_id p o v ≡ (ok u, w)
        → Reported token_id v w
    by_receipt p hash none found done logged q e = absurd (err_ne e)
    by_receipt p hash (some r) found done logged q e =
        let (good, waited, took, same) =
          by_checks r (not (nat_eq r.status 1)) (env.wait r.hash) _ e in
        record {
          product = p;
          found = found;
          recycled_by = hash;
          recycled = done;
          logged_once = logged;
          receipt_of = r;
          mined_by = q;
          successful = ground (arith, good);
          confirmed = waited;
          taken = took;
          kept = same;
        }

    by_log :
        (p : Product) (logs : List String)
        → product_data token_id v.nft ≡ some p
        → p.recycled ≡ true
        → p.recycle_logs ≡ logs
        → recycle_logged env token_id p logs v ≡ (ok u, w)
        → Reported token_id v w
    by_log p [] found done q e = absurd (err_ne e)
    by_log p (hash ∷ []) found done q e = by_receipt p hash (env.receipt hash) found done q refl e
    by_log p (hash ∷ other ∷ more) found done q e = absurd (err_ne e)

    by_flag :
        (p : Product) (b : Bool)
        → product_data token_id v.nft ≡ some p
        → p.recycled ≡ b
        → (if◌then◌else◌ {A = Result (Unit {0}) × World env}
            (not b)
            (err (message "PRODUCT_NOT_RECYCLED"), v)
            (recycle_logged env token_id p p.recycle_logs v))
          ≡ (ok u, w)
        → Reported token_id v w
    by_flag p true found q e = by_log p p.recycle_logs found q refl e
    by_flag p false found q e = absurd (err_ne e)

    by_product :
        (o : Option Product)
        → product_data token_id v.nft ≡ o
        → recycle_product env token_id o v ≡ (ok u, w)
        → Reported token_id v w
    by_product none q e = absurd (err_ne e)
    by_product (some p) q e = by_flag p p.recycled q refl e

    -- When the handler of a recycling returns, the product of that token is recycled on Ethereum,
    -- with one log of it, from a successful and confirmed transaction, the contract on Fabric
    -- took the report with this product, token and hash, and the tokens are as before.
    pub handle_product_recycled-Reported :
        handle_product_recycled env token_id v ≡ (ok u, w) → Reported token_id v w
    unfolding handle_product_recycled
    handle_product_recycled-Reported e = by_product (product_data token_id v.nft) refl e
