-- ===== src/Bridge/Relay/Retries.antt =====
-- VerifiedRelay.relay of bridging/verified-relay.js, called again and again for one event.
use sustainable_fashion_chai.Prelude.{
  ℕ, String, ◌≡◌, refl, ◌∙◌, ◌⊎◌, inl, inr, true, ◌||◌, some, List, [], ◌∷◌, ◌==◌, Bool-cases, zero,
  suc, nat_eq, is_hex_word, pos,
}
use sustainable_fashion_chai.Fabric.{Error}
use sustainable_fashion_chai.Bridge.Services.{
  Receipt, Mint, MintResult, refused, mined, unconfirmed, Token, Gateway,
}
use sustainable_fashion_chai.Bridge.Relay.{
  BridgeEvent, Relayed, World, replayed, minted, settle_amount, positive_amount, relay, settle,
  acknowledge, with_prefix,
}

module _ (token : Token) (gateway : Gateway) where
  -- The chain after the relay of a mint: as it was, or as the one mint left it, with its event
  -- processed.
  abbrev pub Minted : Mint → token.State → token.State → Type 0
  Minted m s t =
      (((r : Receipt) × (token.mint_verified_batch s m ≡ mined t r))
        ⊎ (token.mint_verified_batch s m ≡ unconfirmed t))
      × (token.processed_events t (token.event_id_for m.fabric_tx_id m.batch_id m.amount) ≡ true)

  acknowledge-chain :
      (w : World token gateway) (k : String) (r : Relayed)
      → (acknowledge token gateway w k r).1.chain ≡ w.chain
  unfolding acknowledge
  acknowledge-chain w k r = refl

  replayed-chain :
      (w : World token gateway) (k e : String) (o : Error ⊎ Receipt)
      → (replayed token gateway w k e o).1.chain ≡ w.chain
  replayed-chain w k e (inl x) = refl
  replayed-chain w k e (inr r) = acknowledge-chain w k _

  abbrev event_of : Mint → String
  event_of m = token.event_id_for m.fabric_tx_id m.batch_id m.amount

  settle_processed :
      (m : Mint) (k : String) (w : World token gateway)
      → token.processed_events w.chain (event_of m) ≡ true
      → (settle token gateway m k w).1.chain ≡ w.chain
  unfolding settle
  settle_processed m k w h = rw h (replayed-chain w k _ _)

  minted_state :
      (k e : String) (w : World token gateway) (t : token.State) (r : Receipt)
      → (minted token gateway w k e (mined t r)).1.chain ≡ t
  minted_state k e w t r = elim (Bool-cases (nat_eq r.status 1)) [
    | inl one ↦ rw one (acknowledge-chain (record w { chain = t }) k _)
    | inr other ↦ rw other refl
  ]

  minted-chain :
      (m : Mint) (k : String) (w : World token gateway) (o : MintResult token.State)
      → token.mint_verified_batch w.chain m ≡ o
      → ((minted token gateway w k (event_of m) o).1.chain ≡ w.chain)
        ⊎ Minted m w.chain (minted token gateway w k (event_of m) o).1.chain
  minted-chain m k w refused e = inl refl
  minted-chain m k w (unconfirmed t) e = elim (token.unconfirmed_processed w.chain m t e) [
    | inl same ↦ inl same
    | inr done ↦ inr (inr e, done)
  ]
  minted-chain m k w (mined t r) e = elim (token.mined_reverted w.chain m t r e) [
    | inl same ↦ inl (minted_state k _ w t r ∙ same)
    | inr done ↦ inr (rw (minted_state k (event_of m) w t r) (inl (r, e), done))
  ]

  settle-chain :
      (m : Mint) (k : String) (w : World token gateway)
      → ((settle token gateway m k w).1.chain ≡ w.chain)
        ⊎ Minted m w.chain (settle token gateway m k w).1.chain
  unfolding settle
  settle-chain m k w = elim (Bool-cases (token.processed_events w.chain (event_of m))) [
    | inl h ↦ inl (settle_processed m k w h)
    | inr h ↦ rw h (minted-chain m k w _ refl)
  ]

  -- The mint that a well-formed event asks for.
  abbrev pub mint_of : BridgeEvent → ℕ → String → Mint
  mint_of event n recipient = record {
    fabric_tx_id = with_prefix event.fabric_tx_id;
    batch_id = event.batch_id;
    amount = n;
    warehouse_id = event.warehouse_id;
    recipient = recipient;
  }

  settle_amount-chain :
      (event : BridgeEvent) (n : ℕ) (recipient : String) (w : World token gateway)
      → event.amount ≡ some (pos n)
      → ((settle_amount token gateway event recipient w
            (positive_amount token gateway event.amount)).1.chain
          ≡ w.chain)
        ⊎ Minted
            (mint_of event n recipient)
            w.chain
            (settle_amount token gateway event recipient w
              (positive_amount token gateway event.amount)).1.chain
  settle_amount-chain event zero recipient w e = rw e (inl refl)
  settle_amount-chain event (suc n) recipient w e =
      rw e (settle-chain (mint_of event (suc n) recipient) event.request_id w)

  relay-chain :
      (event : BridgeEvent) (n : ℕ) (recipient : String) (w : World token gateway)
      → event.amount ≡ some (pos n)
      → ((relay token gateway event recipient w).1.chain ≡ w.chain)
        ⊎ Minted (mint_of event n recipient) w.chain (relay token gateway event recipient w).1.chain
  unfolding relay
  relay-chain event n recipient w e =
      elim (Bool-cases (is_hex_word 64 (with_prefix event.fabric_tx_id))) [
        | inr bad ↦ rw bad (inl refl)
        | inl hex ↦
            elim (Bool-cases
              (event.request_id == "" || event.batch_id == "" || event.warehouse_id == "")) [
                | inl bad ↦ rw (hex, bad) (inl refl)
                | inr good ↦ rw (hex, good) (settle_amount-chain event n recipient w e)
              ]
      ]

  -- The event relayed once for each recipient of the list, whatever each relay answers.
  unfoldable pub relay_all : BridgeEvent → List String → World token gateway → World token gateway
  relay_all event [] w = w
  relay_all event (recipient ∷ recipients) w =
      relay_all event recipients (relay token gateway event recipient w).1

  abbrev pub id_of : BridgeEvent → ℕ → String
  id_of event n = token.event_id_for (with_prefix event.fabric_tx_id) event.batch_id n

  settle_amount_processed :
      (event : BridgeEvent) (n : ℕ) (recipient : String) (w : World token gateway)
      → event.amount ≡ some (pos n)
      → token.processed_events w.chain (id_of event n) ≡ true
      → (settle_amount token gateway event recipient w
          (positive_amount token gateway event.amount)).1.chain
        ≡ w.chain
  settle_amount_processed event zero recipient w e h = rw e refl
  settle_amount_processed event (suc n) recipient w e h =
      rw e (settle_processed (mint_of event (suc n) recipient) event.request_id w h)

  relay_processed :
      (event : BridgeEvent) (n : ℕ) (recipient : String) (w : World token gateway)
      → event.amount ≡ some (pos n)
      → token.processed_events w.chain (id_of event n) ≡ true
      → (relay token gateway event recipient w).1.chain ≡ w.chain
  unfolding relay
  relay_processed event n recipient w e h =
      elim (Bool-cases (is_hex_word 64 (with_prefix event.fabric_tx_id))) [
        | inr bad ↦ rw bad refl
        | inl hex ↦
            elim (Bool-cases
              (event.request_id == "" || event.batch_id == "" || event.warehouse_id == "")) [
                | inl bad ↦ rw (hex, bad) refl
                | inr good ↦ rw (hex, good) (settle_amount_processed event n recipient w e h)
              ]
      ]

  module _ (event : BridgeEvent) (n : ℕ) (amount : event.amount ≡ some (pos n)) where
    relay_all_processed :
        (recipients : List String) (w : World token gateway)
        → token.processed_events w.chain (id_of event n) ≡ true
        → (relay_all event recipients w).chain ≡ w.chain
    unfolding relay_all
    relay_all_processed [] w h = refl
    relay_all_processed (r ∷ rs) w h =
        let same = relay_processed event n r w amount h in
        relay_all_processed rs (relay token gateway event r w).1 (rw (← same) at h) ∙ same

    -- However often an event for `n` is relayed, and to whichever recipients, the chain is as it
    -- was or as one mint of that event, tried on the chain as it was, left it.
    pub relay_mints_once :
        (recipients : List String) (w : World token gateway)
        → ((relay_all event recipients w).chain ≡ w.chain)
          ⊎ ((recipient : String) × Minted
                (mint_of event n recipient)
                w.chain
                (relay_all event recipients w).chain)
    unfolding relay_all
    relay_mints_once [] w = inl refl
    relay_mints_once (r ∷ rs) w = elim (relay-chain event n r w amount) [
      | inl same ↦ elim (relay_mints_once rs (relay token gateway event r w).1) [
        | inl still ↦ inl (still ∙ same)
        | inr (recipient, m) ↦ inr (recipient, rw same at m)
      ]
      | inr m ↦ inr (r, rw (relay_all_processed rs (relay token gateway event r w).1 m.1) m)
    ]
