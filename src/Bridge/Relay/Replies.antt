-- ===== src/Bridge/Relay/Replies.antt =====
-- VerifiedRelay.relay of bridging/verified-relay.js: what stands behind its answer.
use sustainable_fashion_chai.Prelude.{
  ℕ, String, ◌≡◌, ◌≤◌, refl, sym, ◌∙◌, ap, ◌⊎◌, inl, inr, Bool, true, false, ◌||◌, Option, none,
  some, List, [], ◌∷◌, arith, ◌==◌, Bool-cases, zero, suc, nat_eq, is_hex_word, ℤ, pos, negsuc,
  if◌then◌else◌, map, codes,
}
use sustainable_fashion_chai.Fabric.{Error, message}
use sustainable_fashion_chai.Bridge.Services.{
  Receipt, MintLog, Mint, MintResult, refused, mined, unconfirmed, Token, Gateway,
}
use sustainable_fashion_chai.Bridge.Relay.{
  BridgeEvent, Relayed, Answer, relayed, failed, World, replayed, minted, settle_amount,
  positive_amount, relay, settle, acknowledge, recover, mined_receipt, with_prefix, same_address,
  same_codes, lower,
}

same_codes_refl : (cs : List ℕ) → same_codes cs cs ≡ true
same_codes_refl [] = refl
same_codes_refl (c ∷ cs) = ground (arith, same_codes_refl cs)

same_address_refl : (a : String) → same_address a a ≡ true
unfolding same_address
same_address_refl a = same_codes_refl (map lower (codes a))

nat_eq→eq : (a b : ℕ) → nat_eq a b ≡ true → a ≡ b
nat_eq→eq a b h = ground arith

module _ (token : Token) (gateway : Gateway) where
  -- The receipt behind an answer: of the one log of the event, mined with success and for the
  -- recipient; the gateway has returned on its hash.
  pub record Behind (request_id id recipient : String) (w w' : World token gateway) (r : Relayed)
      : Type 0 where
    pub log : MintLog
    pub receipt : Receipt
    pub event_id : r.event_id ≡ id
    pub processed : token.processed_events w'.chain id ≡ true
    pub logs : token.minted_logs w'.chain id ≡ log ∷ []
    pub addressed : same_address log.recipient recipient ≡ true
    pub received : log.receipt ≡ some receipt
    pub succeeded : receipt.status ≡ 1
    pub hash : r.transaction_hash ≡ receipt.hash
    pub acknowledged :
        gateway.complete_tokenization w.fabric request_id receipt.hash ≡ (true, w'.fabric)

  returned_true :
      (w w' : World token gateway) (r r' : Relayed) (b : Bool) (f : gateway.State)
      → ◌≡◌ {A = Answer × World token gateway}
          (
            (if b then relayed r else failed (message "ACKNOWLEDGMENT_FAILED")),
            record w { fabric = f },
          )
          (relayed r', w')
      → (r' ≡ r) × (w'.chain ≡ w.chain) × (◌≡◌ {A = Bool × gateway.State} (b, f) (true, w'.fabric))
  returned_true w w' r r' true f e =
      let world = ap (λ p. p.1) e in
      (cc (ap (λ p. p.0) e), sym (ap (λ v. v.chain) world), ap (λ v. (true, v.fabric)) world)
  returned_true w w' r r' false f e = absurd (answered (ap (λ p. p.0) e))
    where
      answered : {x : Error} → failed x ≡ relayed r' → ⊥
      answered h = cc

  acknowledge_reply :
      (w w' : World token gateway) (k : String) (r r' : Relayed)
      → acknowledge token gateway w k r ≡ (relayed r', w')
      → (r' ≡ r)
        × (w'.chain ≡ w.chain)
        × (gateway.complete_tokenization w.fabric k r.transaction_hash ≡ (true, w'.fabric))
  unfolding acknowledge
  acknowledge_reply w w' k r r' e = returned_true w w' r r' _ _ e

  mined_receipt_reply :
      (s : token.State) (o : Option Receipt) (c : Receipt)
      → mined_receipt token gateway s o ≡ inr c
      → (o ≡ some c) × (c.status ≡ 1)
  unfolding mined_receipt
  mined_receipt_reply s none c e = cc
  mined_receipt_reply s (some r) c e = elim (Bool-cases (nat_eq r.status 1)) [
    | inr f ↦ cc (rw f at e)
    | inl t ↦ elim (Bool-cases (token.wait_for_transaction s r.hash)) [
      | inr f ↦ cc (rw (t, f) at e)
      | inl u ↦
          let same : r ≡ c = cc (rw (t, u) at e) in
          (ap some same, ap (λ x. x.status) (sym same) ∙ nat_eq→eq r.status 1 t)
    ]
  ]

  recover_reply :
      (s : token.State) (recipient : String) (logs : List MintLog) (c : Receipt)
      → recover token gateway s recipient logs ≡ inr c
      → (log : MintLog) × (logs ≡ log ∷ [])
        × (same_address log.recipient recipient ≡ true)
        × (log.receipt ≡ some c)
        × (c.status ≡ 1)
  unfolding recover
  recover_reply s recipient [] c e = cc
  recover_reply s recipient (a ∷ b ∷ more) c e = cc
  recover_reply s recipient (log ∷ []) c e =
      elim (Bool-cases (same_address log.recipient recipient)) [
        | inr f ↦ cc (rw f at e)
        | inl t ↦
            let (received, succeeded) = mined_receipt_reply s log.receipt c (rw t at e) in
            (log, refl, t, received, succeeded)
      ]

  failed_ne :
      {x : Error} {w w' : World token gateway} {r : Relayed}
      → ◌≡◌ {A = Answer × World token gateway} (failed x, w) (relayed r, w')
      → ⊥
  failed_ne e = answered (ap (λ p. p.0) e)
    where
      answered : {x : Error} {r : Relayed} → failed x ≡ relayed r → ⊥
      answered h = cc

  abbrev event_of : Mint → String
  event_of m = token.event_id_for m.fabric_tx_id m.batch_id m.amount

  module _ (m : Mint) (k : String) (w w' : World token gateway) (r' : Relayed) where
    replayed_reply :
        token.processed_events w.chain (event_of m) ≡ true
        → (o : Error ⊎ Receipt)
        → recover token gateway w.chain m.recipient (token.minted_logs w.chain (event_of m)) ≡ o
        → replayed token gateway w k (event_of m) o ≡ (relayed r', w')
        → Behind k (event_of m) m.recipient w w' r'
    replayed_reply h (inl x) o e = absurd (failed_ne e)
    replayed_reply h (inr c) o e =
        let (same, chain, acked) = acknowledge_reply w w' k _ r' e in
        let (log, logs, addressed, received, succeeded) = recover_reply w.chain m.recipient _ c o in
        record {
          log = log;
          receipt = c;
          event_id = ap (λ x. x.event_id) same;
          processed = rw chain h;
          logs = rw chain logs;
          addressed = addressed;
          received = received;
          succeeded = succeeded;
          hash = ap (λ x. x.transaction_hash) same;
          acknowledged = acked;
        }

    minted_reply :
        (o : MintResult token.State)
        → token.mint_verified_batch w.chain m ≡ o
        → minted token gateway w k (event_of m) o ≡ (relayed r', w')
        → Behind k (event_of m) m.recipient w w' r'
    minted_reply refused o e = absurd (failed_ne e)
    minted_reply (unconfirmed t) o e = absurd (failed_ne e)
    minted_reply (mined t c) o e = elim (Bool-cases (nat_eq c.status 1)) [
      | inr f ↦ absurd (failed_ne (rw f at e))
      | inl one ↦
          let succeeded = nat_eq→eq c.status 1 one in
          let (same, chain, acked) =
            acknowledge_reply (record w { chain = t }) w' k _ r' (rw one at e) in
          let (_, processed, logs) = token.mined_processed w.chain m t c o succeeded in
          record {
            log = record { recipient = m.recipient; receipt = some c };
            receipt = c;
            event_id = ap (λ x. x.event_id) same;
            processed = rw chain processed;
            logs = rw chain logs;
            addressed = same_address_refl m.recipient;
            received = refl;
            succeeded = succeeded;
            hash = ap (λ x. x.transaction_hash) same;
            acknowledged = acked;
          }
    ]

    settle_reply :
        settle token gateway m k w ≡ (relayed r', w') → Behind k (event_of m) m.recipient w w' r'
    unfolding settle
    settle_reply e = elim (Bool-cases (token.processed_events w.chain (event_of m))) [
      | inl h ↦ replayed_reply h _ refl (rw h at e)
      | inr h ↦ minted_reply _ refl (rw h at e)
    ]

  abbrev pub id_of : BridgeEvent → ℕ → String
  id_of event n = token.event_id_for (with_prefix event.fabric_tx_id) event.batch_id n

  -- The amount of an event is the number `n` above 0.
  abbrev pub Amount : BridgeEvent → ℕ → Type 0
  Amount event n = (event.amount ≡ some (pos n)) × (1 ≤ n)

  settle_amount_reply :
      (event : BridgeEvent) (recipient : String) (w w' : World token gateway) (r : Relayed)
      (o : Option ℤ)
      → event.amount ≡ o
      → settle_amount token gateway event recipient w (positive_amount token gateway o)
        ≡ (relayed r, w')
      → (n : ℕ) × Amount event n × Behind event.request_id (id_of event n) recipient w w' r
  settle_amount_reply event recipient w w' r none o e = absurd (failed_ne e)
  settle_amount_reply event recipient w w' r (some (negsuc n)) o e = absurd (failed_ne e)
  settle_amount_reply event recipient w w' r (some (pos zero)) o e = absurd (failed_ne e)
  settle_amount_reply event recipient w w' r (some (pos (suc n))) o e =
      (suc n, (o, omega arith), settle_reply _ event.request_id w w' r e)

  -- When a relay answers, the event has an amount above 0, it is processed on the chain that the
  -- relay leaves, its one log there is for the recipient, the log's transaction was mined with
  -- success, the hash in the answer is that transaction's, and the gateway returned on that hash.
  pub relay_reply :
      (event : BridgeEvent) (recipient : String) (w w' : World token gateway) (r : Relayed)
      → relay token gateway event recipient w ≡ (relayed r, w')
      → (n : ℕ) × Amount event n × Behind event.request_id (id_of event n) recipient w w' r
  unfolding relay
  relay_reply event recipient w w' r e =
      elim (Bool-cases (is_hex_word 64 (with_prefix event.fabric_tx_id))) [
        | inr bad ↦ absurd (failed_ne (rw bad at e))
        | inl hex ↦
            elim (Bool-cases
              (event.request_id == "" || event.batch_id == "" || event.warehouse_id == "")) [
                | inl bad ↦ absurd (failed_ne (rw (hex, bad) at e))
                | inr good ↦
                    settle_amount_reply event recipient w w' r event.amount refl
                      (rw (hex, good) at e)
              ]
      ]
