-- ===== src/Bridge/Relay/Tests.antt =====
-- A token that mints one event, a gateway that loses its first acknowledgment, and the relay on
-- them.
use sustainable_fashion_chai.Prelude.{
  ℕ, String, ◌≡◌, refl, ◌⊎◌, inr, Bool, true, false, Option, none, some, List, [], ◌∷◌, ◌==◌,
  eq_iff, pos, if◌then◌else◌, is_hex_word,
}
use sustainable_fashion_chai.Fabric.{message}
use sustainable_fashion_chai.Bridge.Services.{
  Receipt, MintLog, Mint, MintResult, refused, mined, unconfirmed, Token, Gateway,
}
use sustainable_fashion_chai.Bridge.Relay.Retries.{Minted, relay_all, relay_mints_once, mint_of}
use sustainable_fashion_chai.Bridge.Relay.Replies.{Behind, Amount, id_of, relay_reply}
use sustainable_fashion_chai.Bridge.Relay.{
  BridgeEvent, Relayed, relayed, failed, World, relay, settle, acknowledge, recover, mined_receipt,
  with_prefix, strip_prefix, same_address,
}

-- The mint of the event, once it is mined: the event's id and the recipient.
abbrev Minting : Type 0
Minting = Option (String × String)

abbrev mint_hash : String
mint_hash = "0xcccccccccccccccccccccccccccccccccccccccccccccccccccccccccccccccc"

abbrev is_processed : Minting → String → Bool
is_processed none e = false
is_processed (some (d, r)) e = d == e

abbrev logs_of : Minting → String → List MintLog
logs_of none e = []
logs_of (some (d, r)) e =
    if d == e
    then record { recipient = r; receipt = some (record { hash = mint_hash; status = 1 }) } ∷ []
    else []

abbrev mint : Minting → Mint → MintResult Minting
mint none m = mined (some (m.batch_id, m.recipient)) (record { hash = mint_hash; status = 1 })
mint (some x) m = refused

mined_ne : {t : Minting} {r : Receipt} → refused ≡ mined t r → ⊥
mined_ne e = cc

confirmed_ne : (s : Minting) (m : Mint) (t : Minting) → mint s m ≡ unconfirmed t → ⊥
confirmed_ne none m t e = cc
confirmed_ne (some x) m t e = cc

eq_self : (a : String) → (a == a) ≡ true
eq_self a = (eq_iff a a).1 refl

mint_mined :
    (s : Minting) (m : Mint) (t : Minting) (r : Receipt)
    → mint s m ≡ mined t r
    → (s ≡ none)
      × (t ≡ some (m.batch_id, m.recipient))
      × (r ≡ record { hash = mint_hash; status = 1 })
mint_mined none m t r e = (refl, cc, cc)
mint_mined (some x) m t r e = absurd (mined_ne e)

abbrev one_token : Token
one_token = record {
  State = Minting;
  event_id_for = λ tx b n. b;
  processed_events = is_processed;
  minted_logs = logs_of;
  mint_verified_batch = mint;
  wait_for_transaction = λ s h. true;
  mined_processed = λ s m t r e one.
      let (a, b, c) = mint_mined s m t r e in rw (a, b, c, eq_self m.batch_id) (refl, refl, refl);
  mined_reverted =
      λ s m t r e. let (a, b, c) = mint_mined s m t r e in inr (rw (b, eq_self m.batch_id) refl);
  unconfirmed_processed = λ s m t e. absurd (confirmed_ne s m t e);
}

abbrev flaky_gateway : Gateway
flaky_gateway = record { State = Bool; complete_tokenization = λ s k h. (s, true) }

abbrev event : BridgeEvent
event = record {
  fabric_tx_id = "dddddddddddddddddddddddddddddddddddddddddddddddddddddddddddddddd";
  request_id = "r";
  batch_id = "b";
  warehouse_id = "WH";
  amount = some (pos 10);
}

abbrev before : World one_token flaky_gateway
before = record { chain = none; fabric = false }

-- The first acknowledgment is lost, and the second relay is reconciled.
retried :
    (relay one_token flaky_gateway event "0xAB" before).0 ≡ failed (message "ACKNOWLEDGMENT_FAILED")
    × (relay one_token flaky_gateway event "0xab"
        (relay one_token flaky_gateway event "0xAB" before).1).0
      ≡ relayed (record { transaction_hash = mint_hash; event_id = "b"; reconciled = true })
unfolding relay settle acknowledge recover mined_receipt with_prefix strip_prefix same_address
    is_hex_word
retried = (refl, refl)

abbrev after : Minting
after = (relay_all one_token flaky_gateway event ("0xAB" ∷ "0xab" ∷ []) before).chain

relay_mints_once_example :
    (after ≡ none)
    ⊎ ((recipient : String) × Minted one_token flaky_gateway
          (mint_of one_token flaky_gateway event 10 recipient)
          none
          after)
relay_mints_once_example =
    relay_mints_once one_token flaky_gateway event 10 refl ("0xAB" ∷ "0xab" ∷ []) before

abbrev acknowledged : World one_token flaky_gateway
acknowledged = record { chain = some ("b", "0xAB"); fabric = true }

abbrev reconciled : Relayed
reconciled = record { transaction_hash = mint_hash; event_id = "b"; reconciled = true }

second_answer :
    relay one_token flaky_gateway event "0xab" acknowledged ≡ (relayed reconciled, acknowledged)
unfolding relay settle acknowledge recover mined_receipt with_prefix strip_prefix same_address
    is_hex_word
second_answer = refl

relay_reply_example :
    (n : ℕ) × Amount one_token flaky_gateway event n
    × Behind one_token flaky_gateway "r"
        (id_of one_token flaky_gateway event n)
        "0xab"
        acknowledged
        acknowledged
        reconciled
relay_reply_example =
    relay_reply one_token flaky_gateway event "0xab" acknowledged acknowledged reconciled
      second_answer
