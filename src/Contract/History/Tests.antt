-- ===== src/Contract/History/Tests.antt =====
-- A run of the contract from the empty world state, over a world state that is a function.
use sustainable_fashion_chai.Prelude.{
  String, ◌≡◌, ◌≢◌, refl, Bool, true, false, Option, none, some, List, [], arith, ◌==◌, eq_iff,
  join, decimal, is_hex_word, is_zero_word, if◌then◌else◌,
}
use sustainable_fashion_chai.Number.{Number, whole, not_positive, less, at_most, same}
use sustainable_fashion_chai.Json.{
  Value, Fields, end, num, undefined, null, get, set, truthy, is_text, is_true,
}
use sustainable_fashion_chai.Fabric.{Stored, document, Effect, Env, Result, ok, err, ◌>>=◌, ◌>>◌}
use sustainable_fashion_chai.Fabric.Ledger.{Ledger, written}
use sustainable_fashion_chai.Contract
use sustainable_fashion_chai.Contract.Products
use sustainable_fashion_chai.Contract.Cotton
use sustainable_fashion_chai.Contract.Tokenization
use sustainable_fashion_chai.Contract.History.{
  Call, register_cotton_batch, store_cotton_batch, verify_cotton_batch, request_tokenization,
  approve_tokenization_request, complete_tokenization, invoke, HasKey, Step, Reach, here, next,
}
use sustainable_fashion_chai.Contract.Records.{IsBatch, Sorted, Advance, Authority, is_within}
use sustainable_fashion_chai.Contract.Changes.Commit.{after}
use sustainable_fashion_chai.Contract.Tokenization.Retry.{complete_tokenization_idempotent}
use sustainable_fashion_chai.Contract.History.Results.{
  reached-Sorted, reach-Advance, tokenized_within, step-Authority, IsRequest, Backed,
  request-Backed, one_request_per_batch,
}

abbrev map_ledger : Ledger
map_ledger = record {
  State = String → Option Stored;
  empty = λ k. none;
  get_state = λ s k. s k;
  commit = λ s w k. written k w (s k);
  get_state-empty = λ k. refl;
  get_state-commit = λ s w k. refl;
}

abbrev number_of : String → Option Number
number_of t = if t == "100" then some (whole 100) else if t == "10" then some (whole 10) else none

abbrev env_at : (String → Option Stored) → Env
env_at s = record {
  read = s;
  range = [];
  seconds = 1700000000;
  nanos = 0;
  tx_id = "tx";
  client_id = "x509::client";
  has_attribute = λ name value. true;
  number_of = number_of;
  show_number = λ n. "10";
  quotient = λ a b. a;
  parse = λ t. none;
}

abbrev hash : String
hash = "0xbbbbbbbbbbbbbbbbbbbbbbbbbbbbbbbbbbbbbbbbbbbbbbbbbbbbbbbbbbbbbbbb"

contract : Unit {0}
unfolding invoke ◌>>=◌ ◌>>◌ Products.register_product Products.update_status
    Cotton.register_cotton_batch Cotton.store_cotton_batch Cotton.verify_cotton_batch
    Cotton.new_batch Cotton.certify Cotton.log_entry Tokenization.request_tokenization
    Tokenization.new_request Tokenization.approve_tokenization_request Tokenization.approve
    Tokenization.complete_tokenization Tokenization.acknowledge Tokenization.complete
    Tokenization.tokenize Contract.push_onto Contract.show Contract.exceeds get set truthy is_text
    is_true less at_most same join decimal is_hex_word is_zero_word
contract = tt

abbrev reply_of : Result (Value × List Effect) → Value
reply_of (ok (v, w)) = v
reply_of (err e) = null

abbrev writes_of : Result (Value × List Effect) → List Effect
writes_of (ok (v, w)) = w
writes_of (err e) = []

abbrev is_ok : Result (Value × List Effect) → Bool
is_ok (ok x) = true
is_ok (err e) = false

eq_ok : (r : Result (Value × List Effect)) → is_ok r ≡ true → r ≡ ok (reply_of r, writes_of r)
eq_ok (ok (v, w)) h = refl
eq_ok (err e) h = cc

infixl 20 ◌▸◌
abbrev ◌▸◌ : (String → Option Stored) → Call → String → Option Stored
◌▸◌ s call k = written k (writes_of (invoke (env_at s) call [])) (s k)

step :
    (s : String → Option Stored) (call : Call)
    → HasKey call
    → is_ok (invoke (env_at s) call []) ≡ true
    → Step map_ledger s (s ▸ call)
step s call keyed h = record {
  env = env_at s;
  call = call;
  reply = reply_of (invoke (env_at s) call []);
  writes = writes_of (invoke (env_at s) call []);
  keyed = keyed;
  reads = refl;
  returned = eq_ok (invoke (env_at s) call []) h;
  committed = refl;
}

abbrev register : Call
register = register_cotton_batch "b" "farm" "100" "true" "true" "2026-10-05" "farm"

abbrev produced : String → Option Stored
produced = (λ k. none) ▸ register

abbrev stored : String → Option Stored
stored = produced ▸ store_cotton_batch "b" "WH"

abbrev verified : String → Option Stored
verified = stored ▸ verify_cotton_batch "b" hash

abbrev requested : String → Option Stored
requested = verified ▸ request_tokenization "r" "b" "10" "WH"

abbrev approved : String → Option Stored
approved = requested ▸ approve_tokenization_request "r"

abbrev completed : String → Option Stored
completed = approved ▸ complete_tokenization "r" hash

reach_requested : Reach map_ledger (λ k. none) requested
unfolding contract
reach_requested =
    next
      (next
        (next (next here (step _ register tt refl))
          (step produced (store_cotton_batch "b" "WH") tt refl))
        (step stored (verify_cotton_batch "b" hash) tt refl))
      (step verified (request_tokenization "r" "b" "10" "WH") (ground (arith, eq_iff "r" "")) refl)

abbrev document_of : Option Stored → Fields
document_of (some (document d)) = d
document_of _ = end

abbrev at_key : (String → Option Stored) → String → Fields
at_key s k = document_of (s k)

reach_completed : Reach map_ledger (λ k. none) completed
unfolding contract
reach_completed =
    next (next reach_requested (step requested (approve_tokenization_request "r") tt refl))
      (step approved (complete_tokenization "r" hash) tt refl)

key_b : ◌≢◌ {A = String} "b" ""
key_b = ground (arith, eq_iff "b" "")

IsBatch-verified : IsBatch "b" (whole 100) (at_key verified "b")
unfolding contract
IsBatch-verified = record {
  keyed = key_b;
  batch_id = refl;
  quantity = refl;
  quantity_kg = refl;
  positive = refl;
  status = refl;
  rwa = refl;
  no_nft = refl;
  tokenized = refl;
}

found_verified : verified "b" ≡ some (document (at_key verified "b"))
unfolding contract
found_verified = refl

reach_verified : Reach map_ledger (λ k. none) verified
unfolding contract
reach_verified =
    next
      (next (next here (step _ register tt refl))
        (step produced (store_cotton_batch "b" "WH") tt refl))
      (step stored (verify_cotton_batch "b" hash) tt refl)

IsRequest-requested : IsRequest map_ledger requested reach_requested "r" (at_key requested "r") "b"
unfolding contract
IsRequest-requested = (refl, refl, refl)

reached-Sorted_example : Sorted completed
reached-Sorted_example = reached-Sorted map_ledger completed reach_completed

from_verified : Reach map_ledger verified completed
unfolding contract
from_verified =
    next
      (next
        (next here (
          step verified (request_tokenization "r" "b" "10" "WH") (ground (arith, eq_iff "r" ""))
            refl))
        (step requested (approve_tokenization_request "r") tt refl))
      (step approved (complete_tokenization "r" hash) tt refl)

reach-Advance_example :
    (c : Fields) × (completed "b" ≡ some (document c))
    × Advance "b" (whole 100) (at_key verified "b") c
reach-Advance_example =
    reach-Advance map_ledger (reached-Sorted map_ledger verified reach_verified) from_verified "b"
      (whole 100) (at_key verified "b") found_verified IsBatch-verified

rwa_verified : get "rwaStatus" (at_key verified "b") ≢ undefined
unfolding contract
rwa_verified e = cc e

tokenized_within_example :
    (q : Number) × (get "quantityKg" (at_key verified "b") ≡ num q)
    × (not_positive q ≡ false)
    × (is_within q (get "tokenizedKg" (at_key verified "b")) ≡ true)
tokenized_within_example =
    tokenized_within map_ledger verified reach_verified "b" (at_key verified "b") found_verified
      rwa_verified

step_requested : Step map_ledger verified requested
unfolding contract
step_requested =
    step verified (request_tokenization "r" "b" "10" "WH") (ground (arith, eq_iff "r" "")) refl

step-Authority_example :
    (c : Fields) × (requested "b" ≡ some (document c))
    × Authority step_requested.env.has_attribute (at_key verified "b") c
step-Authority_example =
    step-Authority map_ledger verified reach_verified step_requested "b" (whole 100)
      (at_key verified "b") found_verified IsBatch-verified

request-Backed_example : Backed map_ledger requested reach_requested "r" (at_key requested "r") "b"
request-Backed_example =
    request-Backed map_ledger requested reach_requested "r" "b" (at_key requested "r")
      IsRequest-requested

one_request_per_batch_example : ◌≡◌ {A = String} "r" "r"
one_request_per_batch_example =
    one_request_per_batch map_ledger requested reach_requested "r" "r" "b" (at_key requested "r")
      (at_key requested "r") IsRequest-requested IsRequest-requested

abbrev completion : Result (Value × List Effect)
completion = invoke (env_at approved) (complete_tokenization "r" hash) []

completion_ok :
    Tokenization.complete_tokenization (env_at approved) "r" hash []
    ≡ ok (reply_of completion, writes_of completion)
unfolding contract
completion_ok = eq_ok completion refl

hash_word : is_hex_word 64 hash ≡ true
unfolding contract
hash_word = refl

reach_approved : Reach map_ledger (λ k. none) approved
unfolding contract
reach_approved = next reach_requested (step requested (approve_tokenization_request "r") tt refl)

completed_again : (env_at completed).read ≡ after approved (writes_of completion)
completed_again = refl

complete_tokenization_idempotent_example :
    Tokenization.complete_tokenization (env_at completed) "r" hash [] ≡ ok (reply_of completion, [])
complete_tokenization_idempotent_example =
    complete_tokenization_idempotent (env_at approved)
      (reached-Sorted map_ledger approved reach_approved) "r" hash hash_word (reply_of completion)
      (writes_of completion) completion_ok (env_at completed) refl completed_again
