-- ===== src/Bridge/Queue/Tests.antt =====
-- A bridge with batches of two that is given three actions, one of which fails at first.
use sustainable_fashion_chai.Prelude.{
  String, ◌+◌, ◌*◌, ◌≤◌, ◌≡◌, refl, Bool, true, false, none, some, [], ◌∷◌, arith, join, pos,
}
use sustainable_fashion_chai.Json.{Fields, field, end, str, get, is_text}
use sustainable_fashion_chai.Fabric.{message, Result, ok, err}
use sustainable_fashion_chai.Bridge.Queue.{
  Config, configure, left_out, given, Queue, new_queue, Ending, returned, thrown, queue_transaction,
  process_batch, settle_action, finish_batch, length, get_stats,
}
use sustainable_fashion_chai.Bridge.Queue.Conserves.{
  Run, start, queued, settled, finished, count, in_flight, nothing_lost,
}
use sustainable_fashion_chai.Bridge.Queue.Account.{stats_account}
use sustainable_fashion_chai.Bridge.Queue.Uninterrupted.{throws, run_batch, settle_all}
use sustainable_fashion_chai.Bridge.Queue.Drain.{run_batches, run_batches-drain}

abbrev config : Config
config = record { batch_size = 2; batch_timeout_ms = 5000; required_confirmations = 12 }

settings :
    (configure (given (some (pos 2))) left_out left_out false ≡ ok config)
    × (configure (given (some (pos 0))) left_out left_out false
        ≡ err (message "INVALID_BRIDGE_CONFIG: batchSize"))
    × (configure left_out (given none) left_out false
        ≡ err (message "INVALID_BRIDGE_CONFIG: batchTimeoutMs"))
    × (configure left_out left_out left_out true
        ≡ err (message "UNVERIFIED_ISSUANCE_PATH_DISABLED"))
unfolding configure join
settings = (refl, refl, refl, refl)

abbrev action : String → Fields
action id = field "type" (str "tokenization") (field "batchId" (str id) end)

queue : Unit {0}
unfolding queue_transaction process_batch settle_action finish_batch get is_text run_batch
    settle_all run_batches
queue = tt

abbrev queue_of : Result Queue → Queue
queue_of (ok q) = q
queue_of (err e) = new_queue

abbrev one : Queue
one = queue_of (queue_transaction config (action "a") new_queue)

abbrev two : Queue
two = queue_of (queue_transaction config (action "b") one)

abbrev three : Queue
three = queue_of (queue_transaction config (action "c") two)

abbrev one_failed : Queue
one_failed = settle_action (thrown true) three

abbrev one_returned : Queue
one_returned = settle_action returned one_failed

abbrev ended : Queue
ended = finish_batch one_returned

run_ended : Run config (action "c" ∷ action "b" ∷ action "a" ∷ []) (action "b" ∷ []) ended
unfolding queue
run_ended = finished (
    settled returned (
      settled (thrown true)
        (queued (action "c") (queued (action "b") (queued (action "a") start refl) refl) refl)))

idle_ended : ended.processing_batch ≡ none
unfolding queue
idle_ended = refl

abbrev is_a : Fields → Bool
is_a a = is_text "a" (get "batchId" a)

nothing_lost_example :
    count is_a (action "c" ∷ action "b" ∷ action "a" ∷ [])
    ≡ count is_a (action "b" ∷ [])
      + (count is_a (in_flight ended) + count is_a ended.pending_actions)
nothing_lost_example = nothing_lost config run_ended is_a

stats_account_example :
    ((get_stats ended).stats.successful_fabric_to_ethereum_tx ≡ length (action "b" ∷ []))
    × (length (action "c" ∷ action "b" ∷ action "a" ∷ [])
        ≡ (get_stats ended).stats.successful_fabric_to_ethereum_tx
          + (length (in_flight ended) + (get_stats ended).pending_transactions))
stats_account_example = stats_account config run_ended

abbrev all_return : Fields → Ending
all_return a = returned

good_ended : throws all_return ended.pending_actions ≡ []
unfolding queue
good_ended = refl

few_ended : length ended.pending_actions ≤ 1 * 2
unfolding queue
few_ended = omega arith

run_batches-drain_example : (run_batches 1 config all_return ended).pending_actions ≡ []
run_batches-drain_example =
    run_batches-drain config all_return 1 ended idle_ended good_ended few_ended
