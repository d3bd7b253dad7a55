-- ===== src/Contract/Tokenization/Retry.antt =====
-- The bridge may acknowledge a completed tokenization again: completeTokenization is idempotent.
use mathlib.Core.Bool.{and-eq-true_iff}
use sustainable_fashion_chai.Prelude.{
  String, ◌≡◌, refl, ◌∙◌, ap, true, false, some, List, [], ◌==◌, eq_iff, eq_refl, inl, inr,
  Bool-cases, is_hex_word,
}
use sustainable_fashion_chai.Json.{Value, str, Fields, get, is_text}
use sustainable_fashion_chai.Json.Laws.{get-set, is_text→eq}
use sustainable_fashion_chai.Fabric.{document, ok, Effect, Env, ◌>>=◌, ◌>>◌}
use sustainable_fashion_chai.Fabric.Returns.{
  Returns, Returns-pure, Returns-lift, Returns-ensure, Returns-put, Returns-if, Returns-load,
  outcome_of,
}
use sustainable_fashion_chai.Contract.Records.{Sorted}
use sustainable_fashion_chai.Contract.Kinds.{Returns-load_at}
use sustainable_fashion_chai.Contract.Changes.Commit.{after, batch-ne-rwa, same_document}
use sustainable_fashion_chai.Contract.Changes.{Pair}
use sustainable_fashion_chai.Contract.Tokenization.Completion.{complete-Pair}
use sustainable_fashion_chai.Contract.Tokenization.Effects.{show_key}
use sustainable_fashion_chai.Contract.Tokenization.{
  outcome, complete, repeated, acknowledge, complete_tokenization,
}

module _ (env : Env) (k tx : String) where
  -- A completed request that names the transaction is answered from the records.
  repeated_answer :
      (r c : Fields) (b : String)
      → env.has_attribute "sfc.role" "bridge" ≡ true
      → is_hex_word 64 tx ≡ true
      → env.read k ≡ some (document r)
      → get "status" r ≡ str "COMPLETED"
      → get "ethereumTransactionId" r ≡ str tx
      → get "batchId" r ≡ str b
      → env.read b ≡ some (document c)
      → complete_tokenization env k tx [] ≡ ok (outcome r c, [])
  unfolding complete_tokenization repeated ◌>>=◌ ◌>>◌ is_text
  repeated_answer r c b bridge hex there status names batch found =
      rw (bridge, hex, there, status, names, eq_refl tx, batch, found)

-- A pair writes under two keys.
Pair-apart :
    (env : Env) {k b : String} {r d c : Fields}
    → Pair env.has_attribute env.read k r b c
    → env.read k ≡ some (document d)
    → (b == k) ≡ false
Pair-apart env {k} {b} {d = d} p there = elim (Bool-cases (b == k)) [
  | inl same ↦
      let e = (eq_iff b k).0 same in
      let doc = same_document there (rw e at p.found) in
      absurd (batch-ne-rwa p.was (rw (← doc) (p.replaced d there)))
  | inr other ↦ other
]

-- What a first call leaves for a later one: the same reply, and nothing to write.
abbrev Again : Env → String → String → Value → List Effect → Type 0
Again env k tx v w =
    (env' : Env)
    → env'.has_attribute "sfc.role" "bridge" ≡ true
    → env'.read ≡ after env.read w
    → complete_tokenization env' k tx [] ≡ ok (v, [])

module _ (env : Env) (sorted : Sorted env.read) (k tx : String)
    (hex : is_hex_word 64 tx ≡ true) where
  repeated-Again :
      (r : Fields)
      → env.read k ≡ some (document r)
      → is_text "COMPLETED" (get "status" r) ≡ true
      → is_text tx (get "ethereumTransactionId" r) ≡ true
      → Returns (Again env k tx) [] (repeated env r)
  unfolding repeated
  repeated-Again r there status names = Returns-load_at env _ _ _ λ c b named found.
      Returns-pure _ λ env' bridge reads.
        repeated_answer env' k tx r c b bridge hex (ap (λ f. f k) reads ∙ there)
          (is_text→eq "COMPLETED" (get "status" r) status)
          (is_text→eq tx (get "ethereumTransactionId" r) names) named (ap (λ f. f b) reads ∙ found)

  acknowledge-Again :
      (r : Fields)
      → env.read k ≡ some (document r)
      → env.has_attribute "sfc.role" "bridge" ≡ true
      → Returns (Again env k tx) [] (acknowledge env k tx r)
  unfolding acknowledge
  acknowledge-Again r there bridge = Returns-ensure _ _ _ λ approved. Returns-put k _ _ (
      Returns-load_at env _ _ _ λ c b named found. Returns-lift _ _ λ c' pushed.
        Returns-put _ c' _ (
          Returns-pure _ λ env' bridge' reads.
            let kept : get "batchId" r ≡ str b = unfold complete in simp get-set at named in
            let p =
              complete-Pair env k b tx _ r c c' there (sorted.kind k r there) approved kept found
                pushed bridge in
            let apart : (b == k) ≡ false = Pair-apart env p there in
            repeated_answer env' k tx (complete tx r) c' b bridge' hex
              (ap (λ f. f k) reads ∙ rw (show_key env _ b named, apart, eq_refl k) refl)
              (unfold complete in simp get-set refl) (unfold complete in simp get-set refl) named
              (ap (λ f. f b) reads ∙ rw (show_key env _ b named, eq_refl b) refl)))

  -- Once completeTokenization has returned for a transaction hash of 64 digits, on a world state of
  -- batches, requests and products, a later call with the same arguments, by the bridge and
  -- on the world state that the first call left, returns the same reply and writes nothing.
  pub complete_tokenization_idempotent :
      (v : Value) (w : List Effect)
      → complete_tokenization env k tx [] ≡ ok (v, w)
      → (env' : Env) → env'.has_attribute "sfc.role" "bridge" ≡ true
      → env'.read ≡ after env.read w
      → complete_tokenization env' k tx [] ≡ ok (v, [])
  unfolding complete_tokenization
  complete_tokenization_idempotent v w e =
      outcome_of {Q = Again env k tx}
        (Returns-ensure _ _ _ λ bridge. Returns-ensure _ _ _ λ _. Returns-load env k _ _ λ r there.
          Returns-if _ (repeated env r) (acknowledge env k tx r)
            (λ same.
              let (status, names) = (and-eq-true_iff _ _).0 same in
              repeated-Again r there status names)
            (λ other. acknowledge-Again r there bridge))
        e
