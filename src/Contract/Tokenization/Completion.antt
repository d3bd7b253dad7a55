-- ===== src/Contract/Tokenization/Completion.antt =====
-- completeTokenization writes the completed request and the tokenized batch together.
use sustainable_fashion_chai.Prelude.{
  String, ◌≡◌, ◌≢◌, ◌≤◌, refl, sym, ◌∙◌, true, false, some, [], arith, ◌==◌, inr,
}
use sustainable_fashion_chai.Number.{Number}
use sustainable_fashion_chai.Json.{Value, num, str, Fields, get, is_text}
use sustainable_fashion_chai.Json.Laws.{get-set, is_text→eq}
use sustainable_fashion_chai.Fabric.{document, ok, Env}
use sustainable_fashion_chai.Fabric.Returns.{
  Returns, Returns-pure, Returns-lift, Returns-ensure, Returns-put, Returns-if, Returns-load,
}
use sustainable_fashion_chai.Contract.{push_onto}
use sustainable_fashion_chai.Contract.Records.{
  IsBatch, Link, Kind, is_batch, is_request, is_product, Sorted, Advance, rank, is_rwa_status,
}
use sustainable_fashion_chai.Contract.Kinds.{Returns-load_at}
use sustainable_fashion_chai.Contract.Batches.{
  Agree-refl, Agree-set, get-push_onto, asked, Link-next,
}
use sustainable_fashion_chai.Contract.Changes.{Pair, Committed, quiet, pair}
use sustainable_fashion_chai.Contract.Tokenization.{
  repeated, acknowledge, complete_tokenization, complete, tokenize,
}
use sustainable_fashion_chai.Contract.Tokenization.Effects.{only_request, show_key}

verified_of :
    (v : Value)
    → is_rwa_status v ≡ true
    → is_text "PRODUCED" v ≡ false
    → is_text "TOKENIZED" v ≡ false
    → is_text "VERIFIED" v ≡ true
verified_of v h p t = ground arith

rank-le-two : (v : Value) → rank v ≤ 2
rank-le-two v = ground arith

module _ (env : Env) where
  -- The batch that a completion writes.
  tokenize-Advance :
      (k b tx : String) (v : Value) (q : Number) (r c c' : Fields)
      → IsBatch b q c
      → (l : Link k r b q c) → is_text "APPROVED" (get "status" r) ≡ true
      → push_onto "history" v (tokenize tx (num l.amount) c) ≡ ok c'
      → Advance b q c c'
  unfolding tokenize is_text
  tokenize-Advance k b tx v q r c c' h l status pushed =
      let now = λ (j : String) (free : ("history" == j) ≡ false).
        get-push_onto "history" j v (tokenize tx (num l.amount) c) c' free pushed in
      let was = is_text→eq "APPROVED" (get "status" r) status in
      record {
        still = record {
          keyed = h.keyed;
          batch_id = now "batchId" refl ∙ simp get-set h.batch_id;
          quantity = now "quantity" refl ∙ simp get-set h.quantity;
          quantity_kg = now "quantityKg" refl ∙ simp get-set h.quantity_kg;
          positive = h.positive;
          status = rw (now "status" refl) (simp get-set refl);
          rwa = rw (now "rwaStatus" refl) (simp get-set refl);
          no_nft = now "nftTokenId" refl ∙ simp get-set h.no_nft;
          tokenized = rw (now "tokenizedKg" refl) (simp (get-set, l.within) refl);
        };
        producer = now "producer" refl ∙ simp get-set refl;
        created = now "createdAt" refl ∙ simp get-set refl;
        harvested = now "harvestDate" refl ∙ simp get-set refl;
        stage = rw (now "rwaStatus" refl) (simp get-set (rank-le-two (get "rwaStatus" c)));
        certificate = λ _. now "certificationHash" refl ∙ simp get-set refl;
        tokenization = λ e. cc (rw was at l.coupled, e);
      }

  -- Behind an approved request the batch is verified.
  was_verified :
      {k b : String} {q : Number} {r c : Fields}
      → IsBatch b q c
      → Link k r b q c
      → is_text "APPROVED" (get "status" r) ≡ true
      → get "rwaStatus" c ≡ str "VERIFIED"
  unfolding is_text
  was_verified {r = r} {c = c} h l status =
      let was = is_text→eq "APPROVED" (get "status" r) status in
      is_text→eq "VERIFIED" (get "rwaStatus" c)
        (verified_of (get "rwaStatus" c) h.rwa l.certified (sym (rw was at l.coupled)))

  complete-linked :
      (k b tx : String) (v : Value) (q : Number) (r c c' : Fields)
      → k ≢ ""
      → env.read k ≡ some (document r)
      → env.read b ≡ some (document c)
      → IsBatch b q c
      → Link k r b q c
      → is_text "APPROVED" (get "status" r) ≡ true
      → push_onto "history" v (tokenize tx (get "quantity" (complete tx r)) c) ≡ ok c'
      → env.has_attribute "sfc.role" "bridge" ≡ true
      → Pair env.has_attribute env.read k (complete tx r) b c'
  unfolding complete tokenize is_text
  complete-linked k b tx v q r c c' keyed there found h l status pushed bridge =
      let amount : get "quantity" (complete tx r) ≡ num l.amount = simp get-set l.requested in
      let pushed' : push_onto "history" v (tokenize tx (num l.amount) c) ≡ ok c' =
        rw amount at pushed in
      let now = λ (j : String) (free : ("history" == j) ≡ false).
        get-push_onto "history" j v (tokenize tx (num l.amount) c) c' free pushed' in
      record {
        keyed = keyed;
        q = q;
        c = c;
        found = found;
        was = h;
        authority =
            inr (inr (was_verified h l status, now "rwaStatus" refl ∙ simp get-set refl, bridge));
        advance = tokenize-Advance k b tx v q r c c' h l status pushed';
        link =
            Link-next (complete tx r) c'
              (Agree-set asked "ethereumTransactionId" _ r _ refl
                (Agree-set asked "status" _ r r refl (Agree-refl asked r)))
              (simp get-set refl) (now "pendingTokenizationId" refl ∙ simp get-set refl)
              (rw (now "rwaStatus" refl) (simp get-set refl))
              (rw (now "rwaStatus" refl) (simp get-set refl)) l;
        only = λ j s _ m. only_request env m l;
        replaced = λ d same. cc (same, there, l.request_rwa);
      }

  pub complete-Pair :
      (k b tx : String) (v : Value) (r c c' : Fields)
      → env.read k ≡ some (document r)
      → Kind env.read k r
      → is_text "APPROVED" (get "status" r) ≡ true
      → get "batchId" r ≡ str b
      → env.read b ≡ some (document c)
      → push_onto "history" v (tokenize tx (get "quantity" (complete tx r)) c) ≡ ok c'
      → env.has_attribute "sfc.role" "bridge" ≡ true
      → Pair env.has_attribute env.read k (complete tx r) b c'
  unfolding is_text
  complete-Pair k b tx v r c c' there (is_batch q h) status named found pushed bridge =
      cc (rw (is_text→eq "APPROVED" (get "status" r) status) at h.status)
  complete-Pair k b tx v r c c' there (is_product p) status named found pushed bridge =
      cc (p.no_batch, named)
  complete-Pair k b tx v r c c' there (is_request a q d keyed behind h l) status named found pushed
        bridge =
      let e : a ≡ b = cc (l.batch_of, named) in
      let doc : d ≡ c = cc (rw e at behind, found) in
      complete-linked k b tx v q r c c' keyed there found (rw (e, doc) at h) (rw (e, doc) at l)
        status pushed bridge

  acknowledge-Committed :
      Sorted env.read
      → (request_id tx : String) (r : Fields) → env.read request_id ≡ some (document r)
      → env.has_attribute "sfc.role" "bridge" ≡ true
      → Returns (λ _ w. Committed env.has_attribute env.read w) [] (acknowledge env request_id tx r)
  unfolding acknowledge
  acknowledge-Committed s request_id tx r there bridge = Returns-ensure _ _ _ λ approved.
      Returns-put request_id _ _ (
        Returns-load_at env _ _ _ λ c b named found. Returns-lift _ _ λ c' pushed.
          Returns-put _ c' _ (
            Returns-pure _ (
              pair request_id (complete tx r) b c'
                (complete-Pair request_id b tx _ r c c' there (s.kind request_id r there) approved
                  (unfold complete in simp get-set at named) found pushed bridge)
                (λ j. rw (show_key env _ b named) refl))))

  pub complete_tokenization-Committed :
      Sorted env.read
      → (request_id tx : String)
      → Returns
          (λ _ w. Committed env.has_attribute env.read w)
          []
          (complete_tokenization env request_id tx)
  unfolding complete_tokenization repeated
  complete_tokenization-Committed s request_id tx = Returns-ensure _ _ _ λ bridge.
      Returns-ensure _ _ _ λ well_formed. Returns-load env request_id _ _ λ r there.
        Returns-if _ (repeated env r) (acknowledge env request_id tx r)
          (λ same. Returns-load_at env _ _ _ λ c b named found. Returns-pure _ (quiet (λ j. refl)))
          (λ other. acknowledge-Committed s request_id tx r there bridge)
