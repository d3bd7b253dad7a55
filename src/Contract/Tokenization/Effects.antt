-- ===== src/Contract/Tokenization/Effects.antt =====
-- requestTokenization and approveTokenizationRequest write a request and its batch together.
use mathlib.Core.Bool.{and-eq-true_iff}
use sustainable_fashion_chai.Prelude.{
  String, ◌≡◌, ◌≢◌, refl, ◌∙◌, Bool, true, false, not, Option, none, some, [], arith, inl,
}
use sustainable_fashion_chai.Number.{Number, not_positive}
use sustainable_fashion_chai.Json.{Value, str, Fields, get, set, is_text, truthy}
use sustainable_fashion_chai.Json.Laws.{get-set, is_text→eq}
use sustainable_fashion_chai.Fabric.{document, Error, ok, Env}
use sustainable_fashion_chai.Fabric.Returns.{
  Returns, Returns-pure, Returns-lift, Returns-ensure, Returns-put, Returns-event, Returns-load,
  none_of_present,
}
use sustainable_fashion_chai.Contract.{push_onto, exceeds, show}
use sustainable_fashion_chai.Contract.Records.{
  IsBatch, Link, Kind, is_batch, is_request, is_product, Sorted,
}
use sustainable_fashion_chai.Contract.Kinds.{text_truthy, IsBatch-of_rwa, Returns-load_at}
use sustainable_fashion_chai.Contract.Batches.{
  Agree-refl, Agree-set, Agree-push_onto, get-push_onto, settled, asked, Advance-settled, Link-next,
}
use sustainable_fashion_chai.Contract.Changes.{Pair, Committed, pair}
use sustainable_fashion_chai.Contract.Tokenization.{
  within, new_request, request_tokenization, approve, approve_tokenization_request,
}

not-true : {b : Bool} → not b ≡ true → b ≡ false
not-true {b} h = ground arith

module _ (env : Env) where
  within-bounds :
      (e : Error) (most : Value) (o : Option Number) (n : Number)
      → within env e most o ≡ ok n
      → (not_positive n ≡ false) × (exceeds env n most ≡ false)
  within-bounds e most none n h = cc
  within-bounds e most (some m) n h = ground arith

  -- A batch with no pending request has no request.
  unrequested :
      {j b : String} {r c : Fields} {q : Number}
      → truthy (get "pendingTokenizationId" c) ≡ false
      → j ≢ ""
      → Link j r b q c
      → ⊥
  unrequested {j} free keyed l = cc (rw l.pending at free, text_truthy j keyed)

  request-Pair :
      (request_id batch_id warehouse_id : String) (v : Value) (q n : Number) (c c' : Fields)
      → request_id ≢ ""
      → env.read request_id ≡ none
      → env.read batch_id ≡ some (document c)
      → IsBatch batch_id q c
      → is_text "VERIFIED" (get "rwaStatus" c) ≡ true
      → truthy (get "pendingTokenizationId" c) ≡ false
      → (not_positive n ≡ false) × (exceeds env n (get "quantity" c) ≡ false)
      → push_onto "history" v (set "pendingTokenizationId" (str request_id) c) ≡ ok c'
      → Pair env.has_attribute env.read request_id
          (new_request env request_id batch_id n warehouse_id)
          batch_id
          c'
  unfolding new_request get is_text exceeds
  request-Pair request_id batch_id warehouse_id v q n c c' keyed absent found h verified free bounds
        pushed =
      let agree =
        Agree-push_onto settled "history" v c _ c' refl pushed
          (Agree-set settled "pendingTokenizationId" _ c c refl (Agree-refl settled c)) in
      let marked : get "pendingTokenizationId" c' ≡ str request_id =
        get-push_onto "history" "pendingTokenizationId" v _ c' refl pushed
        ∙ get-set "pendingTokenizationId" "pendingTokenizationId" (str request_id) c in
      let rwa = agree.at "rwaStatus" refl ∙ is_text→eq "VERIFIED" (get "rwaStatus" c) verified in
      let status : get "status" c' ≡ get "status" c =
        get-push_onto "history" "status" v _ c' refl pushed
        ∙ get-set "pendingTokenizationId" "status" (str request_id) c in
      record {
        keyed = keyed;
        q = q;
        c = c;
        found = found;
        was = h;
        authority = inl (agree.at "rwaStatus" refl);
        advance = Advance-settled batch_id q c c' agree (rw status h.status) h;
        link = record {
          amount = n;
          request_rwa = refl;
          request_nft = refl;
          batch_of = refl;
          requested = refl;
          positive = bounds.0;
          within = rw h.quantity at bounds.1;
          status = refl;
          pending = marked;
          certified = rw rwa;
          coupled = rw rwa;
        };
        only = λ j s keyed' l. absurd (unrequested free keyed' l);
        replaced = λ d there. cc;
      }

  pub request_tokenization-Committed :
      Sorted env.read
      → (request_id batch_id quantity warehouse_id : String) → request_id ≢ ""
      → Returns
          (λ _ w. Committed env.has_attribute env.read w)
          []
          (request_tokenization env request_id batch_id quantity warehouse_id)
  unfolding request_tokenization
  request_tokenization-Committed s request_id batch_id quantity warehouse_id keyed =
      Returns-load env batch_id _ _ λ c found. Returns-ensure _ _ _ λ stored.
        Returns-ensure _ _ _ λ backed. Returns-ensure _ _ _ λ at_warehouse.
          Returns-ensure _ _ _ λ free. Returns-ensure _ _ _ λ absent.
            Returns-ensure _ _ _ λ untokenized. Returns-lift _ _ λ n requested.
              Returns-put request_id _ _ (
                Returns-lift _ _ λ c' pushed. Returns-put batch_id c' _ (
                  let verified = ((and-eq-true_iff _ _).0 backed).0 in
                  let (q, h) = IsBatch-of_rwa "VERIFIED" (s.kind batch_id c found) verified in
                  Returns-pure _ (
                    pair request_id _ batch_id c'
                      (request-Pair request_id batch_id warehouse_id _ q n c c' keyed
                        (none_of_present _ (not-true absent)) found h verified (not-true free)
                        (within-bounds _ _ _ n requested) pushed)
                      (λ j. refl))))

  -- A batch's one request is the one that its pendingTokenizationId names.
  pub only_request :
      {j k b : String} {r s c : Fields} {q p : Number} → Link j r b q c → Link k s b p c → j ≡ k
  only_request l m = cc (l.pending, m.pending)

  -- The request and the batch that an approval writes.
  approve-linked :
      (k b : String) (v : Value) (q : Number) (r c c' : Fields)
      → k ≢ ""
      → env.read k ≡ some (document r)
      → env.read b ≡ some (document c)
      → IsBatch b q c
      → Link k r b q c
      → is_text "PENDING" (get "status" r) ≡ true
      → push_onto "history" v c ≡ ok c'
      → Pair env.has_attribute env.read k (approve env r) b c'
  unfolding approve is_text
  approve-linked k b v q r c c' keyed there found h l status pushed =
      let agree = Agree-push_onto settled "history" v c c c' refl pushed (Agree-refl settled c) in
      let rwa = agree.at "rwaStatus" refl in
      let st = get-push_onto "history" "status" v c c' refl pushed in
      let was = is_text→eq "PENDING" (get "status" r) status in
      record {
        keyed = keyed;
        q = q;
        c = c;
        found = found;
        was = h;
        authority = inl rwa;
        advance = Advance-settled b q c c' agree (rw st h.status) h;
        link =
            Link-next (approve env r) c'
              (Agree-set asked "approvalTimestamp" _ r _ refl (
                Agree-set asked "approver" _ r _ refl
                  (Agree-set asked "status" _ r r refl (Agree-refl asked r))))
              (simp get-set refl)
              (get-push_onto "history" "pendingTokenizationId" v c c' refl pushed)
              (rw rwa l.certified) (simp get-set (rw rwa (rw was at l.coupled))) l;
        only = λ j s _ m. only_request m l;
        replaced = λ d same. cc (same, there, l.request_rwa);
      }

  approve-Pair :
      (request_id b : String) (v : Value) (r c c' : Fields)
      → env.read request_id ≡ some (document r)
      → Kind env.read request_id r
      → is_text "PENDING" (get "status" r) ≡ true
      → get "batchId" r ≡ str b
      → env.read b ≡ some (document c)
      → push_onto "history" v c ≡ ok c'
      → Pair env.has_attribute env.read request_id (approve env r) b c'
  unfolding is_text
  approve-Pair request_id b v r c c' there (is_batch q h) status named found pushed =
      cc (rw (is_text→eq "PENDING" (get "status" r) status) at h.status)
  approve-Pair request_id b v r c c' there (is_product p) status named found pushed =
      cc (p.no_batch, named)
  approve-Pair request_id b v r c c' there (is_request a q d keyed behind h l) status named found
        pushed =
      let e : a ≡ b = cc (l.batch_of, named) in
      let doc : d ≡ c = cc (rw e at behind, found) in
      approve-linked request_id b v q r c c' keyed there found (rw (e, doc) at h) (rw (e, doc) at l)
        status pushed

  -- The key that the approval and the completion write the batch under.
  pub show_key : (v : Value) (b : String) → v ≡ str b → show env v ≡ b
  unfolding show
  show_key v b e = rw e

  pub approve_tokenization_request-Committed :
      Sorted env.read
      → (request_id : String)
      → Returns
          (λ _ w. Committed env.has_attribute env.read w)
          []
          (approve_tokenization_request env request_id)
  unfolding approve_tokenization_request
  approve_tokenization_request-Committed s request_id = Returns-ensure _ _ _ λ certifier.
      Returns-load env request_id _ _ λ r there. Returns-ensure _ _ _ λ pending.
        Returns-put request_id _ _ (
          Returns-load_at env _ _ _ λ c b named found. Returns-ensure _ _ _ λ backed.
            Returns-lift _ _ λ c' pushed. Returns-put _ c' _ (
              Returns-event _ _ _ (
                Returns-pure _ (
                  pair request_id (approve env r) b c'
                    (approve-Pair request_id b _ r c c' there (s.kind request_id r there) pending
                      (unfold approve in simp get-set at named) found pushed)
                    (λ j. rw (show_key _ b named) refl)))))
