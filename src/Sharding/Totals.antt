-- ===== src/Sharding/Totals.antt =====
-- What the metrics add up to.
use sustainable_fashion_chai.Prelude.{
  none, some, Bool, entry, entry-update, ◌∙◌, true, false, ◌==◌, if◌then◌else◌, String, ◌≡◌, refl,
  sym, ap, List, [], ◌∷◌, any, ◌||◌, arith, Table, update,
}
use sustainable_fashion_chai.Fabric.{Error, Result, ok, err}
use sustainable_fashion_chai.Sharding.{
  ChunkCount, add_count, Load, no_load, plus, Distribution, Cluster, Metrics, shard_keys,
  add_shards, add_distribution, continue, add_collections, get_metrics,
}

load_same : {a b : Load} → a.size ≡ b.size → a.documents ≡ b.documents → a.chunks ≡ b.chunks → a ≡ b
load_same p q r = grind (arith, p, q, r)

count_swap : (a b c : ChunkCount) → add_count a (add_count b c) ≡ add_count (add_count c a) b
count_swap none b none = refl
count_swap none b (some k) = refl
count_swap (some n) none none = refl
count_swap (some n) none (some k) = refl
count_swap (some n) (some m) none = refl
count_swap (some n) (some m) (some k) = ap (λ x. some x) (omega arith)

count_turn : (a b c : ChunkCount) → add_count a (add_count c b) ≡ add_count (add_count c a) b
count_turn none b none = refl
count_turn none b (some k) = refl
count_turn (some n) b none = refl
count_turn (some n) none (some k) = refl
count_turn (some n) (some m) (some k) = ap (λ x. some x) (omega arith)

zero_count : (a : ChunkCount) → add_count (some 0) a ≡ a
zero_count none = refl
zero_count (some n) = ap (λ x. some x) (omega arith)

count_zero : (a : ChunkCount) → add_count a (some 0) ≡ a
count_zero none = refl
count_zero (some n) = ap (λ x. some x) (omega arith)

plus_swap : (a b c : Load) → plus a (plus b c) ≡ plus (plus c a) b
plus_swap a b c = rw (count_swap a.chunks b.chunks c.chunks) (grind arith)

plus_turn : (a b c : Load) → plus a (plus c b) ≡ plus (plus c a) b
plus_turn a b c = rw (count_turn a.chunks b.chunks c.chunks) (grind arith)

plus_zero : (a : Load) → plus no_load a ≡ a
plus_zero a = load_same (omega arith) (omega arith) (zero_count a.chunks)

plus_none : (a : Load) → plus a no_load ≡ a
plus_none a = load_same (omega arith) (omega arith) (count_zero a.chunks)

-- What these numbers say of one shard.
abbrev pub of_shard : String → Table Load → Load
of_shard id [] = no_load
of_shard id ((k, l) ∷ ls) = let rest = of_shard id ls in if k == id then plus l rest else rest

-- What the replies for all collections say of one shard, and in all.
abbrev pub in_all : (Distribution → Load) → List Distribution → Load
in_all f [] = no_load
in_all f (d ∷ ds) = plus (f d) (in_all f ds)

-- There is no number.
abbrev pub uncounted : ChunkCount → Bool
uncounted none = true
uncounted (some n) = false

uncounted-add_count : (a b : ChunkCount) → uncounted (add_count a b) ≡ (uncounted a || uncounted b)
uncounted-add_count none b = refl
uncounted-add_count (some n) none = refl
uncounted-add_count (some n) (some m) = refl

uncounted-in_all :
    (f : Distribution → Load) (ds : List Distribution)
    → uncounted (in_all f ds).chunks ≡ any (λ d. uncounted (f d).chunks) ds
uncounted-in_all f [] = refl
uncounted-in_all f (d ∷ ds) =
    uncounted-add_count (f d).chunks (in_all f ds).chunks
    ∙ ap (λ b. uncounted (f d).chunks || b) (uncounted-in_all f ds)

entry-add_shards :
    (id : String) (ls shards : Table Load)
    → entry no_load id (add_shards ls shards) ≡ plus (of_shard id ls) (entry no_load id shards)
unfolding add_shards
entry-add_shards id [] shards = sym (plus_zero (entry no_load id shards))
entry-add_shards id ((k, l) ∷ ls) shards =
    rw
      (
        entry-add_shards id ls (update no_load (λ x. plus x l) k shards),
        entry-update no_load (λ x. plus x l) k id shards,
      )
      (by_test (k == id))
  where
    by_test :
        (b : Bool)
        → plus
            (of_shard id ls)
            (if b then plus (entry no_load id shards) l else entry no_load id shards)
          ≡ plus (if b then plus l (of_shard id ls) else of_shard id ls) (entry no_load id shards)
    by_test true = plus_swap (of_shard id ls) (entry no_load id shards) l
    by_test false = refl

module _ (cluster : Cluster) where
  pub err_ne :
      {B : Type 0} {x : Error} {s t : cluster.State} {b : B}
      → ◌≡◌ {A = Result B × cluster.State} (err x, s) (ok b, t)
      → ⊥
  err_ne {B} e = ne (ap (λ r. r.0) e)
    where
      ne : {x : Error} {b : B} → ◌≡◌ {A = Result B} (err x) (ok b) → ⊥
      ne h = cc

  pub ok_eq :
      {B : Type 0} {a b : B} {s t : cluster.State}
      → ◌≡◌ {A = Result B × cluster.State} (ok a, s) (ok b, t)
      → b ≡ a
  ok_eq {B} {a} {b} e = same (ap (λ r. r.0) e)
    where
      same : ◌≡◌ {A = Result B} (ok a) (ok b) → b ≡ a
      same h = cc h

  -- The replies of collStats for these collections, one command after another.
  pub data Replies : List String → cluster.State → List Distribution → cluster.State → Type 0 where
    none_left : (s : cluster.State) → Replies [] s [] s
    replied :
        (name : String) (names : List String) (s t u : cluster.State) (d : Distribution)
        (ds : List Distribution)
        → cluster.coll_stats name s ≡ (ok d, t)
        → Replies names t ds u
        → Replies (name ∷ names) s (d ∷ ds) u

  -- How the metrics grow by such replies.
  record Grown (names : List String) (s t : cluster.State) (m n : Metrics) : Type 0 where
    replies : List Distribution
    read : Replies names s replies t
    total : n.total ≡ plus (in_all (λ d. d.total) replies) m.total
    shard :
        (id : String)
        → entry no_load id n.shards
          ≡ plus
              (in_all (λ d. of_shard id d.shard_distribution) replies)
              (entry no_load id m.shards)

  add_collections-Grown :
      (names : List String) (m n : Metrics) (s t : cluster.State)
      → add_collections cluster names m s ≡ (ok n, t)
      → Grown names s t m n
  unfolding add_collections
  add_collections-Grown [] m n s t = λ e.
      let same : n ≡ m = ok_eq e in
      let here : s ≡ t = ap (λ r. r.1) e in
      rw (same, ← here)
        (record {
          replies = [];
          read = none_left s;
          total = sym (plus_zero m.total);
          shard = λ id. sym (plus_zero (entry no_load id m.shards));
        })
  add_collections-Grown (name ∷ names) m n s t =
      by_reply (λ d u. add_collections-Grown names (add_distribution d m) n u t)
        (cluster.coll_stats name s) refl
    where
      by_reply :
          ((d : Distribution) (u : cluster.State)
            → add_collections cluster names (add_distribution d m) u ≡ (ok n, t)
            → Grown names u t (add_distribution d m) n)
          → (r : Result Distribution × cluster.State) → cluster.coll_stats name s ≡ r
          → continue cluster r (λ d. add_collections cluster names (add_distribution d m))
            ≡ (ok n, t)
          → Grown (name ∷ names) s t m n
      by_reply again (ok d, u) q e =
          let g = again d u e in
          record {
            replies = d ∷ g.replies;
            read = replied name names s u t d g.replies q g.read;
            total = g.total ∙ plus_swap _ m.total d.total;
            shard = λ id.
                g.shard id
                ∙ rw (entry-add_shards id d.shard_distribution m.shards)
                    (plus_turn _ (entry no_load id m.shards) (of_shard id d.shard_distribution));
          }
      by_reply again (err x, u) q e = absurd (err_ne e)

  pub record IsMeasured (s t : cluster.State) (m : Metrics) : Type 0 where
    pub replies : List Distribution
    pub read : Replies shard_keys s replies t
    pub total : m.total ≡ in_all (λ d. d.total) replies
    pub lacking : uncounted m.total.chunks ≡ any (λ d. uncounted d.total.chunks) replies
    pub shard :
        (id : String)
        → entry no_load id m.shards ≡ in_all (λ d. of_shard id d.shard_distribution) replies

  -- When getMetrics returns, its metrics are made of one reply of the cluster for each collection:
  -- their totals are the sums of the totals of the replies, and each shard has the sums of what the
  -- replies say of it; and the total number of chunks is no number exactly when some reply has no
  -- total number of chunks.
  pub get_metrics-IsMeasured :
      (s t : cluster.State) (m : Metrics) → get_metrics cluster s ≡ (ok m, t) → IsMeasured s t m
  unfolding get_metrics entry
  get_metrics-IsMeasured s t m e =
      let g = add_collections-Grown shard_keys (record { shards = []; total = no_load }) m s t e in
      record {
        replies = g.replies;
        read = g.read;
        total = g.total ∙ plus_none _;
        lacking =
            ap (λ l. uncounted l.chunks) (g.total ∙ plus_none _)
            ∙ uncounted-in_all (λ d. d.total) g.replies;
        shard = λ id. g.shard id ∙ plus_none _;
      }
