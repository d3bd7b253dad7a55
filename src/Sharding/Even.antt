-- ===== src/Sharding/Even.antt =====
-- What it means that the analysis finds no imbalance.
use sustainable_fashion_chai.Prelude.{
  none, some, List, false, ◌*◌, ◌≤◌, String, ◌≡◌, ◌↔◌, refl, [], ◌∷◌, arith, length, All, Table,
  Bool-cases, inl, inr,
}
use sustainable_fashion_chai.Sharding.{
  ChunkCount, mean, add_imbalance, Imbalance, Load, Metrics, is_imbalanced, find_imbalances,
  analyze,
}

-- Within a tenth of the mean, where both are numbers.
abbrev pub Near : ChunkCount → ChunkCount → Type 0
Near (some optimal) (some chunks) = (10 * chunks ≤ 11 * optimal) × (9 * optimal ≤ 10 * chunks)
Near (some optimal) none = Unit
Near none chunks = Unit

-- Every shard has about the same number of chunks: it is within a tenth of the mean, rounded down.
-- Of a shard without a number of chunks, or where the total is none, this says nothing.
abbrev pub Even : Metrics → Type 0
Even m =
    All (λ (p : String × Load). Near (mean m.total.chunks (length m.shards)) p.1.chunks) m.shards

add_imbalance-none :
    (optimal : ChunkCount) (k : String) (chunks : ChunkCount) (rest : List Imbalance)
    → add_imbalance optimal k chunks rest ≡ []
    → Near optimal chunks × (rest ≡ [])
add_imbalance-none none k chunks rest h = (tt, h)
add_imbalance-none (some o) k none rest h = (tt, h)
add_imbalance-none (some o) k (some c) rest h = elim (Bool-cases (is_imbalanced o c)) [
  | inl bad ↦ cc (rw bad at h)
  | inr good ↦ (ground (arith, good), rw good at h)
]

add_imbalance-some :
    (optimal : ChunkCount) (k : String) (chunks : ChunkCount) (rest : List Imbalance)
    → Near optimal chunks
    → rest ≡ []
    → add_imbalance optimal k chunks rest ≡ []
add_imbalance-some none k chunks rest n h = h
add_imbalance-some (some o) k none rest n h = h
add_imbalance-some (some o) k (some c) rest n h =
    let good : is_imbalanced o c ≡ false = ground (arith, n) in rw good h

find_imbalances-none :
    (optimal : ChunkCount) (ls : Table Load)
    → find_imbalances optimal ls ≡ []
    → All (λ (p : String × Load). Near optimal p.1.chunks) ls
unfolding find_imbalances
find_imbalances-none optimal [] h = tt
find_imbalances-none optimal ((k, l) ∷ ls) h =
    let (near, rest) = add_imbalance-none optimal k l.chunks (find_imbalances optimal ls) h in
    (near, find_imbalances-none optimal ls rest)

find_imbalances-some :
    (optimal : ChunkCount) (ls : Table Load)
    → All (λ (p : String × Load). Near optimal p.1.chunks) ls
    → find_imbalances optimal ls ≡ []
unfolding find_imbalances
find_imbalances-some optimal [] h = refl
find_imbalances-some optimal ((k, l) ∷ ls) (near, hs) =
    add_imbalance-some optimal k l.chunks (find_imbalances optimal ls) near
      (find_imbalances-some optimal ls hs)

-- The analysis finds no imbalance exactly when every shard's number of chunks is within a tenth
-- of the mean over the shards, rounded down; a shard without such a number is not compared, and
-- none is where the total is no number.
pub analyze_iff : (m : Metrics) → ((analyze m).imbalances ≡ []) ↔ Even m
unfolding analyze
analyze_iff m = by_shards m.shards m.total
  where
    by_shards :
        (shards : Table Load) (total : Load)
        → ((analyze (record { shards = shards; total = total })).imbalances ≡ [])
          ↔ Even (record { shards = shards; total = total })
    by_shards [] total = (λ h. tt, λ h. refl)
    by_shards (p ∷ ps) total = (
      find_imbalances-none (mean total.chunks (length (p ∷ ps))) (p ∷ ps),
      find_imbalances-some (mean total.chunks (length (p ∷ ps))) (p ∷ ps),
    )
