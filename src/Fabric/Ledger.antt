-- ===== src/Fabric/Ledger.antt =====
-- The world state of a channel, behind its laws: what Fabric documents of a committed write set.
-- A transaction reads the committed state only, and of two writes to a key the last one stays.
use sustainable_fashion_chai.Prelude.{String, ◌≡◌, Option, some, List, [], ◌∷◌, ◌==◌, if◌then◌else◌}
use sustainable_fashion_chai.Fabric.{Stored, document, Effect, put, event}

-- What stands under the key `k` after the writes, if `old` stood there before.
abbrev pub written : String → List Effect → Option Stored → Option Stored
written k [] old = old
written k (put j d ∷ w) old = written k w (if j == k then some (document d) else old)
written k (event n v ∷ w) old = written k w old

pub record Ledger : Type 1 where
  pub State : Type 0
  pub empty : State
  pub get_state : State → String → Option Stored
  pub commit : State → List Effect → State
  pub get_state-empty : (k : String) → get_state empty k ≡ Option.none
  pub get_state-commit :
      (s : State) (w : List Effect) (k : String)
      → get_state (commit s w) k ≡ written k w (get_state s k)
