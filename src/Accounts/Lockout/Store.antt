-- ===== src/Accounts/Lockout/Store.antt =====
-- Wrong passwords given to findByCredentials of fabric/application/models/User.js, over the store.
use sustainable_fashion_chai.Prelude.{
  ℕ, String, Bool, false, not, Option, some, List, [], ◌∷◌, suc, if◌then◌else◌,
}
use sustainable_fashion_chai.Fabric.{Result, ok}
use sustainable_fashion_chai.Accounts.Types.{User}
use sustainable_fashion_chai.Accounts.Action.{Users, Env, World}
use sustainable_fashion_chai.Accounts.Model.{after, is_named, find_by_credentials}
use sustainable_fashion_chai.Accounts.Store.{IsUp}
use sustainable_fashion_chai.Accounts.Lockout.{at}

module _ (db : Users) (up : IsUp db) (env : Env) (name i : String) where
  -- A wrong password at the time `t`: the call throws, and leaves the guessed document.
  attempt : ℕ → String → World db → World db
  attempt t password w = (find_by_credentials db (at env t) name password w).1

  -- Whether findByCredentials compares the password at the time `t`, and how often it does over a
  -- sequence of calls.
  abbrev pub compares : ℕ → Result (Option User) → Bool
  compares t (ok (some u)) = not (after u.lock_until t)
  compares t _ = false

  unfoldable pub compared : List (ℕ × String) → World db → ℕ
  unfolding attempt
  compared [] w = 0
  compared ((t, password) ∷ more) w =
      let rest = compared more (attempt t password w) in
      if compares t (db.find_one w.users (is_named env name)) then suc rest else rest
