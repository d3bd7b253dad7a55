-- ===== src/Accounts/Lockout.antt =====
-- How findByCredentials of fabric/application/models/User.js locks an account.
pub mod Store
use sustainable_fashion_chai.Prelude.{
  ℕ, ◌+◌, ◌-◌, ◌≤◌, ◌<◌, String, ◌≡◌, refl, sym, ◌∙◌, ap, Bool, true, false, not, ◌&&◌, Option,
  none, some, List, [], ◌∷◌, ◌==◌, eq_iff, eq_refl, suc, ltb, leb, lt→ltb, arith, All, Bool-cases,
  inl, inr, ◌⊎◌, if◌then◌else◌,
}
use sustainable_fashion_chai.Fabric.{Error, Result, ok, err}
use sustainable_fashion_chai.Accounts.Types.{User}
use sustainable_fashion_chai.Accounts.Action.{Users, Env, World, Act, ◌>>=◌, ◌>>◌}
use sustainable_fashion_chai.Accounts.Model.{
  after, hour, is_named, count_failure, pre_save, save, check_password, find_by_credentials,
}

-- The environment of a request at the time `t`.
abbrev pub at : Env → ℕ → Env
at env t = record env { now = t }

-- The document after a wrong password at the time `t`, if the account is open then.
abbrev pub guessed : Env → ℕ → User → User
guessed env t u = if after u.lock_until t then u else count_failure (at env t) u

-- The number of times at which the account is open, if a wrong password comes at each.
abbrev pub opened : Env → List ℕ → User → ℕ
opened env [] u = 0
opened env (t ∷ ts) u =
    let rest = opened env ts (guessed env t u) in if after u.lock_until t then rest else suc rest

abbrev pub Within : ℕ → ℕ → Type 0
Within t₀ t = (t₀ ≤ t) × (t < t₀ + hour)

-- Locked for the rest of the hour from `t₀`, or with that many wrong passwords left.
abbrev pub Budget : ℕ → ℕ → User → Type 0
Budget t₀ n u =
    ((until : ℕ) × (u.lock_until ≡ some until) × (t₀ + hour ≤ until))
    ⊎ ((5 ≤ n + u.failed_login_attempts) × (1 ≤ n))

pub opened-Budget :
    (env : Env) (t₀ n : ℕ) (ts : List ℕ) (u : User)
    → All (Within t₀) ts
    → Budget t₀ n u
    → opened env ts u ≤ n
opened-Budget env t₀ n [] u w b = omega arith
opened-Budget env t₀ n (t ∷ ts) u (now, w) (inl (until, e, late)) =
    let shut : after u.lock_until t ≡ true = rw e (lt→ltb t until (omega (arith, now, late))) in
    rw shut (opened-Budget env t₀ n ts u w (inl (until, e, late)))
opened-Budget env t₀ n (t ∷ ts) u (now, w) (inr (few, some_left)) =
    elim (Bool-cases (after u.lock_until t)) [
      | inl shut ↦ rw shut (opened-Budget env t₀ n ts u w (inr (few, some_left)))
      | inr free ↦ rw free (
          let rest =
            opened-Budget env t₀ (n - 1) ts (count_failure (at env t) u) w
              (by_count (Bool-cases (leb 5 (suc u.failed_login_attempts)))) in
          omega (arith, rest, some_left))
    ]
  where
    by_count :
        (leb 5 (suc u.failed_login_attempts) ≡ true) ⊎ (leb 5 (suc u.failed_login_attempts) ≡ false)
        → Budget t₀ (n - 1) (count_failure (at env t) u)
    by_count (inl full) = inl (t + hour, rw full refl, omega (arith, now))
    by_count (inr more) = inr (omega (arith, few, some_left), ground (arith, few))
