-- ===== src/Accounts/Credentials.antt =====
-- When login of fabric/application/controllers/authController.js lets a user in.
use sustainable_fashion_chai.Prelude.{
  String, ◌≡◌, refl, sym, ◌∙◌, ap, Bool, true, false, not, ◌||◌, Option, none, some, ◌==◌, ltb,
  nat_eq, Bool-cases, inl, inr, if◌then◌else◌,
}
use sustainable_fashion_chai.Fabric.{Error, message, Result, ok, err}
use sustainable_fashion_chai.Accounts.Types.{User}
use sustainable_fashion_chai.Accounts.Action.{
  Users, Env, World, Act, ◌>>=◌, ◌>>◌, bind_ok, err_ne, ok_eq, pure, throw, find, put, try_catch,
}
use sustainable_fashion_chai.Accounts.Model.{
  after, is_named, pre_save, save, reset_failures, check_password, checked, count_failure,
  find_by_credentials,
}
use sustainable_fashion_chai.Accounts.Response.{Response}
use sustainable_fashion_chai.Accounts.Login.{login_action, login}

module _ (db : Users) (env : Env) where
  -- `u` is the account that the name finds; it is open, and the password is its own.
  pub record Recognized (username password : String) (w : World db) (u : User) : Type 0 where
    pub found : db.find_one w.users (is_named env username) ≡ ok (some u)
    pub unlocked : after u.lock_until env.now ≡ false
    pub own : env.compare password u.password ≡ true

  saved_same : (u v : User) (w w' : World db) → save db env false u w ≡ (ok v, w') → v ≡ u
  unfolding save pre_save ◌>>=◌ ◌>>◌
  saved_same u v w w' e =
      let (_, w₁, _, done) = bind_ok (put db u) (λ _. pure db u) w w' v e in (ok_eq done).0

  reset_active :
      (u v : User) (w w' : World db) → reset_failures db env u w ≡ (ok v, w') → v.active ≡ u.active
  unfolding reset_failures ◌>>=◌
  reset_active u v w w' e = elim (Bool-cases (ltb 0 u.failed_login_attempts)) [
    | inl some_ ↦ ap (λ x. x.active) (saved_same _ v w w' (rw some_ at e))
    | inr never ↦ ap (λ x. x.active) (ok_eq (rw never at e)).0
  ]

  check_ok :
      (password : String) (u v : User) (w w' : World db)
      → check_password db env password u w ≡ (ok v, w')
      → (env.compare password u.password ≡ true) × (v.active ≡ u.active)
  unfolding check_password ◌>>=◌ ◌>>◌
  check_ok password u v w w' e = elim (Bool-cases (env.compare password u.password)) [
    | inl own ↦
        let (u₁, w₁, first, then_) = bind_ok (reset_failures db env u) _ w w' v (rw own at e) in
        (own, ap (λ x. x.active) (saved_same _ v w₁ w' then_) ∙ reset_active u u₁ w w₁ first)
    | inr wrong ↦
        let (_, _, _, raised) =
          bind_ok (save db env false (count_failure env u))
            (λ _. throw db (message "Invalid login credentials")) w w' v (rw wrong at e) in
        absurd (err_ne raised)
  ]

  find_ok :
      (username password : String) (v : User) (w w' : World db)
      → find_by_credentials db env username password w ≡ (ok v, w')
      → (u : User) × Recognized username password w u × (v.active ≡ u.active)
  unfolding find_by_credentials ◌>>=◌
  find_ok username password v w w' e =
      let (o, w₁, found, then_) =
        bind_ok (find db (is_named env username)) (checked db env password) w w' v e in
      by_answer o w₁ (ap (λ r. r.0) found) then_
    where
      by_answer :
          (o : Option User) (w₁ : World db)
          → db.find_one w.users (is_named env username) ≡ ok o
          → checked db env password o w₁ ≡ (ok v, w')
          → (u : User) × Recognized username password w u × (v.active ≡ u.active)
      by_answer none w₁ found e = absurd (err_ne e)
      by_answer (some u) w₁ found e = elim (Bool-cases (after u.lock_until env.now)) [
        | inl shut ↦ absurd (err_ne (rw shut at e))
        | inr open_ ↦
            let (own, active) = check_ok password u v w₁ w' (rw open_ at e) in
            (u, record { found = found; unlocked = open_; own = own }, active)
      ]

  -- The answer of an action that returns, or the one for its error.
  caught_status :
      (m : Act db Response) (f : Error → Response) (w : World db)
      → ((x : Error) → nat_eq (f x).status 200 ≡ false)
      → nat_eq (try_catch db m f w).0.status 200 ≡ true
      → (r : Response) × (w' : World db) × (m w ≡ (ok r, w')) × (nat_eq r.status 200 ≡ true)
  unfolding ◌>>=◌
  caught_status m f w fails e = by_result (m w) refl
    where
      by_result :
          (r : Result Response × World db)
          → m w ≡ r
          → (r : Response) × (w' : World db) × (m w ≡ (ok r, w')) × (nat_eq r.status 200 ≡ true)
      by_result (ok r, w') is = (r, w', is, rw is at e)
      by_result (err x, w') is = cc (rw is at e, fails x)

  refused_inactive :
      (active : Bool) (refusal : Response) (m : Act db Response) (r : Response) (w w' : World db)
      → nat_eq refusal.status 200 ≡ false
      → (if not active then pure db refusal else m) w ≡ (ok r, w')
      → nat_eq r.status 200 ≡ true
      → active ≡ true
  unfolding ◌>>=◌
  refused_inactive true refusal m r w w' h e status = refl
  refused_inactive false refusal m r w w' h e status = cc ((ok_eq e).0, h, status)

  -- When login answers 200, the name found an account that was not locked, the password was its own
  -- and the account was active.
  pub login_granted :
      (username password : String) (w : World db)
      → nat_eq (login db env username password w).0.status 200 ≡ true
      → (u : User) × Recognized username password w u × (u.active ≡ true)
  unfolding login login_action
  login_granted username password w e =
      let (r, w', is, status) =
        caught_status (login_action db env username password) _ w (λ x. refl) e in
      elim (Bool-cases (username == "" || password == "")) [
        | inl missing ↦ cc ((ok_eq (rw missing at is)).0, status)
        | inr given ↦
            let (v, w₁, found, then_) =
              bind_ok (find_by_credentials db env username password) _ w w' r (rw given at is) in
            let (u, known, same) = find_ok username password v w w₁ found in
            (u, known, sym same ∙ refused_inactive v.active _ _ r w₁ w' refl then_ status)
      ]
