-- ===== src/Accounts/Forgot.antt =====
-- forgotPassword of fabric/application/controllers/authController.js.
use sustainable_fashion_chai.Prelude.{
  ℕ, ◌+◌, ◌<◌, String, ◌≡◌, ◌≢◌, refl, ◌∙◌, ap, Bool, true, Option, none, some, [], ◌∷◌, ◌++◌, ◌==◌,
  eq_refl, lt→ltb,
}
use sustainable_fashion_chai.Fabric.{ok}
use sustainable_fashion_chai.Accounts.Types.{User}
use sustainable_fashion_chai.Accounts.Action.{Users, Env, World, ◌>>=◌, ◌>>◌}
use sustainable_fashion_chai.Accounts.Store.{different, IsUp, Sole, by_id-saved, find-Sole}
use sustainable_fashion_chai.Accounts.Model.{pre_save, save, generate_password_reset_token}
use sustainable_fashion_chai.Accounts.Response.{answer, Site}
use sustainable_fashion_chai.Accounts.Recovery.{
  email_exists, may_reset, reset_mail, forgot_password,
}
use sustainable_fashion_chai.Accounts.Lockout.{at}

module _ (db : Users) (up : IsUp db) (env : Env) (site : Site) where
  -- The filter of forgotPassword.
  abbrev pub has_email : String → User → Bool
  has_email email u = u.email == env.cast_email email

  -- What forgotPassword stores.
  abbrev requested : String → User → User
  requested token u = record u {
    password_reset_token = some (env.sha256 token);
    password_reset_expires = some (env.now + 3600000);
  }

  forgot_unknown :
      (email : String) (w : World db)
      → email ≢ ""
      → db.find_one w.users (has_email email) ≡ ok none
      → forgot_password db env site email w ≡ (answer 200 email_exists [], w)
  unfolding forgot_password generate_password_reset_token save pre_save ◌>>=◌ ◌>>◌
  forgot_unknown email w given e = rw (different email "" given, e) refl

  forgot_known :
      (email : String) (w : World db) (u : User) (t : db.State)
      → email ≢ ""
      → db.find_one w.users (has_email email) ≡ ok (some u)
      → db.save w.users (requested (env.random w.drawn) u) ≡ ok t
      → forgot_password db env site email w ≡ (
        answer 200 email_exists [],
        record w {
          users = t;
          drawn = w.drawn + 1;
          mails = w.mails ++ reset_mail site u.email (env.random w.drawn) ∷ [];
        },
      )
  unfolding forgot_password generate_password_reset_token save pre_save ◌>>=◌ ◌>>◌
  forgot_known email w u t given e kept = rw (different email "" given, e, kept) refl

  -- With a database that works, forgotPassword answers the same whether or not the email belongs to
  -- an account.
  pub forgot_password_same :
      (email : String) (w : World db)
      → email ≢ ""
      → (forgot_password db env site email w).0 ≡ answer 200 email_exists []
  forgot_password_same email w given =
      let (o, found) = up.finds w.users (has_email email) in by_answer o found
    where
      by_answer :
          (o : Option User)
          → db.find_one w.users (has_email email) ≡ ok o
          → (forgot_password db env site email w).0 ≡ answer 200 email_exists []
      by_answer none e = ap (λ r. r.0) (forgot_unknown email w given e)
      by_answer (some u) e =
          let (named, there) = db.find_one-some w.users (has_email email) u e in
          let (t, kept) = up.saves w.users u.id u (requested (env.random w.drawn) u) there refl in
          ap (λ r. r.0) (forgot_known email w u t given e kept)

  -- With a database that works, and an email of one account, forgotPassword mails a link with the
  -- text that it draws to that account's address, and for less than an hour that text passes the
  -- filter of resetPassword on the account.
  pub forgot_password_lem :
      (email i : String) (w : World db) (u : User)
      → email ≢ ""
      → Sole db (has_email email) i w.users u
      → (later : ℕ) → later < env.now + 3600000
      → ((forgot_password db env site email w).1.mails
          ≡ w.mails ++ reset_mail site u.email (env.random w.drawn) ∷ [])
        × ((v : User) × (db.by_id (forgot_password db env site email w).1.users i ≡ some v)
            × (may_reset (at env later) (env.random w.drawn) v ≡ true))
  forgot_password_lem email i w u given h later soon =
      let v = requested (env.random w.drawn) u in
      let (t, kept) = up.saves w.users i u v h.found refl in
      let is =
        forgot_known email w u t given (find-Sole db up (has_email email) i w.users u h) kept in
      (
        ap (λ r. r.1.mails) is,
        (
          v,
          ap (λ r. db.by_id r.1.users i) is
              ∙ by_id-saved db w.users t v i kept (db.by_id-id w.users i u h.found),
          rw (eq_refl (env.sha256 (env.random w.drawn)), lt→ltb later (env.now + 3600000) soon)
              refl,
        ),
      )
