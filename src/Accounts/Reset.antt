-- ===== src/Accounts/Reset.antt =====
-- A password reset in fabric/application/controllers/authController.js: the mail of forgotPassword
-- and what resetPassword does with its token, once and again.
use sustainable_fashion_chai.Prelude.{
  ◌+◌, ◌≤◌, ◌<◌, arith, true, false, text_length, String, ◌≡◌, ◌≢◌, refl, none, some, [],
}
use sustainable_fashion_chai.Fabric.{ok}
use sustainable_fashion_chai.Accounts.Types.{User}
use sustainable_fashion_chai.Accounts.Action.{Users, Env, World, ◌>>=◌, ◌>>◌}
use sustainable_fashion_chai.Accounts.Store.{
  different, IsUp, Sole, by_id-saved, find-Sole, save-Sole_gone,
}
use sustainable_fashion_chai.Accounts.Model.{is_short, pre_save, save, save_password}
use sustainable_fashion_chai.Accounts.Response.{failure, answer}
use sustainable_fashion_chai.Accounts.Recovery.{cleared, may_reset, reset_password}

module _ (db : Users) (up : IsUp db) (env : Env) where
  -- What a reset leaves of the document `u`.
  pub record WasReset (password salt : String) (u v : User) : Type 0 where
    pub hashed : v.password ≡ env.hash salt password
    pub used : v.password_reset_token ≡ none
    pub signed_out : v.tokens ≡ []
    pub refreshes : v.refresh_token ≡ u.refresh_token
    pub refreshes_until : v.refresh_token_expires ≡ u.refresh_token_expires
    pub locked : v.lock_until ≡ u.lock_until

  -- The document that resetPassword saves.
  abbrev reset_document : (password salt : String) → User → User
  reset_document password salt u = record (cleared u) { password = env.hash salt password }

  reset_found_one :
      (token password i : String) (w : World db) (u : User) (t : db.State)
      → Sole db (may_reset env token) i w.users u
      → password ≢ ""
      → password ≢ u.password
      → is_short password ≡ false
      → db.save w.users (reset_document password (env.random w.drawn) u) ≡ ok t
      → reset_password db env token password w ≡ (
        answer 200 "Password has been reset successfully. Please log in with your new password." [],
        record w { users = t; drawn = w.drawn + 1 },
      )
  unfolding reset_password save_password save pre_save ◌>>=◌ ◌>>◌
  reset_found_one token password i w u t h given new long e =
      rw
        (
          different password "" given,
          find-Sole db up (may_reset env token) i w.users u h,
          different password u.password new,
          long,
          e,
        )
        refl

  reset_short :
      (token password i : String) (w : World db) (u : User)
      → Sole db (may_reset env token) i w.users u
      → password ≢ ""
      → password ≢ u.password
      → is_short password ≡ true
      → reset_password db env token password w ≡ (failure 500 "Failed to reset password", w)
  unfolding reset_password save_password save pre_save ◌>>=◌ ◌>>◌
  reset_short token password i w u h given new short =
      rw
        (
          different password "" given,
          find-Sole db up (may_reset env token) i w.users u h,
          different password u.password new,
          short,
        )
        refl

  refused :
      (token password : String) (w : World db)
      → db.find_one w.users (may_reset env token) ≡ ok none
      → password ≢ ""
      → reset_password db env token password w
        ≡ (failure 400 "Password reset token is invalid or has expired", w)
  unfolding reset_password save_password save pre_save ◌>>=◌ ◌>>◌
  refused token password w e given = rw (different password "" given, e) refl

  -- With a database that works, where the token resets one account only, and passwords that are
  -- given and are not the very text of the stored hash: a reset with a new password of at least 8
  -- UTF-16 units answers 200 and stores its hash and no token of a session, but leaves the refresh
  -- token as it was; the same token is then refused, with any password, and changes nothing. A
  -- reset with a new password that is shorter answers 500 and changes nothing.
  pub reset_password-WasReset :
      (token password again short : String) (i : String) (w : World db) (u : User)
      → Sole db (may_reset env token) i w.users u
      → password ≢ ""
      → password ≢ u.password
      → 8 ≤ text_length password
      → again ≢ ""
      → short ≢ ""
      → short ≢ u.password
      → text_length short < 8
      → ((reset_password db env token password w).0.status ≡ 200)
        × ((v : User) × (db.by_id (reset_password db env token password w).1.users i ≡ some v)
            × WasReset password (env.random w.drawn) u v)
        × (reset_password db env token again (reset_password db env token password w).1 ≡ (
          failure 400 "Password reset token is invalid or has expired",
          (reset_password db env token password w).1,
        ))
        × (reset_password db env token short w ≡ (failure 500 "Failed to reset password", w))
  reset_password-WasReset token password again short i w u h given new long given_again given_short
        new_short brief =
      let v = reset_document password (env.random w.drawn) u in
      let (t, e) = up.saves w.users i u v h.found refl in
      let is = reset_found_one token password i w u t h given new (ground (arith, long)) e in
      (
        rw is refl,
        (
          v,
          rw is (by_id-saved db w.users t v i e (db.by_id-id w.users i u h.found)),
          record {
            hashed = refl;
            used = refl;
            signed_out = refl;
            refreshes = refl;
            refreshes_until = refl;
            locked = refl;
          },
        ),
        rw is (
            refused token again _
              (save-Sole_gone db up (may_reset env token) i w.users t u v h refl refl e)
              given_again),
        reset_short token short i w u h given_short new_short (ground (arith, brief)),
      )
