-- ===== src/Accounts/Recovery.antt =====
-- changePassword, forgotPassword, resetPassword and verifyEmail of
-- fabric/application/controllers/authController.js.
use sustainable_fashion_chai.Prelude.{
  String, Bool, true, false, ◌&&◌, ◌||◌, Option, none, some, List, [], ◌∷◌, ◌==◌, join,
  if◌then◌else◌,
}
use sustainable_fashion_chai.Accounts.Types.{User}
use sustainable_fashion_chai.Accounts.Action.{
  Users, Env, World, Mail, Act, ◌>>=◌, ◌>>◌, pure, find, send, try_catch,
}
use sustainable_fashion_chai.Accounts.Model.{
  after, holds, save, save_password, generate_password_reset_token, find_by_credentials,
}
use sustainable_fashion_chai.Accounts.Response.{
  Response, failure, answer, message_or, Principal, username_of, Site,
}

abbrev pub reset_mail : Site → String → String → Mail
reset_mail site email token = record {
  recipient = email;
  subject = "Password Reset - SustainableFashionChain";
  link = join (site.protocol ∷ "://" ∷ site.host ∷ "/reset-password/" ∷ token ∷ []);
}

-- The tokens that are the request's own.
abbrev pub only : Option String → List String → List String
only token [] = []
only none (t ∷ ts) = only none ts
only (some s) (t ∷ ts) = let rest = only (some s) ts in if t == s then t ∷ rest else rest

abbrev pub email_exists : String
email_exists = "If your email exists in our system, you will receive a password reset link shortly."

-- The filters of resetPassword and verifyEmail.
abbrev pub may_reset : Env → String → User → Bool
may_reset env token u =
    holds u.password_reset_token (env.sha256 token) && after u.password_reset_expires env.now

abbrev pub may_verify : Env → String → User → Bool
may_verify env token u =
    holds u.email_verification_token (env.sha256 token)
    && after u.email_verification_expires env.now

-- The document that a reset leaves, before its password is saved.
abbrev pub cleared : User → User
cleared user = record user {
  password_reset_token = none;
  password_reset_expires = none;
  tokens = [];
}

module _ (db : Users) (env : Env) where
  unfoldable pub change_action :
      Principal → Option String → (current_password new_password : String) → Act db Response
  change_action principal token current_password new_password =
      if current_password == "" || new_password == ""
      then pure db (failure 400 "Current password and new password are required")
      else (do
        user ← find_by_credentials db env (username_of principal) current_password
        user' ← save_password db env new_password user
        save db env false (record user' { tokens = only token user'.tokens })
        pure db (answer 200 "Password changed successfully" []))

  unfoldable pub change_password :
      Principal
      → Option String
      → (current_password new_password : String) → World db
      → Response × World db
  unfolding ◌>>=◌ change_action
  change_password principal token current_password new_password =
      try_catch db (change_action principal token current_password new_password)
        (λ e. failure 400 (message_or env "Failed to change password" e))

  abbrev mail_reset : Site → Option User → Act db Response
  mail_reset site none = pure db (answer 200 email_exists [])
  mail_reset site (some user) = do
    made ← generate_password_reset_token db env user
    send db (reset_mail site made.1.email made.0)
    pure db (answer 200 email_exists [])

  unfoldable pub forgot_password : Site → (email : String) → World db → Response × World db
  unfolding ◌>>=◌ generate_password_reset_token
  forgot_password site email =
      try_catch db
        (if email == ""
          then pure db (failure 400 "Email is required")
          else (do user ← find db (λ u. u.email == env.cast_email email); mail_reset site user))
        (λ e. failure 500 "Failed to process password reset request")

  abbrev reset_found : String → Option User → Act db Response
  reset_found new_password none =
      pure db (failure 400 "Password reset token is invalid or has expired")
  reset_found new_password (some user) = do
    save_password db env new_password (cleared user)
    pure db (
        answer 200 "Password has been reset successfully. Please log in with your new password." [])

  unfoldable pub reset_password : (token new_password : String) → World db → Response × World db
  unfolding ◌>>=◌ save_password
  reset_password token new_password =
      try_catch db
        (if new_password == ""
          then pure db (failure 400 "New password is required")
          else (do user ← find db (may_reset env token); reset_found new_password user))
        (λ e. failure 500 "Failed to reset password")

  abbrev verify_found : Option User → Act db Response
  verify_found none = pure db (failure 400 "Email verification token is invalid or has expired")
  verify_found (some user) = do
    save db env false (record user {
      email_verified = true;
      email_verification_token = none;
      email_verification_expires = none;
    })
    pure db (answer 200 "Email verified successfully. You can now log in." [])

  unfoldable pub verify_email : (token : String) → World db → Response × World db
  unfolding ◌>>=◌ save
  verify_email token =
      try_catch db (do user ← find db (may_verify env token); verify_found user)
        (λ e. failure 500 "Failed to verify email")
