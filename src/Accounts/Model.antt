-- ===== src/Accounts/Model.antt =====
-- The methods and statics of the user schema, in fabric/application/models/User.js.
use sustainable_fashion_chai.Prelude.{
  ℕ, ◌+◌, String, Bool, true, false, not, ◌&&◌, ◌||◌, Option, none, some, List, [], ◌∷◌, ◌++◌, ◌==◌,
  suc, ltb, leb, all, any, map, text_length, if◌then◌else◌,
}
use sustainable_fashion_chai.Number.{whole}
use sustainable_fashion_chai.Json.{
  Value, undefined, str, num, bool, arr, items, object, Fields, end, field, fields,
}
use sustainable_fashion_chai.Fabric.{Error, message}
use sustainable_fashion_chai.Accounts.Types.{User, Claims}
use sustainable_fashion_chai.Accounts.Action.{
  Users, Env, Act, ◌>>=◌, ◌>>◌, pure, throw, draw, find, put,
}

-- a date or number that is there and above `n`
abbrev pub after : Option ℕ → ℕ → Bool
after none n = false
after (some m) n = ltb n m

-- a text that is there and is `s`
abbrev pub holds : Option String → String → Bool
holds none s = false
holds (some t) s = t == s

abbrev pub claims_of : User → Claims
claims_of user = record {
  id = user.id;
  role = user.role;
  org_id = user.organization.id;
  username = user.username;
}

abbrev pub hour : ℕ
hour = 3600000

-- The filter of findByCredentials.
abbrev pub is_named : Env → String → User → Bool
is_named env username u = u.username == env.cast_name username || u.email == env.cast_email username

-- delete o[k]
unfoldable pub remove : String → Fields → Fields
remove k end = end
remove k (field j v fs) = let rest = remove k fs in if j == k then rest else field j v rest

abbrev pub text_or_undefined : Option String → Value
text_or_undefined none = undefined
text_or_undefined (some s) = str s

abbrev pub date_or_undefined : Option ℕ → Value
date_or_undefined none = undefined
date_or_undefined (some n) = num (whole n)

-- user.toObject(), by the fields that the schema names; createdAt, updatedAt and __v are left out
unfoldable pub to_object : User → Fields
to_object u = fields (
    ("_id", str u.id)
    ∷ ("username", str u.username)
    ∷ ("email", str u.email)
    ∷ ("password", str u.password)
    ∷ ("firstName", str u.first_name)
    ∷ ("lastName", str u.last_name)
    ∷ ("role", str u.role)
    ∷ (
      "organization",
      object (
          ("id", str u.organization.id)
          ∷ ("name", str u.organization.name)
          ∷ ("type", str u.organization.kind)
          ∷ []),
    )
    ∷ ("walletAddress", text_or_undefined u.wallet_address)
    ∷ ("profileImage", text_or_undefined u.profile_image)
    ∷ ("bio", text_or_undefined u.bio)
    ∷ ("active", bool u.active)
    ∷ ("lastLogin", date_or_undefined u.last_login)
    ∷ ("passwordResetToken", text_or_undefined u.password_reset_token)
    ∷ ("passwordResetExpires", date_or_undefined u.password_reset_expires)
    ∷ ("apiKey", text_or_undefined u.api_key)
    ∷ ("apiKeyCreated", date_or_undefined u.api_key_created)
    ∷ ("refreshToken", text_or_undefined u.refresh_token)
    ∷ ("refreshTokenExpires", date_or_undefined u.refresh_token_expires)
    ∷ ("emailVerified", bool u.email_verified)
    ∷ ("emailVerificationToken", text_or_undefined u.email_verification_token)
    ∷ ("emailVerificationExpires", date_or_undefined u.email_verification_expires)
    ∷ ("failedLoginAttempts", num (whole u.failed_login_attempts))
    ∷ ("lockUntil", date_or_undefined u.lock_until)
    ∷ ("tokens", arr (items (map (λ t. object (("token", str t) ∷ [])) u.tokens)))
    ∷ [])

-- The properties that toJSON deletes.
abbrev pub private_properties : List String
private_properties =
    "password" ∷ "tokens" ∷ "apiKey" ∷ "passwordResetToken" ∷ "passwordResetExpires"
    ∷ "emailVerificationToken" ∷ "emailVerificationExpires" ∷ "refreshToken" ∷ "refreshTokenExpires"
    ∷ "failedLoginAttempts" ∷ "lockUntil" ∷ []

abbrev pub remove_all : List String → Fields → Fields
remove_all [] fs = fs
remove_all (k ∷ ks) fs = remove_all ks (remove k fs)

unfoldable pub to_json : User → Fields
unfolding to_object
to_json user = remove_all private_properties (to_object user)

abbrev pub role_permissions : String → List String
role_permissions role =
    if role == "admin"
    then "manage_users" ∷ "manage_batches" ∷ "manage_products" ∷ "manage_certifications"
      ∷ "manage_tokenization" ∷ "view_analytics" ∷ "manage_system" ∷ []
    else if role == "manager"
    then "manage_batches" ∷ "manage_products" ∷ "manage_certifications" ∷ "view_analytics" ∷ []
    else if role == "producer"
    then "create_batch" ∷ "update_batch" ∷ "view_own_batches" ∷ "request_certification" ∷ []
    else if role == "manufacturer"
    then "view_batches" ∷ "create_product" ∷ "update_product" ∷ "view_own_products" ∷ []
    else if role == "retailer"
    then "view_products" ∷ "sell_product" ∷ "verify_product" ∷ []
    else if role == "certifier"
    then "create_certification" ∷ "update_certification" ∷ "view_certifications" ∷ []
    else if role == "consumer"
    then "verify_product" ∷ "view_product_history" ∷ []
    else []

-- hasPermission, of a list of permissions; one permission alone is the list of it.
unfoldable pub has_permission : User → List String → Bool
has_permission user required =
    all (λ permission. any (λ p. p == permission) (role_permissions user.role)) required

-- The document after a wrong password.
abbrev pub count_failure : Env → User → User
count_failure env user =
    let attempts = suc user.failed_login_attempts in
    record user {
      failed_login_attempts = attempts;
      lock_until = if leb 5 attempts then some (env.now + hour) else user.lock_until;
    }

-- The validator minlength: 8 of a password.
abbrev pub is_short : String → Bool
is_short password = ltb (text_length password) 8

module _ (db : Users) (env : Env) where
  abbrev hashed : Bool → User → Act db User
  hashed true user = do
    salt ← draw db env
    pure db (record user { password = env.hash salt user.password })
  hashed false user = pure db user

  -- The pre-save middleware: `modified` is user.isModified('password').
  unfoldable pub pre_save : Bool → User → Act db User
  unfolding ◌>>=◌
  pre_save modified user = hashed modified user

  -- user.save(), which answers the document that it leaves. The validators of the schema run before
  -- the hook, so that of the password sees the password itself; the others check what the hook
  -- leaves as it is, and stand with db.save.
  unfoldable pub save : Bool → User → Act db User
  save modified user =
      if modified && is_short user.password
      then throw db (env.too_short user.password)
      else (do user' ← pre_save modified user; put db user'; pure db user')

  -- user.password = p; user.save()
  unfoldable pub save_password : String → User → Act db User
  save_password password user =
      save (not (password == user.password)) (record user { password = password })

  unfoldable pub generate_auth_token : User → Act db (String × User)
  generate_auth_token user = do
    let token = env.sign env.now (claims_of user)
    user' ← save false (record user { tokens = user.tokens ++ token ∷ [] })
    pure db (token, user')

  unfoldable pub generate_refresh_token : User → Act db (String × User)
  generate_refresh_token user = do
    refresh_token ← draw db env
    user' ← save false (record user {
      refresh_token = some refresh_token;
      refresh_token_expires = some (env.now + 604800000);
    })
    pure db (refresh_token, user')

  unfoldable pub generate_api_key : User → Act db (String × User)
  generate_api_key user = do
    api_key ← draw db env
    user' ← save false (record user { api_key = some api_key; api_key_created = some env.now })
    pure db (api_key, user')

  unfoldable pub generate_password_reset_token : User → Act db (String × User)
  generate_password_reset_token user = do
    reset_token ← draw db env
    user' ← save false (record user {
      password_reset_token = some (env.sha256 reset_token);
      password_reset_expires = some (env.now + 3600000);
    })
    pure db (reset_token, user')

  -- `modified` is whether the document has a new password, as a new document does.
  unfoldable pub generate_email_verification_token : Bool → User → Act db (String × User)
  generate_email_verification_token modified user = do
    verification_token ← draw db env
    user' ← save modified (record user {
      email_verification_token = some (env.sha256 verification_token);
      email_verification_expires = some (env.now + 86400000);
    })
    pure db (verification_token, user')

  unfoldable pub reset_failures : User → Act db User
  reset_failures user =
      if ltb 0 user.failed_login_attempts
      then save false (record user { failed_login_attempts = 0; lock_until = none })
      else pure db user

  unfoldable pub check_password : String → User → Act db User
  check_password password user =
      if not (env.compare password user.password)
      then (do save false (count_failure env user); throw db (message "Invalid login credentials"))
      else (do user' ← reset_failures user; save false (record user' { last_login = some env.now }))

  abbrev pub checked : String → Option User → Act db User
  checked password none = throw db (message "Invalid login credentials")
  checked password (some user) =
      if after user.lock_until env.now
      then throw db (message "Account is temporarily locked. Please try again later.")
      else check_password password user

  unfoldable pub find_by_credentials : (username password : String) → Act db User
  find_by_credentials username password = do
    user ← find db (is_named env username)
    checked password user

  abbrev active_only : Option User → Act db User
  active_only none = throw db (message "Invalid API key")
  active_only (some user) =
      if not user.active then throw db (message "User account is inactive") else pure db user

  unfoldable pub find_by_api_key : String → Act db User
  find_by_api_key api_key = do user ← find db (λ u. holds u.api_key api_key); active_only user

  abbrev or_throw : Error → Option User → Act db User
  or_throw e none = throw db e
  or_throw e (some user) = pure db user

  unfoldable pub find_by_refresh_token : String → Act db User
  find_by_refresh_token refresh_token = do
    user ←
        find db (λ u. holds u.refresh_token refresh_token && after u.refresh_token_expires env.now)
    or_throw (message "Invalid or expired refresh token") user
