-- ===== src/Accounts/Login.antt =====
-- register, login, refreshToken, logout and logoutAll of
-- fabric/application/controllers/authController.js. A text of the request's body that is missing is
-- the empty text, which is how the source reads it.
use sustainable_fashion_chai.Prelude.{
  String, Bool, true, false, not, ◌||◌, Option, none, some, List, [], ◌∷◌, ◌==◌, any, join,
  if◌then◌else◌,
}
use sustainable_fashion_chai.Json.{str, obj}
use sustainable_fashion_chai.Accounts.Types.{Organization, User, roles, org_types}
use sustainable_fashion_chai.Accounts.Action.{
  Users, Env, World, Mail, Act, ◌>>=◌, ◌>>◌, pure, draw, find, send, try_catch,
}
use sustainable_fashion_chai.Accounts.Model.{
  to_json, save, generate_auth_token, generate_refresh_token, generate_email_verification_token,
  find_by_credentials, find_by_refresh_token,
}
use sustainable_fashion_chai.Accounts.Response.{
  Response, failure, answer, message_or, Principal, as_document, Site,
}

pub record Registration : Type 0 where
  pub username : String
  pub email : String
  pub password : String
  pub first_name : String
  pub last_name : String
  pub role : String
  pub organization : Option Organization

abbrev pub includes : String → List String → Bool
includes x xs = any (λ y. y == x) xs

abbrev organization_error : Option Organization → Option String
organization_error none = none
organization_error (some o) =
    if o.name == "" || o.kind == ""
    then some "Organization name and type are required"
    else if not (includes o.kind org_types)
    then some "Invalid organization type"
    else none

-- The answer 400 to a body that register does not take.
unfoldable pub registration_error : Registration → Option String
registration_error r =
    if r.username == ""
      || r.email == ""
      || r.password == ""
      || r.first_name == ""
      || r.last_name == ""
      || r.role == ""
    then some "All fields are required"
    else if not (includes r.role roles)
    then some "Invalid role"
    else organization_error r.organization

-- The filter of register.
abbrev pub is_taken : Env → Registration → User → Bool
is_taken env r u = u.username == env.cast_name r.username || u.email == env.cast_email r.email

abbrev organization_id : Option Organization → Option String
organization_id none = none
organization_id (some o) = if o.id == "" then none else some o.id

abbrev organization_of : String → Option Organization → Organization
organization_of id none = record { id = id; name = "Individual"; kind = "retail_store" }
organization_of id (some o) = record { id = id; name = o.name; kind = o.kind }

-- new User({ … }), with the defaults of the schema
unfoldable pub new_user : Env → Registration → (id org_id : String) → User
new_user env r id org_id = record {
  id = id;
  username = env.cast_name r.username;
  email = env.cast_email r.email;
  password = r.password;
  first_name = env.cast_name r.first_name;
  last_name = env.cast_name r.last_name;
  role = r.role;
  organization = organization_of org_id r.organization;
  wallet_address = none;
  profile_image = none;
  bio = none;
  active = true;
  last_login = none;
  password_reset_token = none;
  password_reset_expires = none;
  api_key = none;
  api_key_created = none;
  refresh_token = none;
  refresh_token_expires = none;
  email_verified = false;
  email_verification_token = none;
  email_verification_expires = none;
  failed_login_attempts = 0;
  lock_until = none;
  tokens = [];
}

abbrev pub verification_mail : Site → String → String → Mail
verification_mail site email token = record {
  recipient = email;
  subject = "Email Verification - SustainableFashionChain";
  link = join (site.protocol ∷ "://" ∷ site.host ∷ "/api/auth/verify-email/" ∷ token ∷ []);
}

module _ (db : Users) (env : Env) where
  abbrev organization_key : Option String → Act db String
  organization_key (some id) = pure db id
  organization_key none = do key ← draw db env; pure db (join ("org-" ∷ key ∷ []))

  unfoldable pub create_account : Site → Registration → Act db Response
  create_account site r = do
    org_id ← organization_key (organization_id r.organization)
    id ← draw db env
    created ← generate_email_verification_token db env true (new_user env r id org_id)
    user ← save db env false created.1
    send db (verification_mail site user.email created.0)
    signed ← generate_auth_token db env user
    refreshed ← generate_refresh_token db env signed.1
    pure db (
        answer 201 "User registered successfully. Please check your email to verify your account." (
          ("user", obj (to_json refreshed.1))
          ∷ ("token", str signed.0)
          ∷ ("refreshToken", str refreshed.0)
          ∷ []))

  abbrev register_new : Site → Registration → Option User → Act db Response
  register_new site r (some existing) = pure db (failure 409 "Username or email already exists")
  register_new site r none = create_account site r

  abbrev register_valid : Site → Registration → Option String → Act db Response
  register_valid site r (some e) = pure db (failure 400 e)
  register_valid site r none = do existing ← find db (is_taken env r); register_new site r existing

  unfoldable pub register : Site → Registration → World db → Response × World db
  unfolding ◌>>=◌ create_account registration_error
  register site r =
      try_catch db (register_valid site r (registration_error r))
        (λ e. failure 500 "Registration failed. Please try again later.")

  unfoldable pub open_session : User → Act db Response
  open_session user = do
    signed ← generate_auth_token db env user
    refreshed ← generate_refresh_token db env signed.1
    user' ← save db env false (record refreshed.1 { last_login = some env.now })
    pure db (
        answer 200 "Login successful" (
          ("user", obj (to_json user'))
          ∷ ("token", str signed.0)
          ∷ ("refreshToken", str refreshed.0)
          ∷ []))

  unfoldable pub login_action : (username password : String) → Act db Response
  unfolding open_session
  login_action username password =
      if username == "" || password == ""
      then pure db (failure 400 "Username and password are required")
      else (do
        user ← find_by_credentials db env username password
        if not user.active
            then pure db (failure 403 "Account is inactive. Please contact an administrator.")
            else open_session user)

  unfoldable pub login : (username password : String) → World db → Response × World db
  unfolding ◌>>=◌ login_action
  login username password =
      try_catch db (login_action username password)
        (λ e. failure 401 (message_or env "Invalid login credentials" e))

  unfoldable pub refresh_action : (refresh_token : String) → Act db Response
  refresh_action refresh_token =
      if refresh_token == "" then pure db (failure 400 "Refresh token is required") else (do
        user ← find_by_refresh_token db env refresh_token
        signed ← generate_auth_token db env user
        refreshed ← generate_refresh_token db env signed.1
        pure db (
            answer 200 "Token refreshed successfully"
              (("token", str signed.0) ∷ ("refreshToken", str refreshed.0) ∷ [])))

  unfoldable pub refresh : (refresh_token : String) → World db → Response × World db
  unfolding ◌>>=◌ refresh_action
  refresh refresh_token =
      try_catch db (refresh_action refresh_token)
        (λ e. failure 401 "Invalid or expired refresh token")

  abbrev without : Option String → List String → List String
  without token [] = []
  without none (t ∷ ts) = t ∷ without none ts
  without (some s) (t ∷ ts) = let rest = without (some s) ts in if t == s then rest else t ∷ rest

  -- `token` is req.token
  unfoldable pub logout : Principal → Option String → World db → Response × World db
  unfolding ◌>>=◌ save
  logout principal token =
      try_catch db
        (do
          user ← as_document db principal
          save db env false (record user {
            tokens = without token user.tokens;
            refresh_token = none;
            refresh_token_expires = none;
          })
          pure db (answer 200 "Logged out successfully" []))
        (λ e. failure 500 "Logout failed. Please try again later.")

  unfoldable pub logout_all : Principal → World db → Response × World db
  unfolding ◌>>=◌ save
  logout_all principal =
      try_catch db
        (do
          user ← as_document db principal
          save db env false
              (record user { tokens = []; refresh_token = none; refresh_token_expires = none })
          pure db (answer 200 "Logged out from all devices successfully" []))
        (λ e. failure 500 "Logout failed. Please try again later.")
