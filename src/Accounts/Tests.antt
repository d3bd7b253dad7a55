-- ===== src/Accounts/Tests.antt =====
-- One account in memory: guesses, a reset, a login, and routes behind a token.
use sustainable_fashion_chai.Prelude.{
  text_length, ℕ, ◌≤◌, ◌<◌, ◌+◌, String, ◌≡◌, ◌≢◌, ◌↔◌, refl, true, false, none, some, List, [],
  ◌∷◌, ◌++◌, ◌==◌, eq_iff, All, arith, join, nat_eq, if◌then◌else◌,
}
use sustainable_fashion_chai.Fabric.{message}
use sustainable_fashion_chai.Accounts.Types.{User, Claims}
use sustainable_fashion_chai.Accounts.Action.{Env, World, ◌>>=◌, ◌>>◌}
use sustainable_fashion_chai.Accounts.Store.{Sole}
use sustainable_fashion_chai.Accounts.Memory.{memory, memory-IsUp}
use sustainable_fashion_chai.Accounts.Model.{
  to_json, pre_save, save, reset_failures, check_password, find_by_credentials, generate_auth_token,
  generate_refresh_token,
}
use sustainable_fashion_chai.Accounts.Private.{public_profile, to_json-public}
use sustainable_fashion_chai.Accounts.Access.{
  Request, passed, permissions_of, authenticate_token, authorize_permission,
}
use sustainable_fashion_chai.Accounts.Access.Granted.{Granted, authorize_permission_iff}
use sustainable_fashion_chai.Accounts.Lockout.{at}
use sustainable_fashion_chai.Accounts.Lockout.Store.{compared}
use sustainable_fashion_chai.Accounts.Response.{failure, answer, Site}
use sustainable_fashion_chai.Accounts.Login.{login, login_action, open_session}
use sustainable_fashion_chai.Accounts.Recovery.{
  email_exists, may_reset, reset_mail, reset_password, forgot_password,
}
use sustainable_fashion_chai.Accounts.Reset.{WasReset, reset_password-WasReset}
use sustainable_fashion_chai.Accounts.Forgot.{has_email, forgot_password_same, forgot_password_lem}
use sustainable_fashion_chai.Accounts.Credentials.{Recognized, login_granted}
use sustainable_fashion_chai.Accounts.Routes.{logout, serve, serve_fails, succeeded}

abbrev owner : User
owner = record {
  id = "1";
  username = "ann";
  email = "ann@farm.org";
  password = "salted secret";
  first_name = "Ann";
  last_name = "Lee";
  role = "manager";
  organization = record { id = "org"; name = "Farm"; kind = "farm" };
  wallet_address = none;
  profile_image = none;
  bio = none;
  active = true;
  last_login = none;
  password_reset_token = none;
  password_reset_expires = none;
  api_key = none;
  api_key_created = none;
  refresh_token = some "refresh";
  refresh_token_expires = some 604800000;
  email_verified = true;
  email_verification_token = none;
  email_verification_expires = none;
  failed_login_attempts = 0;
  lock_until = none;
  tokens = [];
}

abbrev env : Env
env = record {
  now = 1000;
  random = λ n. "r";
  hash = λ salt p. join (salt ∷ " " ∷ p ∷ []);
  compare = λ p h. h == join ("salted " ∷ p ∷ []);
  sha256 = λ s. s;
  sign = λ t c. "token";
  verify = λ t s.
      if s == "token"
      then some (record { id = "1"; role = "manager"; org_id = "org"; username = "ann" })
      else none;
  cast_name = λ s. s;
  cast_email = λ s. s;
  describe = λ e. "";
  too_short = λ p. message "too short";
}

abbrev world : World memory
world = record { users = owner ∷ []; drawn = 0; mails = [] }

accounts : Unit {0}
unfolding ◌>>=◌ ◌>>◌ join login login_action open_session find_by_credentials check_password
    reset_failures save pre_save generate_auth_token generate_refresh_token compared
accounts = tt

-- The collection `owner ∷ []` has no other document.
only_owner : (j : String) (v : User) → memory.by_id (owner ∷ []) j ≡ some v → j ≡ "1"
only_owner j v e = ground (arith, eq_iff "1" j)

abbrev guesses : List (ℕ × String)
guesses = (1000, "a") ∷ (1001, "b") ∷ (1002, "c") ∷ (1003, "d") ∷ (1004, "e") ∷ (1005, "f") ∷ []

-- Six guesses, of which the sixth meets the lock.
six_guesses : compared memory memory-IsUp env "ann" "1" guesses world ≡ 5
unfolding accounts
six_guesses = refl

-- The owner with a reset token, and the reset.
abbrev forgetful : User
forgetful = record owner { password_reset_token = some "r"; password_reset_expires = some 2000 }

abbrev asked : World memory
asked = record { users = forgetful ∷ []; drawn = 0; mails = [] }

only_forgetful : (j : String) (v : User) → memory.by_id (forgetful ∷ []) j ≡ some v → j ≡ "1"
only_forgetful j v e = ground (arith, eq_iff "1" j)

Sole-forgetful : Sole memory (may_reset env "r") "1" (forgetful ∷ []) forgetful
Sole-forgetful = record {
  found = refl;
  named = refl;
  sole = λ j v there m. only_forgetful j v there;
}

given_new : ◌≢◌ {A = String} "new secret" ""
given_new = ground (arith, eq_iff "new secret" "")

new_password : ◌≢◌ {A = String} "new secret" "salted secret"
new_password = ground (arith, eq_iff "new secret" "salted secret")

long_password : 8 ≤ text_length "new secret"
unfolding text_length
long_password = omega arith

given_again : ◌≢◌ {A = String} "other one" ""
given_again = ground (arith, eq_iff "other one" "")

given_brief : ◌≢◌ {A = String} "brief" ""
given_brief = ground (arith, eq_iff "brief" "")

brief_password : ◌≢◌ {A = String} "brief" forgetful.password
brief_password = ground (arith, eq_iff "brief" forgetful.password)

short_password : text_length "brief" < 8
unfolding text_length
short_password = omega arith

reset_password-WasReset_example :
    ((reset_password memory env "r" "new secret" asked).0.status ≡ 200)
    × ((v : User) × (memory.by_id (reset_password memory env "r" "new secret" asked).1.users "1"
          ≡ some v)
        × WasReset memory memory-IsUp env "new secret" "r" forgetful v)
    × (reset_password memory env "r" "other one"
          (reset_password memory env "r" "new secret" asked).1
        ≡ (
          failure 400 "Password reset token is invalid or has expired",
          (reset_password memory env "r" "new secret" asked).1,
        ))
    × (reset_password memory env "r" "brief" asked
        ≡ (failure 500 "Failed to reset password", asked))
reset_password-WasReset_example =
    reset_password-WasReset memory memory-IsUp env "r" "new secret" "other one" "brief" "1" asked
      forgetful Sole-forgetful given_new new_password long_password given_again given_brief
      brief_password short_password

abbrev site : Site
site = record { protocol = "https"; host = "sfc.example" }

given_email : ◌≢◌ {A = String} "ann@farm.org" ""
given_email = ground (arith, eq_iff "ann@farm.org" "")

given_other : ◌≢◌ {A = String} "bob@farm.org" ""
given_other = ground (arith, eq_iff "bob@farm.org" "")

forgot_password_same_example :
    (forgot_password memory env site "bob@farm.org" world).0 ≡ answer 200 email_exists []
forgot_password_same_example =
    forgot_password_same memory memory-IsUp env site "bob@farm.org" world given_other

Sole-email :
    Sole memory (has_email memory memory-IsUp env site "ann@farm.org") "1" (owner ∷ []) owner
Sole-email = record { found = refl; named = refl; sole = λ j v there m. only_owner j v there }

soon : 5000 < 1000 + 3600000
soon = omega arith

forgot_password_lem_example :
    ((forgot_password memory env site "ann@farm.org" world).1.mails
      ≡ [] ++ reset_mail site "ann@farm.org" "r" ∷ [])
    × ((v : User) × (memory.by_id (forgot_password memory env site "ann@farm.org" world).1.users "1"
          ≡ some v)
        × (may_reset (at env 5000) "r" v ≡ true))
forgot_password_lem_example =
    forgot_password_lem memory memory-IsUp env site "ann@farm.org" "1" world owner given_email
      Sole-email 5000 soon

logged_in : nat_eq (login memory env "ann" "secret" world).0.status 200 ≡ true
unfolding accounts
logged_in = refl

login_granted_example :
    (u : User) × Recognized memory env "ann" "secret" world u × (u.active ≡ true)
login_granted_example = login_granted memory env "ann" "secret" world logged_in

to_json-public_example :
    (to_json owner ≡ public_profile owner)
    × (to_json (record owner {
      password = "other";
      tokens = "token" ∷ [];
      api_key = some "key";
      password_reset_token = some "r";
      password_reset_expires = some 2000;
      email_verification_token = some "v";
      email_verification_expires = some 3000;
      refresh_token = none;
      refresh_token_expires = none;
      failed_login_attempts = 4;
      lock_until = some 5000;
    })
        ≡ to_json owner)
to_json-public_example =
    to_json-public owner "other" ("token" ∷ []) (some "key") (some "r") (some "v") none (some 2000)
      (some 3000) none (some 5000) 4

abbrev manager : Claims
manager = record { id = "1"; role = "manager"; org_id = "org"; username = "ann" }

reads_all : authorize_permission ("read:anything" ∷ []) (some manager) ≡ passed
unfolding authorize_permission permissions_of
reads_all = refl

authorize_permission_iff_example :
    (authorize_permission ("read:anything" ∷ "write:batches" ∷ []) (some manager) ≡ passed)
    ↔ All (Granted "manager") ("read:anything" ∷ "write:batches" ∷ [])
authorize_permission_iff_example =
    authorize_permission_iff ("read:anything" ∷ "write:batches" ∷ []) manager

abbrev request : Request
request = record { authorization = some "Bearer token"; cookie_token = none; query_token = none }

reaches : authenticate_token env request ≡ some manager
unfolding authenticate_token
reaches = refl

serve_fails_example :
    (succeeded (serve memory env request logout world).0 ≡ false)
    × ((serve memory env request logout world).1 ≡ world)
serve_fails_example = serve_fails memory env request logout world refl
