-- ===== src/Accounts/Types.antt =====
-- The data of fabric/application/models/User.js: roles, kinds of organizations, and a document of
-- the user schema. A property that is null or undefined is `none`; a date is its milliseconds.
use sustainable_fashion_chai.Prelude.{ℕ, String, Bool, Option, List, [], ◌∷◌}

pub record Organization : Type 0 where
  pub id : String
  pub name : String
  pub kind : String

pub record User : Type 0 where
  pub id : String
  pub username : String
  pub email : String
  pub password : String
  pub first_name : String
  pub last_name : String
  pub role : String
  pub organization : Organization
  pub wallet_address : Option String
  pub profile_image : Option String
  pub bio : Option String
  pub active : Bool
  pub last_login : Option ℕ
  pub password_reset_token : Option String
  pub password_reset_expires : Option ℕ
  pub api_key : Option String
  pub api_key_created : Option ℕ
  pub refresh_token : Option String
  pub refresh_token_expires : Option ℕ
  pub email_verified : Bool
  pub email_verification_token : Option String
  pub email_verification_expires : Option ℕ
  pub failed_login_attempts : ℕ
  pub lock_until : Option ℕ
  pub tokens : List String

abbrev pub roles : List String
roles =
    "admin" ∷ "manager" ∷ "producer" ∷ "manufacturer" ∷ "retailer" ∷ "certifier" ∷ "consumer" ∷ []

abbrev pub org_types : List String
org_types = "farm" ∷ "warehouse" ∷ "factory" ∷ "certification_body" ∷ "retail_store" ∷ []

-- What generateAuthToken signs: `_id`, role, orgId and username.
pub record Claims : Type 0 where
  pub id : String
  pub role : String
  pub org_id : String
  pub username : String
