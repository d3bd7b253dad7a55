-- ===== src/Accounts/Private.antt =====
-- What toJSON of fabric/application/models/User.js shows of a user.
use sustainable_fashion_chai.Prelude.{String, ◌≡◌, refl, ℕ, Option, List, [], ◌∷◌}
use sustainable_fashion_chai.Json.{str, bool, object, Fields, fields}
use sustainable_fashion_chai.Accounts.Types.{User}
use sustainable_fashion_chai.Accounts.Model.{
  remove, to_object, to_json, text_or_undefined, date_or_undefined,
}

-- The user as others may see it.
abbrev pub public_profile : User → Fields
public_profile u = fields (
    ("_id", str u.id)
    ∷ ("username", str u.username)
    ∷ ("email", str u.email)
    ∷ ("firstName", str u.first_name)
    ∷ ("lastName", str u.last_name)
    ∷ ("role", str u.role)
    ∷ (
      "organization",
      object (
          ("id", str u.organization.id)
          ∷ ("name", str u.organization.name)
          ∷ ("type", str u.organization.kind)
          ∷ []),
    )
    ∷ ("walletAddress", text_or_undefined u.wallet_address)
    ∷ ("profileImage", text_or_undefined u.profile_image)
    ∷ ("bio", text_or_undefined u.bio)
    ∷ ("active", bool u.active)
    ∷ ("lastLogin", date_or_undefined u.last_login)
    ∷ ("apiKeyCreated", date_or_undefined u.api_key_created)
    ∷ ("emailVerified", bool u.email_verified)
    ∷ [])

-- toJSON shows of the fields of the schema those of the public profile (the id, the names, the
-- addresses, the role, the organization, the image, the bio, whether the account is active and
-- verified, the last login and the time of the API key) and no other; and it answers the same
-- whatever the password, the session, refresh, reset and verification tokens with their expiry, the
-- API key, the failed logins and the lock are.
pub to_json-public :
    (user : User) (password : String) (tokens : List String)
    (api_key reset_token verification_token refresh_token : Option String)
    (reset_expires verification_expires refresh_expires lock_until : Option ℕ) (failures : ℕ)
    → (to_json user ≡ public_profile user)
      × (to_json (record user {
        password = password;
        tokens = tokens;
        api_key = api_key;
        password_reset_token = reset_token;
        password_reset_expires = reset_expires;
        email_verification_token = verification_token;
        email_verification_expires = verification_expires;
        refresh_token = refresh_token;
        refresh_token_expires = refresh_expires;
        failed_login_attempts = failures;
        lock_until = lock_until;
      })
          ≡ to_json user)
unfolding to_json to_object remove
to_json-public user password tokens api_key reset_token verification_token refresh_token
      reset_expires verification_expires refresh_expires lock_until failures =
    (refl, refl)
