-- ===== src/Accounts/Profile.antt =====
-- getProfile, updateProfile, generateApiKey and deleteApiKey of
-- fabric/application/controllers/authController.js.
use sustainable_fashion_chai.Prelude.{
  String, false, not, Option, none, some, List, [], ◌∷◌, ◌==◌, any, all, if◌then◌else◌,
}
use sustainable_fashion_chai.Json.{str, obj}
use sustainable_fashion_chai.Accounts.Types.{User}
use sustainable_fashion_chai.Accounts.Action.{Users, Env, World, ◌>>=◌, ◌>>◌, pure, try_catch}
use sustainable_fashion_chai.Accounts.Model.{to_json, save, generate_api_key}
use sustainable_fashion_chai.Accounts.Response.{Response, failure, answer, Principal, as_document}

abbrev pub allowed_updates : List String
allowed_updates = "firstName" ∷ "lastName" ∷ "bio" ∷ "walletAddress" ∷ "profileImage" ∷ []

-- updates[field], of texts
abbrev pub update_of : String → List (String × String) → Option String
update_of k [] = none
update_of k ((j, v) ∷ updates) = if j == k then some v else update_of k updates

abbrev pub or_old : {A : Type 0} → Option A → A → A
or_old none a = a
or_old (some b) a = b

abbrev pub kept_or : Option String → Option String → Option String
kept_or none old = old
kept_or (some v) old = some v

abbrev pub cast_update : (String → String) → Option String → Option String
cast_update f none = none
cast_update f (some v) = some (f v)

-- The assignments of updateProfile, through the setters of the schema.
unfoldable pub apply_updates : Env → List (String × String) → User → User
apply_updates env updates user = record user {
  first_name = or_old (cast_update env.cast_name (update_of "firstName" updates)) user.first_name;
  last_name = or_old (cast_update env.cast_name (update_of "lastName" updates)) user.last_name;
  bio = kept_or (update_of "bio" updates) user.bio;
  wallet_address =
      kept_or (cast_update env.cast_name (update_of "walletAddress" updates)) user.wallet_address;
  profile_image = kept_or (update_of "profileImage" updates) user.profile_image;
}

module _ (db : Users) (env : Env) where
  unfoldable pub get_profile : Principal → World db → Response × World db
  unfolding ◌>>=◌
  get_profile principal =
      try_catch db
        (do
          user ← as_document db principal
          pure db (record {
            status = 200;
            body = sustainable_fashion_chai.Json.fields (("user", obj (to_json user)) ∷ []);
          }))
        (λ e. failure 500 "Failed to retrieve profile")

  unfoldable pub update_profile :
      Principal → List (String × String) → World db → Response × World db
  unfolding ◌>>=◌ save
  update_profile principal updates =
      try_catch db
        (if not (all (λ u. any (λ a. a == u.0) allowed_updates) updates)
          then pure db (failure 400 "Invalid updates")
          else (do
            user ← as_document db principal
            user' ← save db env false (apply_updates env updates user)
            pure db
                (answer 200 "Profile updated successfully" (("user", obj (to_json user')) ∷ []))))
        (λ e. failure 500 "Failed to update profile")

  unfoldable pub generate_api_key_route : Principal → World db → Response × World db
  unfolding ◌>>=◌ generate_api_key
  generate_api_key_route principal =
      try_catch db
        (do
          user ← as_document db principal
          made ← generate_api_key db env user
          pure db (answer 200 "API key generated successfully" (("apiKey", str made.0) ∷ [])))
        (λ e. failure 500 "Failed to generate API key")

  unfoldable pub delete_api_key : Principal → World db → Response × World db
  unfolding ◌>>=◌ save
  delete_api_key principal =
      try_catch db
        (do
          user ← as_document db principal
          save db env false (record user { api_key = none; api_key_created = none })
          pure db (answer 200 "API key deleted successfully" []))
        (λ e. failure 500 "Failed to delete API key")
