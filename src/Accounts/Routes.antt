-- ===== src/Accounts/Routes.antt =====
-- The routes of fabric/application/routes/authRoutes.js behind authenticateToken: the handler gets
-- the payload of the token as req.user, and nothing sets req.token.
use sustainable_fashion_chai.Prelude.{
  String, ◌≡◌, refl, Bool, true, false, Option, none, some, List, Bool-cases, inl, inr, nat_eq, not,
  all, any, ◌==◌,
}
use sustainable_fashion_chai.Accounts.Types.{Claims}
use sustainable_fashion_chai.Accounts.Action.{Users, Env, World, ◌>>=◌}
use sustainable_fashion_chai.Accounts.Access.{Request, authenticate_token}
use sustainable_fashion_chai.Accounts.Response.{Response, Principal, claims}
use sustainable_fashion_chai.Accounts.Login
use sustainable_fashion_chai.Accounts.Recovery
use sustainable_fashion_chai.Accounts.Profile

pub data Route : Type 0 where
  logout logout_all get_profile generate_api_key delete_api_key : Route
  update_profile : List (String × String) → Route
  change_password : (current_password new_password : String) → Route

pub data Reply : Type 0 where
  to_login : Reply
  answered : Response → Reply

abbrev pub is_change : Route → Bool
is_change (change_password current_password new_password) = true
is_change _ = false

-- status 200
abbrev pub succeeded : Reply → Bool
succeeded to_login = false
succeeded (answered r) = nat_eq r.status 200

module _ (db : Users) (env : Env) where
  unfoldable pub handle : Route → Principal → Option String → World db → Response × World db
  handle logout user token = Login.logout db env user token
  handle logout_all user token = Login.logout_all db env user
  handle get_profile user token = Profile.get_profile db env user
  handle generate_api_key user token = Profile.generate_api_key_route db env user
  handle delete_api_key user token = Profile.delete_api_key db env user
  handle (update_profile updates) user token = Profile.update_profile db env user updates
  handle (change_password current_password new_password) user token =
      Recovery.change_password db env user token current_password new_password

  abbrev served : Route → Option Claims → World db → Reply × World db
  served route none w = (to_login, w)
  served route (some c) w = let (r, w') = handle route (claims c) none w in (answered r, w')

  unfoldable pub serve : Request → Route → World db → Reply × World db
  unfolding handle
  serve req route w = served route (authenticate_token env req) w

  claims_only :
      (route : Route) (c : Claims) (w : World db)
      → is_change route ≡ false
      → (succeeded (served route (some c) w).0 ≡ false) × ((served route (some c) w).1 ≡ w)
  unfolding handle ◌>>=◌ Login.logout Login.logout_all Profile.get_profile Profile.update_profile
      Profile.generate_api_key_route Profile.delete_api_key
  claims_only logout c w h = (refl, refl)
  claims_only logout_all c w h = (refl, refl)
  claims_only get_profile c w h = (refl, refl)
  claims_only generate_api_key c w h = (refl, refl)
  claims_only delete_api_key c w h = (refl, refl)
  claims_only (update_profile updates) c w h =
      elim (Bool-cases (not (all (λ u. any (λ a. a == u.0) Profile.allowed_updates) updates))) [
        | inl bad ↦ rw bad (refl, refl)
        | inr good ↦ rw good (refl, refl)
      ]
  claims_only (change_password a b) c w h = cc h

  -- Behind authenticateToken, whatever the request, no route but the one that changes a password
  -- answers with status 200, and none of them changes anything: the handlers call the methods of a
  -- document on the payload of the token.
  pub serve_fails :
      (req : Request) (route : Route) (w : World db)
      → is_change route ≡ false
      → (succeeded (serve req route w).0 ≡ false) × ((serve req route w).1 ≡ w)
  unfolding serve
  serve_fails req route w h = by_token (authenticate_token env req)
    where
      by_token :
          (o : Option Claims)
          → (succeeded (served route o w).0 ≡ false) × ((served route o w).1 ≡ w)
      by_token none = (refl, refl)
      by_token (some c) = claims_only route c w h
