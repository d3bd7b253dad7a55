-- ===== src/Accounts/Access.antt =====
-- fabric/application/middleware/auth.js: the token of a request, and who may pass a route.
pub mod Granted
use Prim.Native.Char.{code}
use Prim.Native.String
use text.Mathlib.Text.{starts_with}
use sustainable_fashion_chai.Prelude.{
  ℕ, String, Bool, true, false, not, ◌&&◌, ◌||◌, Option, none, some, List, [], ◌∷◌, ◌==◌, any, all,
  nat_eq, join, if◌then◌else◌,
}
use sustainable_fashion_chai.Accounts.Types.{Claims}
use sustainable_fashion_chai.Accounts.Action.{Env}

-- The parts of a request that authenticateToken reads.
pub record Request : Type 0 where
  pub authorization : Option String
  pub cookie_token : Option String
  pub query_token : Option String

-- next(), res.redirect('/login'), or the page of status 403
pub data Gate : Type 0 where
  passed redirected denied : Gate

-- What follows the first `c` of a text, and what precedes it.
abbrev pub after_first : ℕ → String → Option String
after_first c String.[] = none
after_first c (String.◌∷◌ a s) =
    let rest = after_first c s in if nat_eq (code a) c then some s else rest

abbrev pub before_first : ℕ → String → String
before_first c String.[] = ""
before_first c (String.◌∷◌ a s) =
    let rest = before_first c s in if nat_eq (code a) c then "" else String.◌∷◌ a rest

abbrev pub ends_with : String → String → Bool
ends_with String.[] t = String.[] == t
ends_with (String.◌∷◌ a s) t = String.◌∷◌ a s == t || ends_with s t

-- v?.split(' ')[1]
abbrev pub second_word : Option String → Option String
second_word none = none
second_word (some s) = elim (after_first b' ' s) [
  | none ↦ none
  | some t ↦ some (before_first b' ' t)
]

-- v || w, of texts
abbrev pub or_next : Option String → Option String → Option String
or_next none w = w
or_next (some s) w = if s == "" then w else some s

abbrev verified : Env → Option String → Option Claims
verified env none = none
verified env (some token) = if token == "" then none else env.verify env.now token

-- The payload that becomes req.user; `none` is the redirection to the login page.
unfoldable pub authenticate_token : Env → Request → Option Claims
authenticate_token env req =
    verified env
      (or_next (second_word req.authorization) (or_next req.cookie_token req.query_token))

-- PERMISSIONS[role] || []
unfoldable pub permissions_of : String → List String
permissions_of role =
    if role == "admin"
    then "*" ∷ []
    else if role == "manager"
    then "read:*" ∷ "write:batches" ∷ "write:products" ∷ "write:certifications"
      ∷ "approve:tokenization" ∷ []
    else if role == "producer"
    then "read:batches" ∷ "write:batches" ∷ "read:certifications" ∷ []
    else if role == "manufacturer"
    then "read:batches" ∷ "read:certifications" ∷ "write:products" ∷ []
    else if role == "retailer"
    then "read:products" ∷ "read:batches" ∷ "read:certifications" ∷ []
    else if role == "certifier"
    then "read:batches" ∷ "write:certifications" ∷ []
    else if role == "consumer"
    then "read:products" ∷ "verify:products" ∷ []
    else []

abbrev gate : Bool → Gate
gate b = if b then passed else denied

unfoldable pub authorize_role : List String → Option Claims → Gate
authorize_role allowed none = redirected
authorize_role allowed (some user) =
    gate (user.role == "admin" || any (λ r. r == user.role) allowed)

-- p allows the permission
abbrev pub matches : (permission p : String) → Bool
matches permission p =
    if ends_with p ":*"
    then starts_with permission (String.◌++◌ (before_first b':' p) ":")
    else p == permission

abbrev pub has_one : String → String → Bool
has_one role permission =
    role == "admin"
    || any (λ p. p == "*") (permissions_of role)
    || any (matches permission) (permissions_of role)

unfoldable pub authorize_permission : List String → Option Claims → Gate
unfolding permissions_of
authorize_permission required none = redirected
authorize_permission required (some user) = gate (all (has_one user.role) required)
