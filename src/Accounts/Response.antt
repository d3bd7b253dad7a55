-- ===== src/Accounts/Response.antt =====
-- The answers of the handlers in fabric/application/controllers/authController.js, and the user
-- that a request carries.
use sustainable_fashion_chai.Prelude.{ℕ, String, List, [], ◌∷◌, ◌==◌, if◌then◌else◌}
use sustainable_fashion_chai.Json.{Value, str, Fields, fields}
use sustainable_fashion_chai.Fabric.{Error, message, type_error}
use sustainable_fashion_chai.Accounts.Types.{User, Claims}
use sustainable_fashion_chai.Accounts.Action.{Users, Env, Act, pure, throw}

-- res.status(status).json(body)
pub record Response : Type 0 where
  pub status : ℕ
  pub body : Fields

abbrev pub failure : ℕ → String → Response
failure status text = record { status = status; body = fields (("error", str text) ∷ []) }

abbrev pub answer : ℕ → String → List (String × Value) → Response
answer status text more = record { status = status; body = fields (("message", str text) ∷ more) }

-- error.message || text
abbrev pub message_or : Env → String → Error → String
message_or env text (message m) = if m == "" then text else m
message_or env text e = if env.describe e == "" then text else env.describe e

-- What stands in req.user: a document of the users collection, or the payload of a token.
pub data Principal : Type 0 where
  document : User → Principal
  claims : Claims → Principal

abbrev pub username_of : Principal → String
username_of (document u) = u.username
username_of (claims c) = c.username

-- A call of a method that only documents have.
abbrev pub as_document : (db : Users) → Principal → Act db User
as_document db (document u) = pure db u
as_document db (claims c) = throw db type_error

-- The protocol and the Host header of a request.
pub record Site : Type 0 where
  pub protocol : String
  pub host : String
