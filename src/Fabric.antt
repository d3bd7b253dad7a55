-- ===== src/Fabric.antt =====
-- The part of the Fabric chaincode API (`ctx.stub`, `ctx.clientIdentity`) that the contract uses,
-- and `transactionTimestamp` of fabric/chaincode/supplychain/index.js. The platform itself is a
-- parameter: a transaction reads a committed state through `read`, and its writes and events are
-- collected in order. A throw discards them, since the peer then endorses nothing.
pub mod Returns
pub mod Ledger
use sustainable_fashion_chai.Prelude.{
  ℕ, ◌+◌, ◌*◌, ◌/◌, String, Bool, true, false, Option, none, some, List, [], ◌∷◌, ◌++◌, decimal,
}
use sustainable_fashion_chai.Number.{Number}
use sustainable_fashion_chai.Json.{Value, str, Fields}

-- What is stored under a key: a JSON object, as everything that the source writes, or bytes that
-- JSON.parse refuses. Absent and empty bytes are one case, as in every test of the source.
pub data Stored : Type 0 where
  document : Fields → Stored
  malformed : Stored

pub data Error : Type 0 where
  message : String → Error
  type_error syntax_error : Error

pub data Result {ℓ} (A : Type ℓ) : Type ℓ where
  ok : A → Result A
  err : Error → Result A

pub data Effect : Type 0 where
  put : String → Fields → Effect
  event : String → Value → Effect

pub record Env : Type 0 where
  pub read : String → Option Stored
  -- what the iterator of stub.getStateByRange('', '') yields
  pub range : List (String × Stored)
  pub seconds : ℕ
  pub nanos : ℕ
  pub tx_id : String
  pub client_id : String
  -- clientIdentity.assertAttributeValue(name, value)
  pub has_attribute : String → String → Bool
  -- Number(text), if finite; String(number); a / b
  pub number_of : String → Option Number
  pub show_number : Number → String
  pub quotient : Number → Number → Number
  -- JSON.parse(text), unless it throws
  pub parse : String → Option Value

abbrev pub Exec : Type 0 → Type 0
Exec A = List Effect → Result (A × List Effect)

pub pure : {A : Type 0} → A → Exec A
pure a w = ok (a, w)

pub raise : {A : Type 0} → Error → Exec A
raise e w = err e

abbrev checked : Bool → Error → List Effect → Result (Unit {0} × List Effect)
checked true e w = ok (tt, w)
checked false e w = err e

-- if (!b) throw e
pub ensure : Bool → Error → Exec (Unit {0})
ensure b e w = checked b e w

abbrev lift_result : {A : Type 0} → Result A → List Effect → Result (A × List Effect)
lift_result (ok a) w = ok (a, w)
lift_result (err e) w = err e

pub lift : {A : Type 0} → Result A → Exec A
lift r w = lift_result r w

-- await ctx.stub.putState(key, Buffer.from(JSON.stringify(doc)))
pub put_state : String → Fields → Exec (Unit {0})
put_state k d w = ok (tt, w ++ put k d ∷ [])

-- ctx.stub.setEvent(name, payload)
pub set_event : String → Value → Exec (Unit {0})
set_event n v w = ok (tt, w ++ event n v ∷ [])

infixl 5 ◌>>=◌ ◌>>◌
abbrev continue :
    {A B : Type 0} → Result (A × List Effect) → (A → Exec B) → Result (B × List Effect)
continue (ok (a, w)) f = f a w
continue (err e) f = err e

-- Opening this opens the actions above too.
unfoldable pub ◌>>=◌ : {A B : Type 0} → Exec A → (A → Exec B) → Exec B
unfolding pure raise ensure lift put_state set_event
◌>>=◌ m f w = continue (m w) f

unfoldable pub ◌>>◌ : {A B : Type 0} → Exec A → Exec B → Exec B
unfolding ◌>>=◌
m >> n = m >>= λ _. n

-- JSON.parse of the bytes read, after the source's test that there are some.
abbrev pub parsed : Error → Option Stored → Result Fields
parsed e none = err e
parsed e (some malformed) = err syntax_error
parsed e (some (document d)) = ok d

-- bytes && bytes.length
abbrev pub present : Option Stored → Bool
present none = false
present (some s) = true

module _ (env : Env) where
  abbrev pub load : String → Error → Exec Fields
  load k e = lift (parsed e (env.read k))

  abbrev pub exists : String → Bool
  exists k = present (env.read k)

  -- (BigInt(seconds) * 1000n + BigInt(Math.floor(nanos / 1000000))).toString()
  unfoldable pub transaction_timestamp : Value
  transaction_timestamp = str (decimal (env.seconds * 1000 + env.nanos / 1000000))

  abbrev parse_result : Option Value → Result Value
  parse_result none = err syntax_error
  parse_result (some v) = ok v

  -- JSON.parse(text)
  abbrev pub parse_json : String → Exec Value
  parse_json s = lift (parse_result (env.parse s))
