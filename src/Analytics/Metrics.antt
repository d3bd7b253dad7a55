-- ===== src/Analytics/Metrics.antt =====
-- What the analytics service counts, and what it sees of the platform and of the chains: the parts
-- of bridging/services/analyticsService.js that its methods share.
use sustainable_fashion_chai.Prelude.{
  ◌∷◌, [], List, suc, zero, join, if◌then◌else◌, ◌==◌, Table, update, ℕ, ◌<◌, String, ◌≡◌, refl,
  Bool, true, false, Option, ◌+◌,
}
use sustainable_fashion_chai.Number.{Number, whole}
use sustainable_fashion_chai.Json.{
  is_inherited, Value, undefined, null, str, obj, arr, Fields, nil, cons, get, truthy, elements,
}
use sustainable_fashion_chai.Json.Compare.{above_value}
use sustainable_fashion_chai.Fabric.{type_error, Result, ok, err}

-- A double: `none` is not finite.
abbrev pub Double : Type 0
Double = Option Number

-- The clock in milliseconds since 1970; Number(text), String(v) and parseFloat(v); a + b and a *
-- 30; the month of `new Date(v)` in the local time, as 'YYYY-MM' or 'NaN-NaN', no inherited name;
-- (a / b * 100).toFixed(1); whether connecting to Fabric works; the parsed reply of
-- evaluateTransaction('queryProductsByType', type), which the contract builds of objects; whether
-- both contracts on Ethereum are there after connecting to it; and the total supply of the token
-- in ether, unless the call throws.
pub record Env : Type 0 where
  pub now : ℕ
  pub after_1970 : 0 < now
  pub number_of : String → Option Number
  pub text : Value → String
  -- String(Object.prototype[k])
  pub native : String → String
  pub parse_float : Value → Double
  pub plus : Double → Double → Double
  pub times_30 : Double → Double
  pub month_of : Value → String
  pub percent : ℕ → ℕ → String
  pub connect : Result (Unit {0})
  pub query : String → Result (List Fields)
  pub ethereum : Bool
  pub total_supply : Option Double

infixl 5 ◌>>=◌
unfoldable pub ◌>>=◌ : {A B : Type 0} → Result A → (A → Result B) → Result B
ok a >>= f = f a
err e >>= f = err e

pub bind_ok :
    {A B : Type 0} (m : Result A) (f : A → Result B) (b : B)
    → (m >>= f) ≡ ok b
    → (a : A) × (m ≡ ok a) × (f a ≡ ok b)
unfolding ◌>>=◌
bind_ok (ok a) f b e = (a, refl, e)
bind_ok (err x) f b e = cc

-- What stands under a name that was counted: a number, or a text. `String(f) + '1'` comes about
-- under a name that every object inherits, where the first sum is that of a function.
pub data Count : Type 0 where
  number : ℕ → Count
  text : String → Count

-- n + 1
abbrev pub plus_one : Count → Count
plus_one (number n) = number (n + 1)
plus_one (text s) = text (join (s ∷ "1" ∷ []))

-- The first count under a name; `native` is the text of what every object inherits under it.
abbrev pub first_count : (native : String → String) → String → Count
first_count native k = if is_inherited k then text (native k) else number 0

-- m[k] = (m[k] || 0) + 1; a text is not taken as the prototype of m.
unfoldable pub bump : (native : String → String) → String → Table Count → Table Count
bump native k m = if k == "__proto__" then m else update (first_count native k) plus_one k m

-- What stands under a name, to begin with as `first_count` has it, once it was counted `n` times.
abbrev pub times : ℕ → Count → Count
times zero c = c
times (suc n) c = times n (plus_one c)

abbrev pub counted : (native : String → String) → String → ℕ → Count
counted native k n =
    if k == "__proto__"
    then text (native k)
    else if is_inherited k
    then times n (text (native k))
    else number n

-- v && v.length > 0
unfoldable pub has_entries : Env → Value → Bool
has_entries env (arr nil) = false
has_entries env (arr (cons v vs)) = true
has_entries env (obj fs) = above_value env.number_of (get "length" fs) (whole 0)
has_entries env (str s) = truthy (str s)
has_entries env _ = false

-- The elements that v.filter and v.forEach go through; only an array has these methods.
unfoldable pub list_of : Value → Result (List Value)
list_of (arr vs) = ok (elements vs)
list_of _ = err type_error

-- v.k, for a name k that no text, number or array has
unfoldable pub property : String → Value → Result Value
property k undefined = err type_error
property k null = err type_error
property k (obj fs) = ok (get k fs)
property k _ = ok undefined
