-- ===== src/Json.antt =====
-- Values of JavaScript as the source handles them: what JSON.parse returns, and `undefined`. A
-- function, a date or a symbol is never stored or read by the modelled code.
pub mod Laws
pub mod Compare
use sustainable_fashion_chai.Prelude.{
  any, String, ◌≡◌, Bool, true, false, not, ◌&&◌, List, [], ◌∷◌, ◌==◌, if◌then◌else◌,
}
use sustainable_fashion_chai.Number.{Number, whole, same}

mutual
  pub data Value : Type 0 where
    undefined null : Value
    bool : Bool → Value
    num : Number → Value
    str : String → Value
    obj : Fields → Value
    arr : Items → Value

  -- An object's own properties, in insertion order.
  pub data Fields : Type 0 where
    end : Fields
    field : String → Value → Fields → Fields

  pub data Items : Type 0 where
    nil : Items
    cons : Value → Items → Items

-- The names that every object inherits from Object.prototype: an object literal that is used as a
-- table has something under each of them, and takes no own property under `__proto__` from o[k] =
-- v.
abbrev pub prototype_names : List String
prototype_names =
    "constructor" ∷ "toString" ∷ "toLocaleString" ∷ "valueOf" ∷ "hasOwnProperty" ∷ "isPrototypeOf"
    ∷ "propertyIsEnumerable" ∷ "__proto__" ∷ "__defineGetter__" ∷ "__defineSetter__"
    ∷ "__lookupGetter__" ∷ "__lookupSetter__" ∷ []

unfoldable pub is_inherited : String → Bool
is_inherited k = any (λ n. n == k) prototype_names

-- o[k]; a missing property reads as `undefined`.
unfoldable pub get : String → Fields → Value
get k end = undefined
get k (field j v fs) = if j == k then v else get k fs

-- o[k] = v
unfoldable pub set : String → Value → Fields → Fields
set k v end = field k v end
set k v (field j w fs) = if j == k then field j v fs else field j w (set k v fs)

-- An object literal.
abbrev pub fields : List (String × Value) → Fields
fields [] = end
fields ((k, v) ∷ ps) = field k v (fields ps)

abbrev pub object : List (String × Value) → Value
object ps = obj (fields ps)

-- Object.keys(o)
abbrev pub keys : Fields → List String
keys end = []
keys (field k v fs) = k ∷ keys fs

abbrev pub items : List Value → Items
items [] = nil
items (v ∷ vs) = cons v (items vs)

abbrev pub elements : Items → List Value
elements nil = []
elements (cons v vs) = v ∷ elements vs

-- xs.push(v)
abbrev pub push_item : Value → Items → Items
push_item v nil = cons v nil
push_item v (cons w vs) = cons w (push_item v vs)

-- Boolean(v)
unfoldable pub truthy : Value → Bool
truthy undefined = false
truthy null = false
truthy (bool b) = b
truthy (num n) = not (same n (whole 0))
truthy (str s) = not (s == "")
truthy (arr vs) = true
truthy (obj fs) = true

-- v === s, for a text s
unfoldable pub is_text : String → Value → Bool
is_text s (str t) = t == s
is_text s _ = false

-- v === true
unfoldable pub is_true : Value → Bool
is_true (bool b) = b
is_true _ = false

-- v || w
abbrev pub or_else : Value → Value → Value
or_else v w = if truthy v then v else w

-- Assignments, one after another.
abbrev pub assign : List (String × Value) → Fields → Fields
assign [] fs = fs
assign ((k, v) ∷ ps) fs = assign ps (set k v fs)
