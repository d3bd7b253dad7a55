-- ===== src/Contract.antt =====
-- fabric/chaincode/supplychain/index.js: what the transactions of SupplyChainContract share. Each
-- transaction is an action of `Exec` over the environment of its call; its arguments are texts.
pub mod Products
pub mod Cotton
pub mod Tokenization
pub mod Nft
pub mod Queries
pub mod Kinds
pub mod Batches
pub mod History
pub mod Records
pub mod Changes
use Prim.Native.Char.{Char}
use Prim.Native.String
use sustainable_fashion_chai.Prelude.{
  ℕ, ◌+◌, String, Bool, true, false, not, ◌&&◌, Option, none, some, List, [], ◌∷◌, join, decimal,
}
use sustainable_fashion_chai.Number.{Number, whole, less}
use sustainable_fashion_chai.Json.{
  Value, undefined, null, bool, num, str, arr, obj, Items, nil, cons, Fields, end, field, get, set,
  push_item,
}
use sustainable_fashion_chai.Json.Compare.{less_value}
use sustainable_fashion_chai.Fabric.{
  Error, message, type_error, Result, ok, err, Env, Exec, raise, load,
}

-- fs[k].push(v); only a list has `push`.
abbrev pushed : String → Value → Fields → Value → Result Fields
pushed k v fs (arr vs) = ok (set k (arr (push_item v vs)) fs)
pushed k v fs _ = err type_error

unfoldable pub push_onto : String → Value → Fields → Result Fields
push_onto k v fs = pushed k v fs (get k fs)

-- `${a}${id}${b}`
abbrev pub about : String → String → String → Error
about a id b = message (join (a ∷ id ∷ b ∷ []))

abbrev pub missing : String → String → Error
missing kind id = about kind id " does not exist"

module _ (env : Env) where
  -- The text of a value in a template literal.
  unfoldable mutual
    pub show : Value → String
    show undefined = "undefined"
    show null = "null"
    show (bool true) = "true"
    show (bool false) = "false"
    show (num n) = env.show_number n
    show (str s) = s
    show (arr vs) = show_items vs
    show (obj fs) = "[object Object]"

    pub show_items : Items → String
    show_items nil = ""
    show_items (cons undefined nil) = ""
    show_items (cons null nil) = ""
    show_items (cons v nil) = show v
    show_items (cons undefined vs) = String.◌++◌ "," (show_items vs)
    show_items (cons null vs) = String.◌++◌ "," (show_items vs)
    show_items (cons v vs) = String.◌++◌ (show v) (String.◌++◌ "," (show_items vs))

  -- n > v: a comparison with NaN is false.
  unfoldable pub exceeds : Number → Value → Bool
  unfolding less_value
  exceeds n v = less_value env.number_of v n

  -- The read of a key that is itself a value: no record stands under what is not a text.
  abbrev pub load_at : Value → (String → Error) → Exec Fields
  load_at (str k) e = load env k (e k)
  load_at v e = raise (e (show v))
