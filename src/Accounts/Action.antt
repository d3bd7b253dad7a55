-- ===== src/Accounts/Action.antt =====
-- What the account code does to the world: it reads and saves documents of the users collection,
-- draws random bytes and hands mails to the mail service. An action may throw, and what it did
-- before stays. mongoose, bcryptjs, jsonwebtoken and node's crypto are parameters.
use sustainable_fashion_chai.Prelude.{
  ℕ, ◌+◌, String, ◌≡◌, refl, sym, ap, Bool, true, false, Option, none, some, List, [], ◌∷◌, ◌++◌,
  ◌==◌, if◌then◌else◌,
}
use sustainable_fashion_chai.Fabric.{Error, Result, ok, err}
use sustainable_fashion_chai.Accounts.Types.{User, Claims}

-- The users collection. `find_one` takes a filter. Both operations may throw: the document breaks a
-- validator or a unique index, or the database cannot be reached.
pub record Users : Type 1 where
  pub State : Type 0
  pub by_id : State → String → Option User
  pub find_one : State → (User → Bool) → Result (Option User)
  pub save : State → User → Result State
  pub find_one-some :
      (s : State) (p : User → Bool) (u : User)
      → find_one s p ≡ ok (some u)
      → (p u ≡ true) × (by_id s u.id ≡ some u)
  pub find_one-none :
      (s : State) (p : User → Bool) (i : String) (u : User)
      → find_one s p ≡ ok none
      → by_id s i ≡ some u
      → p u ≡ false
  pub by_id-id : (s : State) (i : String) (u : User) → by_id s i ≡ some u → u.id ≡ i
  pub by_id-save :
      (s t : State) (u : User) (i : String)
      → save s u ≡ ok t
      → by_id t i ≡ (if u.id == i then some u else by_id s i)

pub record Mail : Type 0 where
  pub recipient : String
  pub subject : String
  pub link : String

-- What one request sees of the libraries: the time in milliseconds, the n-th random text drawn,
-- bcrypt's hash for a salt and its comparison, the hex SHA-256, a signed token and what verifying
-- it gives, and what the schema's setters (trim, lowercase) make of a name and of an address.
pub record Env : Type 0 where
  pub now : ℕ
  pub random : ℕ → String
  pub hash : String → String → String
  pub compare : String → String → Bool
  pub sha256 : String → String
  pub sign : ℕ → Claims → String
  pub verify : ℕ → String → Option Claims
  pub cast_name : String → String
  pub cast_email : String → String
  -- error.message, of an error that the source does not make itself
  pub describe : Error → String
  -- the error of the schema's validator minlength for a password
  pub too_short : String → Error

module _ (db : Users) where
  pub record World : Type 0 where
    pub users : db.State
    pub drawn : ℕ
    pub mails : List Mail

  abbrev pub Act : Type 0 → Type 0
  Act A = World → Result A × World

  pub pure : {A : Type 0} → A → Act A
  pure a w = (ok a, w)

  pub throw : {A : Type 0} → Error → Act A
  throw e w = (err e, w)

  abbrev continue : {A B : Type 0} → Result A × World → (A → Act B) → Result B × World
  continue (ok a, w) f = f a w
  continue (err e, w) f = (err e, w)

  abbrev draw_with : Env → Act String
  draw_with env w = (ok (env.random w.drawn), record w { drawn = w.drawn + 1 })

  -- crypto.randomBytes(n).toString('hex')
  pub draw : Env → Act String
  draw env w = draw_with env w

  -- User.findOne(filter)
  pub find : (User → Bool) → Act (Option User)
  find p w = (db.find_one w.users p, w)

  abbrev saved : World → Result db.State → Result (Unit {0}) × World
  saved w (err e) = (err e, w)
  saved w (ok s) = (ok tt, record w { users = s })

  pub put : User → Act (Unit {0})
  put u w = saved w (db.save w.users u)

  pub send : Mail → Act (Unit {0})
  send m w = (ok tt, record w { mails = w.mails ++ m ∷ [] })

  abbrev caught : {A : Type 0} → Result A × World → (Error → A) → A × World
  caught (ok a, w) f = (a, w)
  caught (err e, w) f = (f e, w)

  -- try { … } catch (error) { … }, where the handler only answers
  pub try_catch : {A : Type 0} → Act A → (Error → A) → World → A × World
  try_catch m f w = caught (m w) f

module _ {db : Users} where
  infixl 5 ◌>>=◌ ◌>>◌
  -- Opening this opens the actions above too.
  unfoldable pub ◌>>=◌ : {A B : Type 0} → Act db A → (A → Act db B) → Act db B
  unfolding pure throw draw find put send try_catch
  ◌>>=◌ m f w = continue db (m w) f

  unfoldable pub ◌>>◌ : {A B : Type 0} → Act db A → Act db B → Act db B
  unfolding ◌>>=◌
  m >> n = m >>= λ _. n

  pub err_ne :
      {B : Type 0} {x : Error} {v w : World db} {b : B}
      → ◌≡◌ {A = Result B × World db} (err x, v) (ok b, w)
      → ⊥
  err_ne {B} {b = b} e = ne (ap (λ r. r.0) e)
    where
      ne : {x : Error} → ◌≡◌ {A = Result B} (err x) (ok b) → ⊥
      ne h = cc

  pub ok_eq :
      {B : Type 0} {a b : B} {v w : World db}
      → ◌≡◌ {A = Result B × World db} (ok a, v) (ok b, w)
      → (b ≡ a) × (w ≡ v)
  ok_eq {B} {a} {b} e = (same (ap (λ r. r.0) e), sym (ap (λ r. r.1) e))
    where
      same : ◌≡◌ {A = Result B} (ok a) (ok b) → b ≡ a
      same h = cc h

  -- What an action of two parts does when it returns.
  pub bind_ok :
      {A B : Type 0} (m : Act db A) (f : A → Act db B) (w w' : World db) (b : B)
      → (m >>= f) w ≡ (ok b, w')
      → (a : A) × (v : World db) × (m w ≡ (ok a, v)) × (f a v ≡ (ok b, w'))
  unfolding ◌>>=◌
  bind_ok {A} {B} m f w w' b e = by_result (m w) refl e
    where
      by_result :
          (r : Result A × World db)
          → m w ≡ r
          → continue db r f ≡ (ok b, w')
          → (a : A) × (v : World db) × (m w ≡ (ok a, v)) × (f a v ≡ (ok b, w'))
      by_result (ok a, v) here e = (a, v, here, e)
      by_result (err x, v) here e = absurd (err_ne e)
