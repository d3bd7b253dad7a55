-- ===== src/Fabric/Returns.antt =====
-- Rules for what a transaction returns and writes, one for each way to build one. `Returns Q w m`
-- says that if `m`, begun with the writes `w`, returns a reply, Q holds of that reply and of all
-- writes and events by then.
use sustainable_fashion_chai.Prelude.{
  String, ◌≡◌, refl, Bool, true, false, Option, none, some, List, [], ◌∷◌, ◌++◌, if◌then◌else◌,
}
use sustainable_fashion_chai.Json.{Value, Fields}
use sustainable_fashion_chai.Fabric.{
  Stored, document, malformed, Error, Result, ok, err, Effect, put, event, Env, Exec, ◌>>=◌, ◌>>◌,
  pure, raise, ensure, lift, put_state, set_event, parsed, load, present, continue,
}

abbrev pub Outcome : {A : Type 0} → (A → List Effect → Type 0) → Result (A × List Effect) → Type 0
Outcome Q (ok (a, w)) = Q a w
Outcome Q (err e) = Unit

pub record Returns {A : Type 0} (Q : A → List Effect → Type 0) (w : List Effect) (m : Exec A)
    : Type 0 where
  pub at : Outcome Q (m w)

pub outcome_of :
    {A : Type 0} {Q : A → List Effect → Type 0} {w : List Effect} {m : Exec A} {a : A}
    {w' : List Effect}
    → Returns Q w m
    → m w ≡ ok (a, w')
    → Q a w'
outcome_of h e = rw e at h.at

module _ {A : Type 0} {Q : A → List Effect → Type 0} {w : List Effect} where
  pub Returns-pure : (a : A) → Q a w → Returns Q w (pure a)
  unfolding pure
  Returns-pure a h = record { at = h }

  pub Returns-raise : (e : Error) → Returns Q w (raise e)
  unfolding raise
  Returns-raise e = record { at = tt }

  pub Returns-lift :
      {B : Type 0} (r : Result B) (f : B → Exec A)
      → ((b : B) → r ≡ ok b → Returns Q w (f b))
      → Returns Q w (lift r >>= f)
  unfolding ◌>>=◌
  Returns-lift (ok b) f h = record { at = (h b refl).at }
  Returns-lift (err e) f h = record { at = tt }

  pub Returns-ensure :
      (b : Bool) (e : Error) (m : Exec A)
      → (b ≡ true → Returns Q w m)
      → Returns Q w (ensure b e >> m)
  unfolding ◌>>◌
  Returns-ensure true e m h = record { at = (h refl).at }
  Returns-ensure false e m h = record { at = tt }

  pub Returns-put :
      (k : String) (d : Fields) (m : Exec A)
      → Returns Q (w ++ put k d ∷ []) m
      → Returns Q w (put_state k d >> m)
  unfolding ◌>>◌
  Returns-put k d m h = record { at = h.at }

  pub Returns-event :
      (n : String) (v : Value) (m : Exec A)
      → Returns Q (w ++ event n v ∷ []) m
      → Returns Q w (set_event n v >> m)
  unfolding ◌>>◌
  Returns-event n v m h = record { at = h.at }

  pub Returns-if :
      (b : Bool) (m n : Exec A)
      → (b ≡ true → Returns Q w m)
      → (b ≡ false → Returns Q w n)
      → Returns Q w (if b then m else n)
  Returns-if true m n h k = h refl
  Returns-if false m n h k = k refl

-- A result at the end of a transaction.
pub Returns-lift_end :
    {A : Type 0} {Q : A → List Effect → Type 0} {w : List Effect} (r : Result A)
    → ((a : A) → r ≡ ok a → Q a w)
    → Returns Q w (lift r)
unfolding lift
Returns-lift_end (ok a) h = record { at = h a refl }
Returns-lift_end (err e) h = record { at = tt }

found_of : (e : Error) (o : Option Stored) (d : Fields) → parsed e o ≡ ok d → o ≡ some (document d)
found_of e none d h = cc
found_of e (some malformed) d h = cc
found_of e (some (document c)) d h = cc

pub none_of_present : (o : Option Stored) → present o ≡ false → o ≡ none
none_of_present none h = refl
none_of_present (some s) h = cc

module _ {A : Type 0} {Q : A → List Effect → Type 0} {w : List Effect} (env : Env) where
  pub Returns-load :
      (k : String) (e : Error) (f : Fields → Exec A)
      → ((d : Fields) → env.read k ≡ some (document d) → Returns Q w (f d))
      → Returns Q w (load env k e >>= f)
  Returns-load k e f h =
      Returns-lift (parsed e (env.read k)) f λ d q. h d (found_of e (env.read k) d q)

-- A part of a transaction that writes nothing, and what it says of its reply.
abbrev pub Reads : {B : Type 0} → (B → Type 0) → List Effect → Exec B → Type 0
Reads R w m = Returns (λ b w'. (w' ≡ w) × R b) w m

module _ {A B : Type 0} {Q : A → List Effect → Type 0} {R : B → Type 0} {w : List Effect} where
  continue_read :
      (f : B → Exec A) (r : Result (B × List Effect))
      → Outcome (λ b w'. (w' ≡ w) × R b) r
      → ((b : B) → R b → Returns Q w (f b))
      → Outcome Q (continue r f)
  continue_read f (ok (b, w')) (same, h) k = rw same ((k b h).at)
  continue_read f (err e) h k = tt

  pub Returns-read :
      (m : Exec B) (f : B → Exec A)
      → Reads R w m
      → ((b : B) → R b → Returns Q w (f b))
      → Returns Q w (m >>= f)
  unfolding ◌>>=◌
  Returns-read m f h k = record { at = continue_read f (m w) h.at k }
