-- ===== src/Accounts/Store.antt =====
-- A users collection that works, with one document that a filter finds.
use sustainable_fashion_chai.Prelude.{
  String, ◌≡◌, ◌≢◌, refl, sym, subst, ◌∙◌, ap, Bool, true, false, Option, none, some, ◌==◌, eq_iff,
  Bool-cases, inl, inr, if◌then◌else◌,
}
use sustainable_fashion_chai.Fabric.{ok}
use sustainable_fashion_chai.Accounts.Types.{Organization, User}
use sustainable_fashion_chai.Accounts.Action.{Users}

pub different : (a b : String) → a ≢ b → (a == b) ≡ false
different a b h = elim (Bool-cases (a == b)) [ inl t ↦ absurd (h ((eq_iff a b).0 t)) | inr f ↦ f ]

-- What the schema's validators and unique indexes restrict, but for the password.
pub record Restricted : Type 0 where
  pub id : String
  pub username : String
  pub email : String
  pub first_name : String
  pub last_name : String
  pub role : String
  pub organization : Organization
  pub wallet_address : Option String
  pub bio : Option String

abbrev pub restricted : User → Restricted
restricted u = record {
  id = u.id;
  username = u.username;
  email = u.email;
  first_name = u.first_name;
  last_name = u.last_name;
  role = u.role;
  organization = u.organization;
  wallet_address = u.wallet_address;
  bio = u.bio;
}

-- A database that answers each query, and takes each change of a stored document that leaves the
-- restricted fields as they are.
pub record IsUp (db : Users) : Type 0 where
  pub finds : (s : db.State) (p : User → Bool) → (o : Option User) × (db.find_one s p ≡ ok o)
  pub saves :
      (s : db.State) (i : String) (u v : User)
      → db.by_id s i ≡ some u
      → restricted v ≡ restricted u
      → (t : db.State) × (db.save s v ≡ ok t)

-- The document of the key `i` is the only one that the filter finds, and it is `u`.
pub record Sole (db : Users) (p : User → Bool) (i : String) (s : db.State) (u : User) : Type 0 where
  pub found : db.by_id s i ≡ some u
  pub named : p u ≡ true
  pub sole : (j : String) (v : User) → db.by_id s j ≡ some v → p v ≡ true → j ≡ i

pub by_id-saved :
    (db : Users) (s t : db.State) (v : User) (i : String)
    → db.save s v ≡ ok t
    → v.id ≡ i
    → db.by_id t i ≡ some v
by_id-saved db s t v i e same =
    db.by_id-save s t v i e ∙ ap (λ b. if b then some v else db.by_id s i) ((eq_iff v.id i).1 same)

module _ (db : Users) (up : IsUp db) (p : User → Bool) (i : String) where
  pub find-Sole : (s : db.State) (u : User) → Sole db p i s u → db.find_one s p ≡ ok (some u)
  find-Sole s u h = let (o, e) = up.finds s p in e ∙ ap ok (by_answer o e)
    where
      by_answer : (o : Option User) → db.find_one s p ≡ ok o → o ≡ some u
      by_answer none e = cc (db.find_one-none s p i u e h.found, h.named)
      by_answer (some v) e =
          let (named, there) = db.find_one-some s p v e in
          let same = h.sole v.id v there named in
          let found : db.by_id s i ≡ some v = subst (λ k. db.by_id s k ≡ some v) same there in
          cc (found, h.found)

  pub save-Sole :
      (s t : db.State) (u v : User)
      → Sole db p i s u
      → v.id ≡ u.id
      → p v ≡ true
      → db.save s v ≡ ok t
      → Sole db p i t v
  save-Sole s t u v h same named e =
      let id : v.id ≡ i = same ∙ db.by_id-id s i u h.found in
      record {
        found = by_id-saved db s t v i e id;
        named = named;
        sole = λ j x there m. elim (Bool-cases (v.id == j)) [
          | inl here ↦ sym ((eq_iff v.id j).0 here) ∙ id
          | inr other ↦
              let old : db.by_id s j ≡ some x =
                rw other at (sym (db.by_id-save s t v j e) ∙ there) in
              h.sole j x old m
        ];
      }

  -- A document that the filter no longer finds: it finds none.
  pub save-Sole_gone :
      (s t : db.State) (u v : User)
      → Sole db p i s u
      → v.id ≡ u.id
      → p v ≡ false
      → db.save s v ≡ ok t
      → db.find_one t p ≡ ok none
  save-Sole_gone s t u v h same gone e = let (o, f) = up.finds t p in f ∙ ap ok (by_answer o f)
    where
      by_answer : (o : Option User) → db.find_one t p ≡ ok o → o ≡ none
      by_answer none f = refl
      by_answer (some x) f =
          let (named, there) = db.find_one-some t p x f in
          let now = db.by_id-save s t v x.id e in
          elim (Bool-cases (v.id == x.id)) [
            | inl here ↦
                let is : some v ≡ some x = sym (rw here at now) ∙ there in
                let eq : v ≡ x = cc is in cc (eq, gone, named)
            | inr other ↦
                let old : db.by_id s x.id ≡ some x = sym (rw other at now) ∙ there in
                let at_i = h.sole x.id x old named in
                let id : v.id ≡ x.id = same ∙ db.by_id-id s i u h.found ∙ sym at_i in
                cc ((eq_iff v.id x.id).1 id, other)
          ]
