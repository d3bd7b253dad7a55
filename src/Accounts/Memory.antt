-- ===== src/Accounts/Memory.antt =====
-- A users collection in memory that always works: the newest version of a document comes first.
use sustainable_fashion_chai.Prelude.{
  String, ◌≡◌, refl, sym, ◌∙◌, ap, Bool, true, false, not, ◌||◌, Option, none, some, List, [], ◌∷◌,
  ◌==◌, eq_iff, eq_refl, subst, any, Bool-cases, inl, inr, if◌then◌else◌,
}
use sustainable_fashion_chai.Fabric.{Result, ok}
use sustainable_fashion_chai.Accounts.Types.{User}
use sustainable_fashion_chai.Accounts.Action.{Users}
use sustainable_fashion_chai.Accounts.Store.{IsUp}

abbrev by_id : List User → String → Option User
by_id [] i = none
by_id (u ∷ us) i = let rest = by_id us i in if u.id == i then some u else rest

abbrev is_in : String → List String → Bool
is_in i seen = any (λ j. j == i) seen

-- The first document that the filter finds, with no newer version.
abbrev search_from : List String → (User → Bool) → List User → Option User
search_from seen p [] = none
search_from seen p (u ∷ us) =
    let rest = search_from (u.id ∷ seen) p us in
    if is_in u.id seen || not (p u) then rest else some u

or_false : (a b : Bool) → (a || b) ≡ false → (a ≡ false) × (b ≡ false)
or_false true b h = cc
or_false false b h = (refl, h)

not-false : (b : Bool) → not b ≡ false → b ≡ true
not-false true h = refl
not-false false h = cc

pub search_from-some :
    (seen : List String) (p : User → Bool) (us : List User) (u : User)
    → search_from seen p us ≡ some u
    → (p u ≡ true) × (by_id us u.id ≡ some u) × (is_in u.id seen ≡ false)
search_from-some seen p [] u e = cc
search_from-some seen p (v ∷ us) u e = elim (Bool-cases (is_in v.id seen || not (p v))) [
  | inl skip ↦
      let (m, there, new) = search_from-some (v.id ∷ seen) p us u (rw skip at e) in
      let (other, old) = or_false (v.id == u.id) (is_in u.id seen) new in (m, rw other there, old)
  | inr take ↦
      let (old, found) = or_false (is_in v.id seen) (not (p v)) take in
      let same : v ≡ u = cc (rw take at e) in
      subst (λ x. (p x ≡ true) × (by_id (v ∷ us) x.id ≡ some x) × (is_in x.id seen ≡ false)) same
        (not-false (p v) found, rw (eq_refl v.id) refl, old)
]

pub search_from-none :
    (seen : List String) (p : User → Bool) (us : List User) (i : String) (u : User)
    → search_from seen p us ≡ none
    → by_id us i ≡ some u
    → is_in i seen ≡ false
    → p u ≡ false
search_from-none seen p [] i u e there new = cc
search_from-none seen p (v ∷ us) i u e there new = elim (Bool-cases (v.id == i)) [
  | inl here ↦
      let same : v ≡ u = cc (rw here at there) in
      let old : is_in v.id seen ≡ false = rw ((eq_iff v.id i).0 here) new in
      elim (Bool-cases (p v)) [
        | inl found ↦ cc (rw (old, found) at e)
        | inr no_match ↦ subst (λ x. p x ≡ false) same no_match
      ]
  | inr other ↦ elim (Bool-cases (is_in v.id seen || not (p v))) [
    | inl skip ↦
        search_from-none (v.id ∷ seen) p us i u (rw skip at e) (rw other at there)
          (rw (other, new) refl)
    | inr take ↦ cc (rw take at e)
  ]
]

pub id_of : (us : List User) (i : String) (u : User) → by_id us i ≡ some u → u.id ≡ i
id_of [] i u e = cc
id_of (v ∷ us) i u e = elim (Bool-cases (v.id == i)) [
  | inl here ↦
      let same : v ≡ u = cc (rw here at e) in ap (λ x. x.id) (sym same) ∙ (eq_iff v.id i).0 here
  | inr other ↦ id_of us i u (rw other at e)
]

pub answered : {a b : Option User} → ◌≡◌ {A = Result (Option User)} (ok a) (ok b) → a ≡ b
answered e = cc e

pub stored : {a b : List User} → ◌≡◌ {A = Result (List User)} (ok a) (ok b) → a ≡ b
stored e = cc e

abbrev pub memory : Users
memory = record {
  State = List User;
  by_id = by_id;
  find_one = λ s p. ok (search_from [] p s);
  save = λ s u. ok (u ∷ s);
  find_one-some =
      λ s p u e. let (m, there, _) = search_from-some [] p s u (answered e) in (m, there);
  find_one-none = λ s p i u e there. search_from-none [] p s i u (answered e) there refl;
  by_id-id = λ s i u e. id_of s i u e;
  by_id-save = λ s t u i e. ap (λ x. by_id x i) (sym (stored e));
}

pub memory-IsUp : IsUp memory
memory-IsUp = record {
  finds = λ s p. (search_from [] p s, refl);
  saves = λ s i u v there same. (v ∷ s, refl);
}
