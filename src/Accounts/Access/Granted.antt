-- ===== src/Accounts/Access/Granted.antt =====
-- Who passes authorizePermission and authorizeRole of fabric/application/middleware/auth.js.
use Prim.Native.String
use mathlib.Core.Bool.{and-eq-true_iff}
use text.Mathlib.TextEquality.{starts_with_iff}
use sustainable_fashion_chai.Prelude.{
  String, ◌≡◌, ◌↔◌, ◌⊎◌, refl, inl, inr, Bool, true, false, ◌||◌, some, List, [], ◌∷◌, ◌==◌, eq_iff,
  any, all, All, Bool-cases, if◌then◌else◌,
}
use sustainable_fashion_chai.Accounts.Types.{Claims}
use sustainable_fashion_chai.Accounts.Access.{
  passed, denied, before_first, ends_with, permissions_of, matches, has_one, authorize_permission,
}

-- An entry of the table covers a permission: it is that permission, or it ends in ":*" and what
-- stands before its first colon, with a colon, begins the permission.
abbrev pub Covers : (entry permission : String) → Type 0
Covers entry permission =
    ((ends_with entry ":*" ≡ false) × (entry ≡ permission))
    ⊎ ((ends_with entry ":*" ≡ true)
        × ((rest : String) × (String.◌++◌ (String.◌++◌ (before_first b':' entry) ":") rest
              ≡ permission)))

-- Some entry of the list.
abbrev pub Some : (String → Type 0) → List String → Type 0
Some P [] = ⊥
Some P (x ∷ xs) = P x ⊎ Some P xs

-- The role of admin is granted everything, another one what its row of the table covers, or
-- everything too if "*" stands there.
abbrev pub Granted : (role permission : String) → Type 0
Granted role permission =
    (role ≡ "admin")
    ⊎ Some (λ entry. entry ≡ "*") (permissions_of role)
    ⊎ Some (λ entry. Covers entry permission) (permissions_of role)

matches-Covers : (permission p : String) → (matches permission p ≡ true) ↔ Covers p permission
matches-Covers permission p = elim (Bool-cases (ends_with p ":*")) [
  | inl t ↦ (
    (λ h. inr (t, (starts_with_iff permission _).0 (rw t at h))),
    λ c. elim c [ inl d ↦ cc (t, d.0) | inr d ↦ rw t ((starts_with_iff permission _).1 d.1) ],
  )
  | inr f ↦ (
    (λ h. inl (f, (eq_iff p permission).0 (rw f at h))),
    λ c. elim c [ inl d ↦ rw f ((eq_iff p permission).1 d.1) | inr d ↦ cc (f, d.0) ],
  )
]

or_iff : (a b : Bool) → ((a || b) ≡ true) ↔ ((a ≡ true) ⊎ (b ≡ true))
or_iff true b = ((λ h. inl refl), λ h. refl)
or_iff false b = ((λ h. inr h), λ h. elim h [ inl x ↦ cc x | inr y ↦ y ])

or_iff3 : (a b c : Bool) → ((a || b || c) ≡ true) ↔ ((a ≡ true) ⊎ (b ≡ true) ⊎ (c ≡ true))
or_iff3 true b c = ((λ h. inl refl), λ h. refl)
or_iff3 false true c = ((λ h. inr (inl refl)), λ h. refl)
or_iff3 false false c =
    ((λ h. inr (inr h)), λ h. elim h [ inl x ↦ cc x | inr y ↦ elim y [ inl x ↦ cc x | inr z ↦ z ] ])

module _ (f : String → Bool) (P : String → Type 0) (each : (x : String) → (f x ≡ true) ↔ P x) where
  any-Some : (xs : List String) → (any f xs ≡ true) ↔ Some P xs
  any-Some [] = ((λ h. cc h), λ h. absurd h)
  any-Some (x ∷ xs) = (
    (λ h. elim ((or_iff (f x) (any f xs)).0 h) [
      | inl t ↦ inl ((each x).0 t)
      | inr t ↦ inr ((any-Some xs).0 t)
    ]),
    λ h. elim h [
      | inl p ↦ (or_iff (f x) (any f xs)).1 (inl ((each x).1 p))
      | inr q ↦ (or_iff (f x) (any f xs)).1 (inr ((any-Some xs).1 q))
    ],
  )

  all-All : (xs : List String) → (all f xs ≡ true) ↔ All P xs
  all-All [] = ((λ h. tt), λ h. refl)
  all-All (x ∷ xs) = (
    (λ h. let (t, u) = (and-eq-true_iff _ _).0 h in ((each x).0 t, (all-All xs).0 u)),
    λ h. (and-eq-true_iff _ _).1 ((each x).1 h.0, (all-All xs).1 h.1),
  )

has_one-Granted :
    (role permission : String) → (has_one role permission ≡ true) ↔ Granted role permission
has_one-Granted role permission =
    let star = any-Some (λ p. p == "*") (λ p. p ≡ "*") (λ p. eq_iff p "*") (permissions_of role) in
    let covers =
      any-Some (matches permission) (λ p. Covers p permission) (matches-Covers permission)
        (permissions_of role) in
    let three =
      or_iff3 (role == "admin") (any (λ p. p == "*") (permissions_of role))
        (any (matches permission) (permissions_of role)) in
    (
      (λ h. elim (three.0 h) [
        | inl a ↦ inl ((eq_iff role "admin").0 a)
        | inr b ↦ elim b [ inl c ↦ inr (inl (star.0 c)) | inr d ↦ inr (inr (covers.0 d)) ]
      ]),
      λ h. elim h [
        | inl a ↦ three.1 (inl ((eq_iff role "admin").1 a))
        | inr b ↦ elim b [
          | inl c ↦ three.1 (inr (inl (star.1 c)))
          | inr d ↦ three.1 (inr (inr (covers.1 d)))
        ]
      ],
    )

gate_iff : (b : Bool) → ((if b then passed else denied) ≡ passed) ↔ (b ≡ true)
gate_iff true = ((λ h. refl), λ h. refl)
gate_iff false = ((λ h. cc h), λ h. cc h)

-- A user passes authorizePermission exactly when each required permission is granted to the user's
-- role.
pub authorize_permission_iff :
    (required : List String) (user : Claims)
    → (authorize_permission required (some user) ≡ passed) ↔ All (Granted user.role) required
unfolding authorize_permission
authorize_permission_iff required user =
    let g = gate_iff (all (has_one user.role) required) in
    let a = all-All (has_one user.role) (Granted user.role) (has_one-Granted user.role) required in
    ((λ h. a.0 (g.0 h)), λ h. g.1 (a.1 h))
