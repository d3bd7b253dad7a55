-- ===== src/Bridge/Oracle.antt =====
-- validateRound of bridging/oracle-validation.js. A field of the round that is null or undefined is
-- `none`; the clock and the maximal age are `none` where the caller passes no integer.
mod Tests
use sustainable_fashion_chai.Prelude.{
  ℕ, ◌≤◌, ◌<◌, ◌+◌, String, ◌≡◌, refl, ◌↔◌, Bool, true, false, not, ◌&&◌, ◌||◌, Option, none, some,
  arith, ℤ, pos, negsuc, pos_part, neg_part, less_int, minus_int, leb, if◌then◌else◌, inl, inr,
  Bool-cases,
}
use sustainable_fashion_chai.Fabric.{Error, message, Result, ok, err}

pub record Round : Type 0 where
  pub updated_at : Option ℤ
  pub answer : Option ℤ
  pub round_id : Option ℤ
  pub answered_in_round : Option ℤ

pub record Age : Type 0 where
  pub updated_at : ℤ
  pub age_seconds : ℤ

-- Number.MAX_SAFE_INTEGER is 2^53 - 1.
abbrev is_safe : ℤ → Bool
is_safe n = leb (pos_part n) 9007199254740991 && leb (neg_part n) 9007199254740991

-- Number.isSafeInteger(v)
abbrev pub is_safe_integer : Option ℤ → Bool
is_safe_integer none = false
is_safe_integer (some n) = is_safe n

abbrev pub zero_int : ℤ
zero_int = pos 0

-- The checks once the four fields are there, with `now` and `max_age` as integers.
unfoldable pub validate_fields : (updated answer round_id answered now max_age : ℤ) → Result Age
validate_fields updated answer round_id answered now max_age =
    if less_int now updated
    then err (message "FUTURE_ORACLE")
    else if less_int max_age (minus_int now updated)
    then err (message "STALE_ORACLE")
    else if not (less_int zero_int answer)
    then err (message "INVALID_ORACLE_PRICE")
    else if less_int answered round_id
    then err (message "INCOMPLETE_ORACLE_ROUND")
    else ok (record { updated_at = updated; age_seconds = minus_int now updated })

unfoldable pub validate_times :
    (updated answer round_id answered : ℤ) (now max_age : Option ℤ) → Result Age
validate_times updated answer round_id answered (some now) (some max_age) =
    if not (is_safe updated)
      || not (less_int zero_int updated)
      || not (is_safe now)
      || not (is_safe max_age)
      || less_int max_age zero_int
    then err (message "INVALID_ORACLE_TIME")
    else validate_fields updated answer round_id answered now max_age
validate_times updated answer round_id answered _ _ = err (message "INVALID_ORACLE_TIME")

abbrev pub validate_present : (updated answer round_id answered now max_age : Option ℤ) → Result Age
validate_present (some u) (some a) (some r) (some i) now max_age =
    validate_times u a r i now max_age
validate_present _ _ _ _ _ _ = err (message "MISSING_ORACLE")

unfoldable pub validate_round : Option Round → (now max_age : Option ℤ) → Result Age
unfolding validate_times validate_fields
validate_round none now max_age = err (message "MISSING_ORACLE")
validate_round (some r) now max_age =
    validate_present r.updated_at r.answer r.round_id r.answered_in_round now max_age

-- a ≤ b, as integers
abbrev pub AtMost : ℤ → ℤ → Type 0
AtMost a b = pos_part a + neg_part b ≤ pos_part b + neg_part a

-- When an oracle's round is fit to use at the time `now`.
pub record IsFresh (u a r i now max_age : ℤ) : Type 0 where
  pub safe : (is_safe u ≡ true) × (is_safe now ≡ true) × (is_safe max_age ≡ true)
  pub since : AtMost (pos 1) u
  pub past : AtMost u now
  pub age : AtMost (minus_int now u) max_age
  pub price : AtMost (pos 1) a
  pub whole : AtMost r i

-- The tests of the source, on integers.
not_less : (a b : ℤ) → less_int a b ≡ false → AtMost b a
not_less a b h = ground arith

less_of : (b : ℤ) → AtMost (pos 1) b → less_int zero_int b ≡ true
less_of b h = ground arith

positive_of : (b : ℤ) → less_int zero_int b ≡ true → AtMost (pos 1) b
positive_of b h = ground arith

less_of_AtMost : (a b : ℤ) → AtMost b a → less_int a b ≡ false
less_of_AtMost a b h = ground arith

AtMost-minus : (now u : ℤ) → AtMost u now → AtMost zero_int (minus_int now u)
AtMost-minus now u h = ground arith

AtMost-trans : (a b c : ℤ) → AtMost a b → AtMost b c → AtMost a c
AtMost-trans a b c h k = omega arith

module _ (u a r i now max_age : ℤ) where
  abbrev Accepted : Result Age → Type 0
  Accepted o = o ≡ ok (record { updated_at = u; age_seconds = minus_int now u })

  IsFresh-of_fields :
      (is_safe u ≡ true) × (is_safe now ≡ true) × (is_safe max_age ≡ true)
      → less_int zero_int u ≡ true
      → Accepted (validate_fields u a r i now max_age)
      → IsFresh u a r i now max_age
  unfolding validate_fields
  IsFresh-of_fields safe positive e = elim (Bool-cases (less_int now u)) [
    | inl t ↦ cc (rw t at e)
    | inr past ↦ elim (Bool-cases (less_int max_age (minus_int now u))) [
      | inl t ↦ cc (rw (past, t) at e)
      | inr age ↦ elim (Bool-cases (less_int zero_int a)) [
        | inr t ↦ cc (rw (past, age, t) at e)
        | inl price ↦ elim (Bool-cases (less_int i r)) [
          | inl t ↦ cc (rw (past, age, price, t) at e)
          | inr whole ↦ record {
            safe = safe;
            since = positive_of u positive;
            past = not_less now u past;
            age = not_less max_age (minus_int now u) age;
            price = positive_of a price;
            whole = not_less i r whole;
          }
        ]
      ]
    ]
  ]

  abbrev Round_of : Result Age
  Round_of =
      validate_round
        (some (record {
          updated_at = some u;
          answer = some a;
          round_id = some r;
          answered_in_round = some i;
        }))
        (some now) (some max_age)

  abbrev bad_time : Bool
  bad_time =
      not (is_safe u)
      || not (less_int zero_int u)
      || not (is_safe now)
      || not (is_safe max_age)
      || less_int max_age zero_int

  good_time :
      bad_time ≡ false
      → (less_int zero_int u ≡ true)
        × ((is_safe u ≡ true) × (is_safe now ≡ true) × (is_safe max_age ≡ true))
  good_time h = parts (is_safe u) (less_int zero_int u) (is_safe now) (is_safe max_age) h
    where
      parts :
          (p q s t : Bool)
          → (not p || not q || not s || not t || less_int max_age zero_int) ≡ false
          → (q ≡ true) × ((p ≡ true) × (s ≡ true) × (t ≡ true))
      parts true true true true k = (refl, (refl, refl, refl))
      parts false _ _ _ k = cc
      parts true false _ _ k = cc
      parts true true false _ k = cc
      parts true true true false k = cc

  IsFresh-of : Accepted Round_of → IsFresh u a r i now max_age
  unfolding validate_round
  IsFresh-of e = elim (Bool-cases bad_time) [
    | inl t ↦ cc (rw t at e)
    | inr f ↦ let (positive, safe) = good_time f in IsFresh-of_fields safe positive (rw f at e)
  ]

  of_fresh : IsFresh u a r i now max_age → Accepted Round_of
  unfolding validate_round
  of_fresh h = rw (
    h.safe.0,
    less_of u h.since,
    h.safe.1,
    h.safe.2,
    less_of_AtMost max_age zero_int
        (AtMost-trans zero_int (minus_int now u) max_age (AtMost-minus now u h.past) h.age),
    less_of_AtMost now u h.past,
    less_of_AtMost max_age (minus_int now u) h.age,
    less_of a h.price,
    less_of_AtMost i r h.whole,
  )

-- With the four fields there, and integers as `now` and `max_age`, a round is accepted, with its
-- time and its age, exactly when `now`, `max_age` and its time are safe integers, its time is
-- positive, not after `now` and at most `max_age` before it, its price is positive and it was
-- answered in its own round or a later one.
pub validate_round_iff :
    (u a r i now max_age : ℤ)
    → (validate_round
          (some (record {
            updated_at = some u;
            answer = some a;
            round_id = some r;
            answered_in_round = some i;
          }))
          (some now)
          (some max_age)
        ≡ ok (record { updated_at = u; age_seconds = minus_int now u }))
      ↔ IsFresh u a r i now max_age
validate_round_iff u a r i now max_age =
    (IsFresh-of u a r i now max_age, of_fresh u a r i now max_age)
