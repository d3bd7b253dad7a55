-- ===== src/Prelude/Texts.antt =====
-- Texts: joining (template literals), decimal printing (`BigInt.toString`), and the patterns
-- /^0x[0-9a-fA-F]{n}$/, /^0x0{n}$/ and /^[1-9][0-9]*$/ over code points.
use Prim.Native.Nat.{ℕ, zero, suc, ◌+◌, ◌/◌, ◌%◌}
use Prim.Native.Char.{code}
use Prim.Native.String
use Prim.Native.String.{String}
use mathlib.Core.Bool.{Bool, false, ◌&&◌, ◌||◌}
use mathlib.Core.List.{List, [], ◌∷◌}
use sustainable_fashion_chai.Prelude.Tests.{leb, nat_eq, if◌then◌else◌}
use sustainable_fashion_chai.Prelude.Lists.{length, all}

-- A template literal: its pieces, joined.
unfoldable pub join : List String → String
join [] = ""
join (s ∷ []) = s
join (s ∷ ss) = String.◌++◌ s (join ss)

abbrev digit : ℕ → String
digit n = String.slice "0123456789" (n % 10) (n % 10 + 1)

-- The digits of `n`, at most one for each unit of fuel; `n + 1` units are always enough.
digits_from : ℕ → ℕ → String → String
digits_from zero n acc = acc
digits_from (suc fuel) n acc =
    let longer = digits_from fuel (n / 10) (String.◌++◌ (digit n) acc) in
    if leb n 9 then String.◌++◌ (digit n) acc else longer

unfoldable pub decimal : ℕ → String
unfolding digits_from
decimal n = digits_from (n + 1) n ""

abbrev pub codes : String → List ℕ
codes String.[] = []
codes (String.◌∷◌ c s) = code c ∷ codes s

abbrev units : List ℕ → ℕ
units [] = 0
units (c ∷ cs) = if leb c 65535 then units cs + 1 else units cs + 2

-- s.length, in UTF-16 code units
unfoldable pub text_length : String → ℕ
text_length s = units (codes s)

abbrev is_hex_digit : ℕ → Bool
is_hex_digit c = leb b'0' c && leb c b'9' || leb b'a' c && leb c b'f' || leb b'A' c && leb c b'F'

-- Whether the code points are "0x" and then `n` that pass the test.
is_prefixed : (ℕ → Bool) → ℕ → List ℕ → Bool
is_prefixed test n (a ∷ b ∷ cs) =
    nat_eq a b'0' && nat_eq b b'x' && nat_eq (length cs) n && all test cs
is_prefixed test n _ = false

-- /^0x[0-9a-fA-F]{n}$/.test(s)
unfoldable pub is_hex_word : ℕ → String → Bool
unfolding is_prefixed
is_hex_word n s = is_prefixed is_hex_digit n (codes s)

-- /^0x0{n}$/.test(s)
unfoldable pub is_zero_word : ℕ → String → Bool
unfolding is_prefixed
is_zero_word n s = is_prefixed (λ c. nat_eq c b'0') n (codes s)

is_numeral : List ℕ → Bool
is_numeral [] = false
is_numeral (c ∷ cs) = leb b'1' c && leb c b'9' && all (λ d. leb b'0' d && leb d b'9') cs

-- /^[1-9][0-9]*$/.test(s)
unfoldable pub is_token_numeral : String → Bool
unfolding is_numeral
is_token_numeral s = is_numeral (codes s)
