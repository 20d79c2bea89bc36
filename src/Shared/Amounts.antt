-- ===== src/Shared/Amounts.antt =====
-- packages/shared/src/amounts.ts: amounts as text, and JavaScript's `BigInt` of a text.
use Prim.Native.Char.{code}
use agent_allowance.Common.{
  ℕ, ℤ, pos, ◌+◌, ◌-◌, ◌*◌, String, Bool, false, ◌&&◌, ◌||◌, Option, none, some, List, [], ◌∷◌, leb,
  ltb, ◌==◌, if◌then◌else◌, all, sub_ℕ,
}
use mathlib.Core.List.{reverse}

-- The code points of a text.
abbrev pub codes : String → List ℕ
codes String.[] = []
codes (String.◌∷◌ c s) = code c ∷ codes s

abbrev pub is_digit : ℕ → Bool
is_digit c = leb b'0' c && leb c b'9'

-- `/^\d+$/`
abbrev pub is_digits : List ℕ → Bool
is_digits [] = false
is_digits (c ∷ cs) = is_digit c && all is_digit cs

-- The value of digits in a base, from the left; `none` at a sign that is no digit of the base.
abbrev digit_value : ℕ → ℕ
digit_value c =
    if is_digit c
    then c - b'0'
    else if leb b'a' c && leb c b'f'
    then c - b'a' + 10
    else if leb b'A' c && leb c b'F'
    then c - b'A' + 10
    else 99

pub value_from : ℕ → ℕ → List ℕ → Option ℕ
value_from base acc [] = some acc
value_from base acc (c ∷ cs) =
    let rest = value_from base (acc * base + digit_value c) cs in
    if ltb (digit_value c) base then rest else none

-- At least one digit.
abbrev value_of : ℕ → List ℕ → Option ℕ
value_of base [] = none
value_of base (c ∷ cs) = value_from base 0 (c ∷ cs)

abbrev pub is_space : ℕ → Bool
is_space c =
    leb 9 c && leb c 13
    || c == 32
    || c == 160
    || c == 0x1680
    || leb 0x2000 c && leb c 0x200a
    || c == 0x2028
    || c == 0x2029
    || c == 0x202f
    || c == 0x205f
    || c == 0x3000
    || c == 0xfeff

trim_left : List ℕ → List ℕ
trim_left [] = []
trim_left (c ∷ cs) = let rest = trim_left cs in if is_space c then rest else c ∷ cs

trim : List ℕ → List ℕ
unfolding trim_left
trim cs = reverse (trim_left (reverse (trim_left cs)))

abbrev as_pos : Option ℕ → Option ℤ
as_pos none = none
as_pos (some n) = some (pos n)

abbrev as_neg : Option ℕ → Option ℤ
as_neg none = none
as_neg (some n) = some (sub_ℕ 0 n)

-- `0x`, `0o` and `0b` open a literal of another base; it has no sign.
literal_value : List ℕ → Option ℤ
literal_value [] = some (pos 0)
literal_value (c ∷ []) = as_pos (value_of 10 (c ∷ []))
literal_value (c ∷ d ∷ cs) =
    if c == b'0' && (d == b'x' || d == b'X')
    then as_pos (value_of 16 cs)
    else if c == b'0' && (d == b'o' || d == b'O')
    then as_pos (value_of 8 cs)
    else if c == b'0' && (d == b'b' || d == b'B')
    then as_pos (value_of 2 cs)
    else if c == b'-'
    then as_neg (value_of 10 (d ∷ cs))
    else if c == b'+'
    then as_pos (value_of 10 (d ∷ cs))
    else as_pos (value_of 10 (c ∷ d ∷ cs))

-- `BigInt(text)`; `none` where it throws a SyntaxError.
unfoldable pub big_int : String → Option ℤ
unfolding trim literal_value value_from
big_int s = literal_value (trim (codes s))

pub data AmountError : Type 0 where
  not_unsigned not_positive not_decimal too_many_places : AmountError

pub data AmountResult : Type 0 where
  ok : ℕ → AmountResult
  err : AmountError → AmountResult

-- `BigInt` of a text that is all digits: its decimal value.
unfoldable pub digits_value : List ℕ → ℕ → ℕ
digits_value [] acc = acc
digits_value (c ∷ cs) acc = digits_value cs (acc * 10 + (c - b'0'))

unfoldable pub parse_atomic_amount : String → AmountResult
unfolding digits_value
parse_atomic_amount s =
    if is_digits (codes s)
    then (let parsed = digits_value (codes s) 0 in
        if leb parsed 0 then err not_positive else ok parsed)
    else err not_unsigned
