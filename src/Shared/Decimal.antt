-- ===== src/Shared/Decimal.antt =====
-- packages/shared/src/amounts.ts: amounts with a decimal point. A text is its codes, and an amount that
-- is printed is not negative.
pub mod RoundTrip
use agent_allowance.Common.{
  ℕ, zero, suc, ◌+◌, ◌-◌, ◌*◌, ◌/◌, ◌%◌, ◌^◌, Bool, true, false, not, ◌&&◌, Option, none, some,
  List, [], ◌∷◌, ◌++◌, ◌==◌, leb, ltb, length, or_else, if◌then◌else◌,
}
use agent_allowance.Shared.Amounts.{
  AmountResult, ok, err, not_decimal, too_many_places, not_positive, is_digits, digits_value,
}

-- The text before its first point, and what follows it.
abbrev pub split_point : List ℕ → List ℕ × Option (List ℕ)
split_point [] = ([], none)
split_point (c ∷ cs) =
    let (whole, fraction) = split_point cs in
    if c == b'.' then ([], some cs) else (c ∷ whole, fraction)

abbrev fraction_ok : Option (List ℕ) → Bool
fraction_ok none = true
fraction_ok (some fraction) = is_digits fraction

-- `/^\d+(?:\.\d+)?$/`
abbrev pub is_decimal : List ℕ → Bool
is_decimal value =
    let (whole, fraction) = split_point value in is_digits whole && fraction_ok fraction

abbrev pub zeros : ℕ → List ℕ
zeros zero = []
zeros (suc n) = b'0' ∷ zeros n

-- `padEnd(n, "0")` and `padStart(n, "0")`
abbrev pub pad_end : List ℕ → ℕ → List ℕ
pad_end cs n = cs ++ zeros (n - length cs)

abbrev pub pad_start : List ℕ → ℕ → List ℕ
pad_start cs n = zeros (n - length cs) ++ cs

unfoldable pub decimal_to_atomic : List ℕ → ℕ → AmountResult
decimal_to_atomic value decimals =
    let (whole, fraction) = split_point value in
    let places = or_else fraction [] in
    let atomic = digits_value whole 0 * 10 ^ decimals + digits_value (pad_end places decimals) 0 in
    if not (is_decimal value)
    then err not_decimal
    else if ltb decimals (length places)
    then err too_many_places
    else if leb atomic 0
    then err not_positive
    else ok atomic

-- The decimal digits of a number; the fuel is one more than the number.
abbrev pub digits_from : ℕ → ℕ → List ℕ
digits_from zero n = []
digits_from (suc fuel) n =
    let rest = digits_from fuel (n / 10) in
    if ltb n 10 then (b'0' + n) ∷ [] else rest ++ ((b'0' + n % 10) ∷ [])

-- `toString`
unfoldable pub to_decimal : ℕ → List ℕ
to_decimal n = digits_from (n + 1) n

-- `replace(/0+$/, "")`
abbrev pub strip_zeros : List ℕ → List ℕ
strip_zeros [] = []
strip_zeros (c ∷ cs) =
    let rest = strip_zeros cs in if length rest == 0 && c == b'0' then [] else c ∷ rest

abbrev pub with_fraction : List ℕ → List ℕ → List ℕ
with_fraction whole [] = whole
with_fraction whole (c ∷ cs) = whole ++ (b'.' ∷ c ∷ cs)

unfoldable pub atomic_to_decimal : ℕ → ℕ → List ℕ
atomic_to_decimal amount decimals =
    with_fraction (to_decimal (amount / 10 ^ decimals))
      (strip_zeros (pad_start (to_decimal (amount % 10 ^ decimals)) decimals))
