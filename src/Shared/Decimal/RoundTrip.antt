-- ===== src/Shared/Decimal/RoundTrip.antt =====
-- A printed amount is read back.
use native.Mathlib.Nat.{mod-lt}
use native.Mathlib.Omega.{div_any}
use agent_allowance.Common.{
  ℕ, zero, suc, ◌+◌, ◌-◌, ◌*◌, ◌/◌, ◌%◌, ◌^◌, ◌≤◌, ◌<◌, ◌≡◌, refl, sym, ◌∙◌, ap, Bool, true, false,
  ◌&&◌, none, some, List, [], ◌∷◌, ◌++◌, ◌==◌, ltb, length, all, if◌then◌else◌, arith, Bool-cases,
  inl, inr,
}
use agent_allowance.Shared.Amounts.{ok, is_digit, is_digits, digits_value}
use agent_allowance.Shared.Decimal.{
  split_point, zeros, pad_end, pad_start, decimal_to_atomic, digits_from, to_decimal, strip_zeros,
  with_fraction, atomic_to_decimal,
}

digits_value-end :
    (xs : List ℕ) (c acc : ℕ)
    → digits_value (xs ++ (c ∷ [])) acc ≡ digits_value xs acc * 10 + (c - b'0')
unfolding digits_value
digits_value-end [] c acc = refl
digits_value-end (x ∷ xs) c acc = digits_value-end xs c (acc * 10 + (x - b'0'))

digits_value-digits_from : (fuel n : ℕ) → n < fuel → digits_value (digits_from fuel n) 0 ≡ n
unfolding digits_value
digits_value-digits_from zero n h = absurd (omega arith)
digits_value-digits_from (suc fuel) n h = elim (Bool-cases (ltb n 10)) [
  | inl one ↦ grind arith
  | inr more ↦ ground (
    arith,
    digits_value-end (digits_from fuel (n / 10)) (b'0' + n % 10) 0,
    digits_value-digits_from fuel (n / 10) (ground arith),
  )
]

digits_value-to_decimal : (n : ℕ) → digits_value (to_decimal n) 0 ≡ n
unfolding to_decimal
digits_value-to_decimal n = digits_value-digits_from (n + 1) n (omega arith)

length-end : (xs : List ℕ) (c : ℕ) → length (xs ++ (c ∷ [])) ≡ length xs + 1
length-end [] c = refl
length-end (x ∷ xs) c = ground (arith, length-end xs c)

length-digits_from :
    (fuel n d : ℕ) → n < fuel → n < 10 ^ suc d → length (digits_from fuel n) ≤ suc d
length-digits_from zero n d h k = absurd (omega arith)
length-digits_from (suc fuel) n zero h k = ground arith
length-digits_from (suc fuel) n (suc d) h k =
    let power = 10 ^ suc d in
    ground (
      arith,
      length-end (digits_from fuel (n / 10)) (b'0' + n % 10),
      length-digits_from fuel (n / 10) d,
    )

all-end : (p : ℕ → Bool) (xs : List ℕ) (c : ℕ) → all p (xs ++ (c ∷ [])) ≡ (all p xs && p c)
all-end p [] c = ground arith
all-end p (x ∷ xs) c = ground (arith, all-end p xs c)

all-digits_from : (fuel n : ℕ) → all is_digit (digits_from fuel n) ≡ true
all-digits_from zero n = refl
all-digits_from (suc fuel) n = ground (
  arith,
  all-end is_digit (digits_from fuel (n / 10)) (b'0' + n % 10),
  all-digits_from fuel (n / 10),
)

digits_value-zeros : (n : ℕ) (cs : List ℕ) → digits_value (zeros n ++ cs) 0 ≡ digits_value cs 0
unfolding digits_value
digits_value-zeros zero cs = refl
digits_value-zeros (suc n) cs = digits_value-zeros n cs

length-zeros : (n : ℕ) (cs : List ℕ) → length (zeros n ++ cs) ≡ n + length cs
length-zeros zero cs = omega arith
length-zeros (suc n) cs = ground (arith, length-zeros n cs)

all-zeros : (n : ℕ) (cs : List ℕ) → all is_digit (zeros n ++ cs) ≡ all is_digit cs
all-zeros zero cs = refl
all-zeros (suc n) cs = all-zeros n cs

length-none : (xs : List ℕ) → length xs ≡ 0 → xs ≡ []
length-none [] h = refl
length-none (x ∷ xs) h = absurd (ground arith)

-- Padding gives back the zeros that were stripped.
pad_end-strip_zeros : (cs : List ℕ) → pad_end (strip_zeros cs) (length cs) ≡ cs
pad_end-strip_zeros [] = refl
pad_end-strip_zeros (c ∷ cs) =
    chosen (length (strip_zeros cs) == 0 && c == b'0') refl (pad_end-strip_zeros cs)
  where
    chosen :
        (b : Bool)
        → (length (strip_zeros cs) == 0 && c == b'0') ≡ b
        → pad_end (strip_zeros cs) (length cs) ≡ cs
        → pad_end (if b then [] else c ∷ strip_zeros cs) (suc (length cs)) ≡ c ∷ cs
    chosen true e ih =
        let none_left : strip_zeros cs ≡ [] = length-none (strip_zeros cs) (ground arith) in
        let zero_sign : c ≡ b'0' = ground arith in
        let same : (length cs - 0) ≡ length cs = omega arith in
        let more : (suc (length cs) - 0) ≡ suc (length cs) = omega arith in
        let given : zeros (length cs - 0) ≡ cs = rw none_left at ih in
        let rest : zeros (length cs) ≡ cs = rw same at given in rw (zero_sign, more, rest) refl
    chosen false e ih =
        let shift : (suc (length cs) - suc (length (strip_zeros cs)))
            ≡ (length cs - length (strip_zeros cs)) =
          omega arith in
        rw shift (ap (λ xs. c ∷ xs) ih)

length-strip_zeros : (cs : List ℕ) → length (strip_zeros cs) ≤ length cs
length-strip_zeros [] = omega arith
length-strip_zeros (c ∷ cs) = ground (arith, length-strip_zeros cs)

all-strip_zeros : (cs : List ℕ) → all is_digit cs ≡ true → all is_digit (strip_zeros cs) ≡ true
all-strip_zeros [] h = refl
all-strip_zeros (c ∷ cs) h = ground (arith, all-strip_zeros cs)

-- A point ends digits.
split_point-point :
    (xs cs : List ℕ) → all is_digit xs ≡ true → split_point (xs ++ (b'.' ∷ cs)) ≡ (xs, some cs)
split_point-point [] cs h = refl
split_point-point (x ∷ xs) cs h =
    let ih = split_point-point xs cs (ground arith) in
    let digit : (x == b'.') ≡ false = ground arith in rw (ih, digit) refl

split_point-digits : (xs : List ℕ) → all is_digit xs ≡ true → split_point xs ≡ (xs, none)
split_point-digits [] h = refl
split_point-digits (x ∷ xs) h =
    let ih = split_point-digits xs (ground arith) in
    let digit : (x == b'.') ≡ false = ground arith in rw (ih, digit) refl

length-positive : (fuel n : ℕ) → 0 < fuel → 0 < length (digits_from fuel n)
length-positive zero n h = absurd (omega arith)
length-positive (suc fuel) n h =
    ground (arith, length-end (digits_from fuel (n / 10)) (b'0' + n % 10))

is_digits-all : (xs : List ℕ) → 0 < length xs → all is_digit xs ≡ true → is_digits xs ≡ true
is_digits-all [] h k = absurd (omega arith)
is_digits-all (x ∷ xs) h k = k

is_digits-to_decimal : (n : ℕ) → is_digits (to_decimal n) ≡ true
unfolding to_decimal
is_digits-to_decimal n =
    is_digits-all (digits_from (n + 1) n) (length-positive (n + 1) n (omega arith))
      (all-digits_from (n + 1) n)

digits-to_decimal : (n : ℕ) → all is_digit (to_decimal n) ≡ true
unfolding to_decimal
digits-to_decimal n = all-digits_from (n + 1) n

length-to_decimal : (n d : ℕ) → n < 10 ^ suc d → length (to_decimal n) ≤ suc d
unfolding to_decimal
length-to_decimal n d h = length-digits_from (n + 1) n d (omega arith) h

-- A text of a whole part and of places, which may be missing.
module _ (whole places : List ℕ) (d n : ℕ) (w : is_digits whole ≡ true)
    (digits : all is_digit whole ≡ true) (p : all is_digit places ≡ true) (fits : length places ≤ d)
    (value : digits_value whole 0 * 10 ^ d + digits_value (pad_end places d) 0 ≡ n)
    (some_left : 0 < n) where
  read_places : (xs : List ℕ) → places ≡ xs → decimal_to_atomic (with_fraction whole xs) d ≡ ok n
  unfolding decimal_to_atomic
  read_places [] e =
      let split = split_point-digits whole digits in
      let total : digits_value whole 0 * 10 ^ d + digits_value (pad_end [] d) 0 ≡ n =
        rw e at value in
      rw (split, w, total) (ground arith)
  read_places (c ∷ cs) e =
      let split = split_point-point whole (c ∷ cs) digits in
      let all_digits : is_digits (c ∷ cs) ≡ true = rw e at p in
      let few : length (c ∷ cs) ≤ d = rw e at fits in
      let total : digits_value whole 0 * 10 ^ d + digits_value (pad_end (c ∷ cs) d) 0 ≡ n =
        rw e at value in
      rw (split, w, total, all_digits) (ground arith)

pow-positive : (d : ℕ) → 0 < 10 ^ d
pow-positive zero = omega arith
pow-positive (suc d) = ground (arith, pow-positive d)

-- The places of an amount below the power, at their full length.
module _ (n d : ℕ) (below : n < 10 ^ suc d) where
  abbrev padded : List ℕ
  padded = pad_start (to_decimal n) (suc d)

  length-padded : length padded ≡ suc d
  length-padded = ground (
    arith,
    length-zeros (suc d - length (to_decimal n)) (to_decimal n),
    length-to_decimal n d below,
  )

  places-fit : length (strip_zeros padded) ≤ suc d
  places-fit = omega (arith, length-strip_zeros padded, length-padded)

  places-digits : all is_digit (strip_zeros padded) ≡ true
  places-digits =
      all-strip_zeros padded
        (all-zeros (suc d - length (to_decimal n)) (to_decimal n) ∙ digits-to_decimal n)

  places-value : digits_value (pad_end (strip_zeros padded) (suc d)) 0 ≡ n
  places-value =
      ap (λ k. digits_value (pad_end (strip_zeros padded) k) 0) (sym length-padded)
      ∙ ap (λ cs. digits_value cs 0) (pad_end-strip_zeros padded)
      ∙ digits_value-zeros (suc d - length (to_decimal n)) (to_decimal n)
      ∙ digits_value-to_decimal n

-- An amount that is not zero, printed with one or more places, is read back as it was.
pub decimal_to_atomic-atomic_to_decimal :
    (amount places : ℕ)
    → 0 < amount
    → decimal_to_atomic (atomic_to_decimal amount (suc places)) (suc places) ≡ ok amount
unfolding atomic_to_decimal
decimal_to_atomic-atomic_to_decimal amount places h =
    let power = 10 ^ suc places in
    let part = amount % power in
    let below : part < power = mod-lt amount (pow-positive (suc places)) in
    read_places (to_decimal (amount / power)) (strip_zeros (padded part places below)) (suc places)
      amount (is_digits-to_decimal (amount / power)) (digits-to_decimal (amount / power))
      (places-digits part places below) (places-fit part places below)
      (ap
          (λ x.
            x * power
            + digits_value (pad_end (strip_zeros (padded part places below)) (suc places)) 0)
          (digits_value-to_decimal (amount / power))
        ∙ ap (λ x. (amount / power) * power + x) (places-value part places below)
        ∙ ground (arith, div_any amount power))
      h (strip_zeros (padded part places below)) refl
