-- ===== src/Text/Decimal.antt =====
-- `from_str_radix` and `parse` of an unsigned 64-bit integer, and the digits that print one.
use anvil_ring.Base.{
  ℕ, zero, suc, ◌+◌, ◌-◌, ◌*◌, ◌/◌, ◌%◌, ◌^◌, ◌<◌, ◌≤◌, ◌≡◌, ◌≢◌, refl, ap, ◌∙◌, true, false, sym,
  append-nil, ◌&&◌, Option, none, some, List, [], ◌∷◌, ◌++◌, append_assoc, arith, All, All-append,
  length, length-append, ltb, leb, ◌==◌, if◌then◌else◌, Bool-cases, Option-cases, ◌⊎◌, inl, inr,
  ltb→lt,
}
use native.Mathlib.Nat.{
  div-add-mod', mod-lt, div-lt_iff_lt-mul, div-le_self, pow-suc, pow-zero, one-mul,
}

-- `char::to_digit`, for radix 10 and 16.
pub to_digit : ℕ → ℕ → Option ℕ
to_digit radix c =
    let d =
      if leb b'0' c && leb c b'9'
      then c - b'0'
      else if leb b'a' c && leb c b'z'
      then c - b'a' + 10
      else if leb b'A' c && leb c b'Z'
      then c - b'A' + 10
      else 99 in
    if ltb d radix then some d else none

-- Multiplication and addition are checked: past 2^64 there is no value.
parse_digits : ℕ → ℕ → List ℕ → Option ℕ
parse_digits radix acc [] = some acc
parse_digits radix acc (c ∷ cs) = elim (to_digit radix c) [
  | none ↦ none
  | some d ↦ elim (ltb (acc * radix + d) (2 ^ 64)) [
    | true ↦ parse_digits radix (acc * radix + d) cs
    | false ↦ none
  ]
]

-- One sign `+` may stand in front of the digits, and there is at least one digit.
unfoldable pub from_str_radix : ℕ → List ℕ → Option ℕ
unfolding to_digit parse_digits
from_str_radix radix [] = none
from_str_radix radix (c ∷ []) = if c == b'+' then none else parse_digits radix 0 (c ∷ [])
from_str_radix radix (c ∷ d ∷ cs) =
    if c == b'+' then parse_digits radix 0 (d ∷ cs) else parse_digits radix 0 (c ∷ d ∷ cs)

-- The character of a digit below 16, as `{:x}` and `to_string` write it.
unfoldable pub digit_char : ℕ → ℕ
digit_char d = if ltb d 10 then d + b'0' else d - 10 + b'a'

-- The digits of `n` in a radix, highest first; `fuel` digits follow the first at most.
print_digits : ℕ → ℕ → ℕ → List ℕ
print_digits radix zero n = digit_char n ∷ []
print_digits radix (suc fuel) n = elim (ltb n radix) [
  | true ↦ digit_char n ∷ []
  | false ↦ print_digits radix fuel (n / radix) ++ (digit_char (n % radix) ∷ [])
]

-- `to_string` of a u64: 20 digits at most.
unfoldable pub to_decimal : ℕ → List ℕ
unfolding print_digits digit_char
to_decimal n = print_digits 10 19 n

-- `{:x}` of a u64: 16 digits at most.
unfoldable pub to_hex : ℕ → List ℕ
unfolding print_digits digit_char
to_hex n = print_digits 16 15 n

to_digit-digit_char_ten : (d : ℕ) → d < 10 → to_digit 10 (digit_char d) ≡ some d
unfolding to_digit digit_char
to_digit-digit_char_ten d h = ground arith

to_digit-digit_char_sixteen : (d : ℕ) → d < 16 → to_digit 16 (digit_char d) ≡ some d
unfolding to_digit digit_char
to_digit-digit_char_sixteen d h = ground arith

print_last :
    (radix fuel n : ℕ) → ltb n radix ≡ true → print_digits radix (suc fuel) n ≡ digit_char n ∷ []
unfolding print_digits
print_last radix fuel n h = rw (h, print_digits)

print_more :
    (radix fuel n : ℕ)
    → ltb n radix ≡ false
    → print_digits radix (suc fuel) n
      ≡ print_digits radix fuel (n / radix) ++ (digit_char (n % radix) ∷ [])
unfolding print_digits
print_more radix fuel n h = rw (h, print_digits)

print_zero : (radix n : ℕ) → print_digits radix 0 n ≡ digit_char n ∷ []
unfolding print_digits
print_zero radix n = refl

small_one : (radix : ℕ) {n : ℕ} → n < radix ^ suc zero → n < radix
small_one radix h = rw (pow-suc, pow-zero, one-mul) at h

div_small :
    (radix fuel n : ℕ) → 1 < radix → n < radix ^ suc (suc fuel) → n / radix < radix ^ suc fuel
div_small radix fuel n two h = (div-lt_iff_lt-mul pos).1 (rw pow-suc at h)
  where
    pos : 0 < radix
    pos = omega arith

module _ (radix : ℕ) (two : 1 < radix)
    (digit : (d : ℕ) → d < radix → to_digit radix (digit_char d) ≡ some d) where
  parse_digits-digit :
      (acc d : ℕ) (rest : List ℕ)
      → d < radix
      → acc * radix + d < 2 ^ 64
      → parse_digits radix acc (digit_char d ∷ rest) ≡ parse_digits radix (acc * radix + d) rest
  unfolding parse_digits
  parse_digits-digit acc d rest h fits = ground (arith, digit d h)

  single :
      (n : ℕ) (rest : List ℕ)
      → n < radix
      → n < 2 ^ 64
      → parse_digits radix 0 (digit_char n ∷ rest) ≡ parse_digits radix n rest
  single n rest small h =
      parse_digits-digit 0 n rest small (omega arith)
      ∙ ap (λ (k : ℕ). parse_digits radix k rest) (omega arith)

  -- The digits before `rest` leave their number in the accumulator.
  parse_digits-print :
      (fuel n : ℕ) (rest : List ℕ)
      → n < radix ^ suc fuel
      → n < 2 ^ 64
      → parse_digits radix 0 (print_digits radix fuel n ++ rest) ≡ parse_digits radix n rest
  parse_digits-print zero n rest small h = rw print_zero (single n rest (small_one radix small) h)
  parse_digits-print (suc fuel) n rest small h = elim (Bool-cases (ltb n radix)) [
    | inl last ↦ rw (print_last _ _ _ last) (single n rest (ltb→lt n radix last) h)
    | inr more ↦
        rw (print_more _ _ _ more, append_assoc)
          (parse_digits-print fuel (n / radix) (digit_char (n % radix) ∷ rest)
              (div_small radix fuel n two small) (omega (arith, div-le_self n radix))
            ∙ parse_digits-digit (n / radix) (n % radix) rest (mod-lt n pos) (rw div-add-mod' h)
            ∙ rw div-add-mod')
  ]
    where
      pos : 0 < radix
      pos = omega arith

digit_char-ne-plus : (d : ℕ) → digit_char d ≢ b'+'
unfolding digit_char
digit_char-ne-plus d h = ground arith

abbrev NoPlus : List ℕ → Type 0
NoPlus [] = ⊥
NoPlus (c ∷ cs) = c ≢ b'+'

NoPlus-append : (xs ys : List ℕ) → NoPlus xs → NoPlus (xs ++ ys)
NoPlus-append [] ys h = absurd h
NoPlus-append (x ∷ xs) ys h = h

NoPlus-print : (radix fuel n : ℕ) → NoPlus (print_digits radix fuel n)
NoPlus-print radix zero n = rw print_zero (digit_char-ne-plus n)
NoPlus-print radix (suc fuel) n = elim (Bool-cases (ltb n radix)) [
  | inl last ↦ rw (print_last _ _ _ last) (digit_char-ne-plus n)
  | inr more ↦ rw (print_more _ _ _ more) (NoPlus-append _ _ (NoPlus-print radix fuel (n / radix)))
]

from_str_radix-NoPlus :
    (radix : ℕ) (cs : List ℕ) → NoPlus cs → from_str_radix radix cs ≡ parse_digits radix 0 cs
unfolding from_str_radix
from_str_radix-NoPlus radix [] h = absurd h
from_str_radix-NoPlus radix (c ∷ []) h = ground arith
from_str_radix-NoPlus radix (c ∷ d ∷ cs) h = ground arith

module _ (radix : ℕ) (two : 1 < radix)
    (digit : (d : ℕ) → d < radix → to_digit radix (digit_char d) ≡ some d) where
  from_str_radix-print :
      (fuel n : ℕ)
      → n < radix ^ suc fuel
      → n < 2 ^ 64
      → from_str_radix radix (print_digits radix fuel n) ≡ some n
  from_str_radix-print fuel n small h =
      from_str_radix-NoPlus radix _ (NoPlus-print radix fuel n)
      ∙ ap (parse_digits radix 0) (sym (append-nil (print_digits radix fuel n)))
      ∙ parse_digits-print radix two digit fuel n [] small h
      ∙ unfold parse_digits in refl

-- Every u64 is read back from its decimal digits.
pub from_str_radix-to_decimal : (n : ℕ) → n < 2 ^ 64 → from_str_radix 10 (to_decimal n) ≡ some n
unfolding to_decimal
from_str_radix-to_decimal n h =
    from_str_radix-print 10 (omega arith) to_digit-digit_char_ten 19 n (omega arith) h

-- Every u64 is read back from its hexadecimal digits.
pub from_str_radix-to_hex : (n : ℕ) → n < 2 ^ 64 → from_str_radix 16 (to_hex n) ≡ some n
unfolding to_hex
from_str_radix-to_hex n h =
    from_str_radix-print 16 (omega arith) to_digit-digit_char_sixteen 15 n (omega arith) h

-- What the characters of a printed number have in common, for radix 10 or 16.
module _ (P : ℕ → Type 0) (char : (d : ℕ) → d < 16 → P (digit_char d)) where
  print_digits-All :
      (radix fuel n : ℕ)
      → 1 < radix
      → radix ≤ 16
      → n < radix ^ suc fuel
      → All P (print_digits radix fuel n)
  print_digits-All radix zero n two small h =
      rw print_zero (char n (omega (arith, small_one radix h)), tt)
  print_digits-All radix (suc fuel) n two small h = elim (Bool-cases (ltb n radix)) [
    | inl last ↦ rw (print_last _ _ _ last) (char n (omega (arith, ltb→lt n radix last)), tt)
    | inr more ↦ rw (print_more _ _ _ more) (
        All-append P (print_digits radix fuel (n / radix)) _
          (print_digits-All radix fuel (n / radix) two small (div_small radix fuel n two h))
          (char (n % radix) (omega (arith, mod-lt n {m = radix} (omega arith))), tt))
  ]

-- A digit or one of the letters `a` to `f`.
abbrev pub IsHexChar : ℕ → Type 0
IsHexChar c = ((b'0' ≤ c) × (c ≤ b'9')) ⊎ ((b'a' ≤ c) × (c ≤ b'f'))

digit_char-IsHexChar : (d : ℕ) → d < 16 → IsHexChar (digit_char d)
unfolding digit_char
digit_char-IsHexChar d h = ground arith

digit_char-ascii : (d : ℕ) → d < 16 → digit_char d < 128
unfolding digit_char
digit_char-ascii d h = ground arith

pub to_decimal-ascii : (n : ℕ) → n < 2 ^ 64 → All (λ c. c < 128) (to_decimal n)
unfolding to_decimal
to_decimal-ascii n h =
    print_digits-All _ digit_char-ascii 10 19 n (omega arith) (omega arith) (omega arith)

pub to_hex-IsHexChar : (n : ℕ) → n < 2 ^ 64 → All IsHexChar (to_hex n)
unfolding to_hex
to_hex-IsHexChar n h =
    print_digits-All _ digit_char-IsHexChar 16 15 n (omega arith) (omega arith) (omega arith)

length-print_digits : (radix fuel n : ℕ) → length (print_digits radix fuel n) ≤ suc fuel
length-print_digits radix zero n = rw print_zero (omega arith)
length-print_digits radix (suc fuel) n = elim (Bool-cases (ltb n radix)) [
  | inl last ↦ rw (print_last _ _ _ last) (omega arith)
  | inr more ↦
      rw (print_more _ _ _ more, length-append (print_digits radix fuel (n / radix)))
        (omega (arith, length-print_digits radix fuel (n / radix)))
]

pub length-to_decimal : (n : ℕ) → length (to_decimal n) ≤ 20
unfolding to_decimal
length-to_decimal n = length-print_digits 10 19 n

parse_digits-bounded :
    (radix acc : ℕ) (cs : List ℕ) (n : ℕ)
    → acc < 2 ^ 64
    → parse_digits radix acc cs ≡ some n
    → n < 2 ^ 64
unfolding parse_digits
parse_digits-bounded radix acc [] n h e = ground arith
parse_digits-bounded radix acc (c ∷ cs) n h e = elim (Option-cases (to_digit radix c)) [
  | inl bad ↦ ground (arith, bad)
  | inr (d, good) ↦ ground (arith, good, parse_digits-bounded radix (acc * radix + d) cs n)
]

-- A value that is read fits 64 bits.
pub from_str_radix-bounded :
    (radix : ℕ) (cs : List ℕ) (n : ℕ) → from_str_radix radix cs ≡ some n → n < 2 ^ 64
unfolding from_str_radix
from_str_radix-bounded radix [] n e = cc
from_str_radix-bounded radix (c ∷ []) n e =
    ground (arith, parse_digits-bounded radix 0 (c ∷ []) n (omega arith))
from_str_radix-bounded radix (c ∷ d ∷ cs) n e = ground (
  arith,
  parse_digits-bounded radix 0 (d ∷ cs) n (omega arith),
  parse_digits-bounded radix 0 (c ∷ d ∷ cs) n (omega arith),
)
