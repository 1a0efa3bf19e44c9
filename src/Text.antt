-- ===== src/Text.antt =====
-- Texts of the standard library as the program uses them: `str::from_utf8`, `str::trim`,
-- `from_str_radix`, `to_string`. A `&str` is the list of its code points.
pub mod Decimal
use anvil_ring.Base.{
  ℕ, zero, suc, ◌+◌, ◌-◌, ◌*◌, ◌/◌, ◌%◌, ◌^◌, ◌<◌, ◌≤◌, ◌≡◌, refl, ap, ◌∙◌, Bool, true, false, ◌&&◌,
  ◌||◌, Option, none, some, List, [], ◌∷◌, ◌++◌, arith, Bytes, All, ltb, leb, ◌==◌, if◌then◌else◌,
}

abbrev pub in_range : ℕ → ℕ → ℕ → Bool
in_range lo hi c = leb lo c && leb c hi

-- A decoder of UTF-8 between two bytes: `need` continuation bytes are due, the next of them lies
-- from `lo` to `hi`, and `acc` holds the bits so far.
pub record Utf8 : Type 0 where
  pub need : ℕ
  pub lo : ℕ
  pub hi : ℕ
  pub acc : ℕ

abbrev pub utf8_start : Utf8
utf8_start = record { need = 0; lo = 0; hi = 0; acc = 0 }

pub data Utf8Step : Type 0 where
  reject : Utf8Step
  more : Utf8 → Utf8Step
  char : ℕ → Utf8Step

-- The well-formed byte sequences of the Unicode standard (table 3-7).
utf8_lead : ℕ → Utf8Step
utf8_lead b =
    if ltb b 0x80
    then char b
    else if in_range 0xc2 0xdf b
    then more (record { need = 1; lo = 0x80; hi = 0xbf; acc = b - 0xc0 })
    else if b == 0xe0
    then more (record { need = 2; lo = 0xa0; hi = 0xbf; acc = 0 })
    else if b == 0xed
    then more (record { need = 2; lo = 0x80; hi = 0x9f; acc = 13 })
    else if in_range 0xe1 0xef b
    then more (record { need = 2; lo = 0x80; hi = 0xbf; acc = b - 0xe0 })
    else if b == 0xf0
    then more (record { need = 3; lo = 0x90; hi = 0xbf; acc = 0 })
    else if in_range 0xf1 0xf3 b
    then more (record { need = 3; lo = 0x80; hi = 0xbf; acc = b - 0xf0 })
    else if b == 0xf4
    then more (record { need = 3; lo = 0x80; hi = 0x8f; acc = 4 })
    else reject

utf8_next : Utf8 → ℕ → Utf8Step
utf8_next s b =
    let acc' = s.acc * 64 + (b - 0x80) in
    if in_range s.lo s.hi b
    then (if s.need == 1
        then char acc'
        else more (record { need = s.need - 1; lo = 0x80; hi = 0xbf; acc = acc' }))
    else reject

utf8_step : Utf8 → ℕ → Utf8Step
unfolding utf8_lead utf8_next
utf8_step s b = if s.need == 0 then utf8_lead b else utf8_next s b

abbrev pub push_char : ℕ → Option (List ℕ) → Option (List ℕ)
push_char c none = none
push_char c (some cs) = some (c ∷ cs)

utf8_chars : Utf8 → Bytes → Option (List ℕ)
utf8_chars s [] = if s.need == 0 then some [] else none
utf8_chars s (b ∷ bs) = elim (utf8_step s b) [
  | reject ↦ none
  | more s' ↦ utf8_chars s' bs
  | char c ↦ push_char c (utf8_chars utf8_start bs)
]

-- `str::from_utf8`, with the code points that the text has.
unfoldable pub from_utf8 : Bytes → Option (List ℕ)
unfolding utf8_chars utf8_step
from_utf8 bs = utf8_chars utf8_start bs

utf8_chars-ascii : (bs : Bytes) → All (λ b. b < 128) bs → utf8_chars utf8_start bs ≡ some bs
unfolding utf8_chars utf8_step
utf8_chars-ascii [] h = refl
utf8_chars-ascii (b ∷ bs) (p, h) = ground (arith, utf8_chars-ascii bs h)

pub from_utf8-ascii : (bs : Bytes) → All (λ b. b < 128) bs → from_utf8 bs ≡ some bs
unfolding from_utf8
from_utf8-ascii bs h = utf8_chars-ascii bs h

-- `char::is_whitespace`: the code points with the property White_Space.
unfoldable pub is_whitespace : ℕ → Bool
is_whitespace c =
    in_range 9 13 c
    || c == 32
    || c == 0x85
    || c == 0xa0
    || c == 0x1680
    || in_range 0x2000 0x200a c
    || c == 0x2028
    || c == 0x2029
    || c == 0x202f
    || c == 0x205f
    || c == 0x3000

unfoldable pub trim_start : List ℕ → List ℕ
trim_start [] = []
trim_start (c ∷ cs) = if is_whitespace c then trim_start cs else c ∷ cs

-- A character at the front stays unless all that is left of it and behind it is white space.
abbrev pub trim_cons : ℕ → List ℕ → List ℕ
trim_cons c [] = if is_whitespace c then [] else c ∷ []
trim_cons c (d ∷ ds) = c ∷ d ∷ ds

unfoldable pub trim_end : List ℕ → List ℕ
trim_end [] = []
trim_end (c ∷ cs) = trim_cons c (trim_end cs)

-- `str::trim`.
unfoldable pub trim : List ℕ → List ℕ
unfolding trim_start trim_end is_whitespace
trim cs = trim_end (trim_start cs)

-- `str::split(',')` on any separator: a text without it is one piece.
abbrev pub split_cons : ℕ → List (List ℕ) → List (List ℕ)
split_cons c [] = (c ∷ []) ∷ []
split_cons c (p ∷ ps) = (c ∷ p) ∷ ps

unfoldable pub split : ℕ → List ℕ → List (List ℕ)
split sep [] = [] ∷ []
split sep (c ∷ cs) = let rest = split sep cs in if c == sep then [] ∷ rest else split_cons c rest

-- `u8::to_ascii_lowercase`, and on a text.
unfoldable pub to_ascii_lowercase : ℕ → ℕ
to_ascii_lowercase c = if in_range b'A' b'Z' c then c + 32 else c

-- `eq_ignore_ascii_case`.
unfoldable pub eq_ignore_ascii_case : List ℕ → List ℕ → Bool
unfolding to_ascii_lowercase
eq_ignore_ascii_case [] [] = true
eq_ignore_ascii_case [] (y ∷ ys) = false
eq_ignore_ascii_case (x ∷ xs) [] = false
eq_ignore_ascii_case (x ∷ xs) (y ∷ ys) =
    to_ascii_lowercase x == to_ascii_lowercase y && eq_ignore_ascii_case xs ys

-- A text with no white space is trimmed to itself.
trim_start-plain : (cs : List ℕ) → All (λ c. is_whitespace c ≡ false) cs → trim_start cs ≡ cs
unfolding trim_start
trim_start-plain [] h = refl
trim_start-plain (c ∷ cs) (p, h) = rw p

trim_end-plain : (cs : List ℕ) → All (λ c. is_whitespace c ≡ false) cs → trim_end cs ≡ cs
unfolding trim_end
trim_end-plain [] h = refl
trim_end-plain (c ∷ []) (p, h) = rw p
trim_end-plain (c ∷ d ∷ cs) (p, h) = rw (trim_end-plain (d ∷ cs) h)

trim_steps : (cs : List ℕ) → trim cs ≡ trim_end (trim_start cs)
unfolding trim
trim_steps cs = refl

pub trim-plain : (cs : List ℕ) → All (λ c. is_whitespace c ≡ false) cs → trim cs ≡ cs
trim-plain cs h = trim_steps cs ∙ ap trim_end (trim_start-plain cs h) ∙ trim_end-plain cs h
