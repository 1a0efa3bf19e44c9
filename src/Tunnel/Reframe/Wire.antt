-- ===== src/Tunnel/Reframe/Wire.antt =====
-- Reframing on the lines of a head.
use anvil_ring.Base.{
  ℕ, suc, ◌+◌, ◌-◌, ◌≡◌, ◌≢◌, refl, sym, ap, ◌∙◌, Bool, true, none, some, List, [], ◌∷◌, ◌++◌,
  append-nil, append_assoc, arith, Bytes, All, length, length-append, take-append, take-append_add,
  drop-append, bytes_eq, if◌then◌else◌,
}
use anvil_ring.Text.{split}
use anvil_ring.Tunnel.Reframe.{
  crlf, starts_with, find_subslice, end_after, find_header_end, keep, field_lines, head_lines,
  reframe_block, reframe_at, reframe_head_for_tunnel,
}

-- The fields' lines behind a first line, and the head that they make.
abbrev pub lines_behind : List Bytes → Bytes
lines_behind [] = []
lines_behind (line ∷ lines) = crlf ++ (line ++ lines_behind lines)

abbrev pub wire : Bytes → List Bytes → Bytes
wire first lines = (first ++ lines_behind lines) ++ (crlf ++ crlf)

abbrev pub Line : Bytes → Type 0
Line line = (line ≢ []) × All (λ c. c ≢ b'\r') line

-- The lines that stay.
unfoldable pub kept : List Bytes → List Bytes
kept [] = []
kept (line ∷ lines) = let rest = kept lines in if keep line then line ∷ rest else rest

-- A place that is behind characters other than CR.
find-plain :
    (xs ys : Bytes) (i : ℕ)
    → All (λ c. c ≢ b'\r') xs
    → find_subslice ys (crlf ++ crlf) ≡ some i
    → find_subslice (xs ++ ys) (crlf ++ crlf) ≡ some (length xs + i)
unfolding find_subslice starts_with
find-plain [] ys i h e = e ∙ ap some (omega arith)
find-plain (x ∷ xs) ys i (n, h) e = ground (arith, find-plain xs ys i h e)

-- An empty line is not at a line that has characters.
find-break :
    (line rest : Bytes) (i : ℕ)
    → Line line
    → find_subslice (line ++ rest) (crlf ++ crlf) ≡ some i
    → find_subslice (crlf ++ (line ++ rest)) (crlf ++ crlf) ≡ some (suc (suc i))
unfolding find_subslice starts_with
find-break [] rest i (n, p) e = absurd (n refl)
find-break (c ∷ line) rest i (n, (q, p)) e = ground (arith, q, e)

find-lines :
    (lines : List Bytes) (rest : Bytes)
    → All Line lines
    → find_subslice (lines_behind lines ++ (crlf ++ (crlf ++ rest))) (crlf ++ crlf)
      ≡ some (length (lines_behind lines))
unfolding find_subslice starts_with
find-lines [] rest h = refl
find-lines (line ∷ lines) rest ((n, p), h) =
    ap (λ x. find_subslice (crlf ++ x) (crlf ++ crlf))
      (append_assoc line (lines_behind lines) (crlf ++ (crlf ++ rest)))
    ∙ find-break line _ _ (n, p)
        (find-plain line _ (length (lines_behind lines)) p (find-lines lines rest h))
    ∙ ap (λ n. some (suc (suc n))) (sym (length-append line (lines_behind lines)))

split-plain : (xs : Bytes) → All (λ c. c ≢ b'\r') xs → split b'\r' xs ≡ xs ∷ []
unfolding split
split-plain [] h = refl
split-plain (x ∷ xs) (n, h) = ground (arith, n, split-plain xs h)

split-break :
    (xs ys : Bytes)
    → All (λ c. c ≢ b'\r') xs
    → split b'\r' (xs ++ (b'\r' ∷ ys)) ≡ xs ∷ split b'\r' ys
unfolding split
split-break [] ys h = refl
split-break (x ∷ xs) ys (n, h) = ground (arith, n, split-break xs ys h)

-- Each line behind the first, with the newline that follows its CR.
abbrev after_newline : List Bytes → List Bytes
after_newline [] = []
after_newline (line ∷ lines) = (b'\n' ∷ line) ∷ after_newline lines

newline_plain : ◌≢◌ {A = ℕ} b'\n' b'\r'
newline_plain e = omega (arith, e)

split-lines :
    (first : Bytes) (lines : List Bytes)
    → All (λ c. c ≢ b'\r') first
    → All Line lines
    → split b'\r' (first ++ lines_behind lines) ≡ first ∷ after_newline lines
split-lines first [] h k = ap (split b'\r') (append-nil first) ∙ split-plain first h
split-lines first (line ∷ lines) h ((n, p), k) =
    split-break first (b'\n' ∷ (line ++ lines_behind lines)) h
    ∙ ap (◌∷◌ first) (split-lines (b'\n' ∷ line) lines (newline_plain, p) k)

field_lines-kept :
    (lines : List Bytes) → field_lines (after_newline lines) ≡ lines_behind (kept lines)
unfolding field_lines kept
field_lines-kept [] = refl
field_lines-kept (line ∷ lines) = ground (arith, field_lines-kept lines)

if_kept : (b : Bool) (line : Bytes) → b ≡ true → (if b then line else []) ≡ line
if_kept b line e = rw e refl

less_four : (n : ℕ) → n + 4 - 4 ≡ n
less_four n = omega arith

find-block :
    (first : Bytes) (lines : List Bytes) (rest : Bytes)
    → All (λ c. c ≢ b'\r') first
    → All Line lines
    → find_header_end ((first ++ lines_behind lines) ++ (crlf ++ (crlf ++ rest)))
      ≡ some (length (first ++ lines_behind lines) + 4)
unfolding find_header_end
find-block first lines rest h k =
    ap
      (λ o. end_after 4 o (
        end_after 2
          (find_subslice ((first ++ lines_behind lines) ++ (crlf ++ (crlf ++ rest)))
            (b'\n' ∷ b'\n' ∷ []))
          none))
      (ap (λ x. find_subslice x (crlf ++ crlf))
          (append_assoc first (lines_behind lines) (crlf ++ (crlf ++ rest)))
        ∙ find-plain first _ (length (lines_behind lines)) h (find-lines lines rest k)
        ∙ ap some (sym (length-append first (lines_behind lines))))

-- The block is cut off exactly.
cut :
    (block rest : Bytes)
    → reframe_at (block ++ (crlf ++ (crlf ++ rest))) (some (length block + 4)) ≡ reframe_block block
unfolding split bytes_eq
cut block rest =
    rw
      (
        less_four (length block),
        take-append_add 4 block (crlf ++ (crlf ++ rest)),
        drop-append block (crlf ++ crlf),
        take-append block (crlf ++ (crlf ++ rest)),
      )
      refl

-- A head whose lines have no CR, and are not empty behind the first, comes out with the lines that
-- stay, whatever follows it; the first line stays.
pub reframe_head-wire :
    (first : Bytes) (lines : List Bytes) (rest : Bytes)
    → All (λ c. c ≢ b'\r') first
    → keep first ≡ true
    → All Line lines
    → reframe_head_for_tunnel (wire first lines ++ rest) ≡ wire first (kept lines)
unfolding reframe_head_for_tunnel
reframe_head-wire first lines rest h f k =
    ap reframe_head_for_tunnel (append_assoc (first ++ lines_behind lines) (crlf ++ crlf) rest)
    ∙ ap (reframe_at ((first ++ lines_behind lines) ++ (crlf ++ (crlf ++ rest))))
        (find-block first lines rest h k)
    ∙ cut (first ++ lines_behind lines) rest
    ∙ ap (λ x. head_lines x ++ (crlf ++ crlf)) (split-lines first lines h k)
    ∙ ap (λ x. (x ++ field_lines (after_newline lines)) ++ (crlf ++ crlf))
        (if_kept (keep first) first f)
    ∙ ap (λ x. (first ++ x) ++ (crlf ++ crlf)) (field_lines-kept lines)
