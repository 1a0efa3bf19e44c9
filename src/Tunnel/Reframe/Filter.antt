-- ===== src/Tunnel/Reframe/Filter.antt =====
-- Which lines `reframe_head_for_tunnel` of cargo/src/tunnel.rs takes out, apart from its own test.
use anvil_ring.Base.{
  ℕ, ◌≡◌, ◌≢◌, refl, ap, ◌↔◌, subst, Bool, true, false, Option, none, some, List, [], ◌∷◌, ◌++◌,
  arith, Bytes, bytes, All, Bool-cases, Option-cases, inl, inr, ◌==◌, ==_iff,
}
use anvil_ring.Text.{from_utf8, trim, split, eq_ignore_ascii_case}
use anvil_ring.Tunnel.Reframe.{
  at_colon, all_chunked, keep, is_te, only_chunked, reframe_head_for_tunnel,
}
use anvil_ring.Tunnel.Reframe.Wire.{Line, wire, kept, reframe_head-wire}

-- A field `Transfer-Encoding`, in any case, whose value names `chunked` once or more and nothing else.
pub record Framing (line : Bytes) : Type 0 where
  pub name : Bytes
  pub value : Bytes
  pub name_text : List ℕ
  pub value_text : List ℕ
  pub parts : line ≡ name ++ (b':' ∷ value)
  pub first_colon : All (λ c. c ≢ b':') name
  pub name_reads : from_utf8 name ≡ some name_text
  pub names : eq_ignore_ascii_case (trim name_text) (bytes "transfer-encoding") ≡ true
  pub value_reads : from_utf8 value ≡ some value_text
  pub has_value : value_text ≢ []
  pub codings :
      All (λ t. eq_ignore_ascii_case (trim t) (bytes "chunked") ≡ true) (split b',' value_text)

-- The lines without those.
pub data Filtered : List Bytes → List Bytes → Type 0 where
  nothing : Filtered [] []
  drops :
      {line : Bytes} {lines left : List Bytes}
      → Framing line
      → Filtered lines left
      → Filtered (line ∷ lines) left
  stays :
      {line : Bytes} {lines left : List Bytes}
      → ¬ Framing line
      → Filtered lines left
      → Filtered (line ∷ lines) (line ∷ left)

all_chunked_iff :
    (ts : List (List ℕ))
    → (all_chunked ts ≡ true) ↔ All (λ t. eq_ignore_ascii_case (trim t) (bytes "chunked") ≡ true) ts
unfolding all_chunked
all_chunked_iff [] = ground arith
all_chunked_iff (t ∷ ts) = ground (arith, all_chunked_iff ts)

at_colon-parts :
    (name value : Bytes)
    → All (λ c. c ≢ b':') name
    → at_colon (name ++ (b':' ∷ value)) ≡ some (name, value)
unfolding at_colon
at_colon-parts [] value h = refl
at_colon-parts (c ∷ name) value (n, h) = ground (arith, n, at_colon-parts name value h)

abbrev Cut : Bytes → Bytes × Bytes → Type 0
Cut line p = (line ≡ p.0 ++ (b':' ∷ p.1)) × All (λ c. c ≢ b':') p.0

some-pair : (p q : Bytes × Bytes) → some p ≡ some q → p ≡ q
some-pair p q e = cc

parts-at_colon :
    (line name value : Bytes)
    → at_colon line ≡ some (name, value)
    → (line ≡ name ++ (b':' ∷ value)) × All (λ c. c ≢ b':') name
unfolding at_colon
parts-at_colon [] name value e = absurd ground (arith, e)
parts-at_colon (c ∷ line) name value e = elim (Bool-cases (c == b':')) [
  | inl q ↦
      subst (Cut (c ∷ line)) (some-pair ([], line) (name, value) (rw q at e))
        (ap (λ x. x ∷ line) ((==_iff c b':').0 q), tt)
  | inr q ↦ elim (Option-cases (at_colon line)) [
    | inl z ↦ absurd ground (arith, e, q, z)
    | inr ((n, v), z) ↦
        let (same, plain) = parts-at_colon line n v z in
        subst (Cut (c ∷ line)) (some-pair (c ∷ n, v) (name, value) (rw (q, z) at e))
          (ap (◌∷◌ c) same, (ground (arith, q), plain))
  ]
]

is_te-some :
    (o : Option (List ℕ))
    → is_te o ≡ true
    → (n : List ℕ) × (o ≡ some n)
      × (eq_ignore_ascii_case (trim n) (bytes "transfer-encoding") ≡ true)
is_te-some none e = absurd ground (arith, e)
is_te-some (some n) e = (n, refl, e)

only_chunked-some :
    (o : Option (List ℕ))
    → only_chunked o ≡ true
    → (v : List ℕ) × (o ≡ some v)
      × (v ≢ [])
      × All (λ t. eq_ignore_ascii_case (trim t) (bytes "chunked") ≡ true) (split b',' v)
only_chunked-some none e = absurd ground (arith, e)
only_chunked-some (some []) e = absurd ground (arith, e)
only_chunked-some (some (c ∷ v)) e =
    (c ∷ v, refl, (λ q. cc), (all_chunked_iff (split b',' (c ∷ v))).0 e)

some-only_chunked :
    (v : List ℕ)
    → v ≢ []
    → All (λ t. eq_ignore_ascii_case (trim t) (bytes "chunked") ≡ true) (split b',' v)
    → only_chunked (some v) ≡ true
some-only_chunked [] n h = absurd (n refl)
some-only_chunked (c ∷ v) n h = (all_chunked_iff (split b',' (c ∷ v))).1 h

Framing-keep : (line : Bytes) → Framing line → keep line ≡ false
unfolding keep
Framing-keep line f =
    rw
      (
        f.parts,
        at_colon-parts f.name f.value f.first_colon,
        f.name_reads,
        f.names,
        f.value_reads,
        some-only_chunked f.value_text f.has_value f.codings,
      )
      refl

keep-Framing : (line : Bytes) → keep line ≡ false → Framing line
unfolding keep
keep-Framing line e = elim (Option-cases (at_colon line)) [
  | inl z ↦ absurd ground (arith, e, z)
  | inr ((name, value), z) ↦
      let (p, c) = parts-at_colon line name value z in
      let (n, en, names) = is_te-some (from_utf8 name) (ground (arith, e, z)) in
      let (v, ev, some_value, all) = only_chunked-some (from_utf8 value) (ground (arith, e, z)) in
      record {
        name = name;
        value = value;
        name_text = n;
        value_text = v;
        parts = p;
        first_colon = c;
        name_reads = en;
        names = names;
        value_reads = ev;
        has_value = some_value;
        codings = all;
      }
]

differ : (b : Bool) → b ≡ true → ¬ (b ≡ false)
differ b e h = ground (arith, e, h)

pub keep-plain : (line : Bytes) → keep line ≡ true → ¬ Framing line
keep-plain line e f = differ (keep line) e (Framing-keep line f)

kept-Filtered : (lines : List Bytes) → Filtered lines (kept lines)
unfolding kept
kept-Filtered [] = nothing
kept-Filtered (line ∷ lines) = elim (Bool-cases (keep line)) [
  | inl e ↦ rw e (stays (keep-plain line e) (kept-Filtered lines))
  | inr e ↦ rw e (drops (keep-Framing line e) (kept-Filtered lines))
]

plain-keep : (line : Bytes) → ¬ Framing line → keep line ≡ true
plain-keep line n = elim (Bool-cases (keep line)) [
  | inl e ↦ e
  | inr e ↦ absurd (n (keep-Framing line e))
]

-- A head whose lines have no CR, are not empty behind the first, and whose first line is not a
-- `Transfer-Encoding` of `chunked` alone, comes out without the lines that are, the others in order,
-- whatever follows the head.
pub reframe_head-Filtered :
    (first : Bytes) (lines : List Bytes) (rest : Bytes)
    → All (λ c. c ≢ b'\r') first
    → ¬ Framing first
    → All Line lines
    → (left : List Bytes) × Filtered lines left
      × (reframe_head_for_tunnel (wire first lines ++ rest) ≡ wire first left)
reframe_head-Filtered first lines rest h n k =
    (kept lines, kept-Filtered lines, reframe_head-wire first lines rest h (plain-keep first n) k)
