-- ===== src/Headers/Assoc.antt =====
-- A header map that is a list of fields: the interface of the crate `http` can be met.
use anvil_ring.Base.{
  ℕ, ◌≡◌, refl, Bool, true, false, ◌&&◌, ◌||◌, Option, none, some, List, [], ◌∷◌, Bytes, bytes,
  arith, ◌==◌, mem, bytes_eq, bytes_eq_iff, if◌then◌else◌,
}
use anvil_ring.Text.{in_range, to_ascii_lowercase}
use anvil_ring.Headers.Fields.{HeaderMap, lower, values, plain_letter, plain_letters}

abbrev Fields : Type 0
Fields = List (Bytes × Bytes)

-- The characters of a name: a token of HTTP without capitals.
abbrev name_char : ℕ → Bool
name_char c = plain_letter c || (in_range b'0' b'9' c || mem c (bytes "!#$%&'*+.^_`|~"))

unfoldable pub name_chars : Bytes → Bool
name_chars [] = true
name_chars (c ∷ n) = name_char c && name_chars n

abbrev is_name : Bytes → Bool
is_name [] = false
is_name (c ∷ n) = name_chars (c ∷ n)

-- Visible ASCII, blanks and tabs.
unfoldable pub text_chars : Bytes → Bool
text_chars [] = true
text_chars (c ∷ s) = (in_range 32 126 c || c == 9) && text_chars s

abbrev to_str : Bytes → Option Bytes
to_str s = if text_chars s then some s else none

abbrev get_all : Bytes → Fields → List Bytes
get_all n m = if is_name n then values n m else []

unfoldable pub remove : Bytes → Fields → Fields
remove k [] = []
remove k ((j, v) ∷ m) =
    let rest = remove k m in if bytes_eq (lower j) k then rest else (j, v) ∷ rest

abbrev insert : Bytes → Bytes → Fields → Fields
insert k v m = (k, v) ∷ remove k m

unfoldable pub fields : Fields → Fields
fields [] = []
fields ((j, v) ∷ m) = let rest = fields m in if is_name (lower j) then (lower j, v) ∷ rest else rest

unfoldable pub all_names : Fields → Bool
all_names [] = true
all_names ((j, v) ∷ m) = is_name (lower j) && all_names m

abbrev build : Fields → Option Fields
build fs = if all_names fs then some fs else none

lower-char : (c : ℕ) → name_char c ≡ true → to_ascii_lowercase c ≡ c
unfolding to_ascii_lowercase mem
lower-char c e = ground (arith, e)

lower-name_chars : (n : Bytes) → name_chars n ≡ true → lower n ≡ n
unfolding name_chars
lower-name_chars [] e = refl
lower-name_chars (c ∷ n) e = ground (arith, lower-char c, lower-name_chars n, e)

is_name-lower : (n : Bytes) → is_name n ≡ true → lower n ≡ n
is_name-lower [] e = refl
is_name-lower (c ∷ n) e = lower-name_chars (c ∷ n) e

name_chars-plain : (n : Bytes) → plain_letters n ≡ true → name_chars n ≡ true
unfolding name_chars
name_chars-plain [] h = refl
name_chars-plain (c ∷ n) h = ground (arith, name_chars-plain n, h)

values-remove :
    (k n : Bytes) (m : Fields) → values n (remove k m) ≡ (if bytes_eq k n then [] else values n m)
unfolding values remove
values-remove k n [] = ground arith
values-remove k n ((j, v) ∷ m) = ground (
  arith,
  values-remove k n m,
  bytes_eq_iff (lower j) k,
  bytes_eq_iff (lower j) n,
  bytes_eq_iff k n,
)

values-fields : (n : Bytes) (m : Fields) → is_name n ≡ true → values n (fields m) ≡ values n m
unfolding values fields
values-fields n [] e = refl
values-fields n ((j, v) ∷ m) e =
    ground (arith, values-fields n m e, is_name-lower (lower j), bytes_eq_iff (lower j) n)

values-fields_none : (n : Bytes) (m : Fields) → is_name n ≡ false → values n (fields m) ≡ []
unfolding values fields
values-fields_none n [] e = refl
values-fields_none n ((j, v) ∷ m) e =
    ground (arith, values-fields_none n m e, is_name-lower (lower j), bytes_eq_iff (lower j) n)

values-all_names :
    (n : Bytes) (fs : Fields) → all_names fs ≡ true → is_name n ≡ false → values n fs ≡ []
unfolding values all_names
values-all_names n [] a e = refl
values-all_names n ((j, v) ∷ fs) a e =
    ground (arith, values-all_names n fs, a, e, bytes_eq_iff (lower j) n)

values-insert :
    (k v n : Bytes) (m : Fields)
    → values n (insert k v m)
      ≡ (if bytes_eq (lower k) n then v ∷ values n (remove k m) else values n (remove k m))
unfolding values
values-insert k v n m = refl

get_all-insert :
    (k v n : Bytes) (m : Fields)
    → is_name k ≡ true
    → get_all n (insert k v m) ≡ (if bytes_eq k n then v ∷ [] else get_all n m)
get_all-insert k v n m e =
    ground
      (arith, values-insert k v n m, values-remove k n m, is_name-lower k e, bytes_eq_iff k n, e)

get_all-is_name : (n : Bytes) (m : Fields) → is_name n ≡ false → get_all n m ≡ []
get_all-is_name n m e = rw e

get_all-remove :
    (k n : Bytes) (m : Fields) → get_all n (remove k m) ≡ (if bytes_eq k n then [] else get_all n m)
get_all-remove k n m = ground (arith, values-remove k n m)

get_all-fields : (n : Bytes) (m : Fields) → get_all n m ≡ values n (fields m)
get_all-fields n m = ground (arith, values-fields n m, values-fields_none n m)

get_all-build : (n : Bytes) (fs m : Fields) → build fs ≡ some m → get_all n m ≡ values n fs
get_all-build n fs m e = ground (arith, values-all_names n fs, e)

instance unfoldable pub assoc_map : HeaderMap Fields
unfolding is_name-lower name_chars-plain values-remove get_all-insert values-fields
    values-fields_none values-all_names values-insert lower-name_chars lower-char get_all-is_name
    get_all-remove get_all-fields get_all-build
assoc_map = record {
  is_name = is_name;
  to_str = to_str;
  from_str = to_str;
  get_all = get_all;
  insert = insert;
  remove = remove;
  fields = fields;
  build = build;
  is_name-lower = is_name-lower;
  is_name_empty = refl;
  is_name-plain = λ c n h. name_chars-plain (c ∷ n) h;
  get_all-is_name = get_all-is_name;
  get_all-remove = get_all-remove;
  get_all-insert = get_all-insert;
  get_all-fields = get_all-fields;
  get_all-build = get_all-build;
}
