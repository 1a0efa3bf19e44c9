-- ===== src/Headers/Fields.antt =====
-- `HeaderMap`, `HeaderName` and `HeaderValue` of the crate `http`, as the program uses them: an
-- interface of operations with the laws that the crate documents. A name is its text.
use anvil_ring.Base.{
  ℕ, ◌≡◌, Bool, true, false, ◌&&◌, ◌||◌, Option, none, some, List, [], ◌∷◌, map, Bytes, ◌==◌,
  bytes_eq, if◌then◌else◌,
}
use anvil_ring.Text.{in_range, to_ascii_lowercase}

abbrev pub lower : Bytes → Bytes
lower = map to_ascii_lowercase

-- The values of the fields with the name, whatever the case of their letters, in order.
unfoldable pub values : Bytes → List (Bytes × Bytes) → List Bytes
values n [] = []
values n ((k, v) ∷ fs) = let rest = values n fs in if bytes_eq (lower k) n then v ∷ rest else rest

abbrev pub first : List Bytes → Option Bytes
first [] = none
first (v ∷ vs) = some v

abbrev pub is_some : Option Bytes → Bool
is_some none = false
is_some (some v) = true

-- The letters of the names that the program itself writes down.
abbrev pub plain_letter : ℕ → Bool
plain_letter c = in_range b'a' b'z' c || c == b'-'

abbrev pub plain_letters : Bytes → Bool
plain_letters [] = true
plain_letters (c ∷ n) = plain_letter c && plain_letters n

-- `is_name` says whether `HeaderName::from_lowercase` takes the text; `to_str` and `from_str` are those of
-- `HeaderValue`. `fields` is the iteration; `build` makes a map of the fields given to a builder.
pub record HeaderMap (M : Type 0) : Type 0 where
  pub is_name : Bytes → Bool
  pub to_str : Bytes → Option Bytes
  pub from_str : Bytes → Option Bytes
  pub get_all : Bytes → M → List Bytes
  pub insert : Bytes → Bytes → M → M
  pub remove : Bytes → M → M
  pub fields : M → List (Bytes × Bytes)
  pub build : List (Bytes × Bytes) → Option M
  pub is_name-lower : (n : Bytes) → is_name n ≡ true → lower n ≡ n
  pub is_name_empty : is_name [] ≡ false
  pub is_name-plain : (c : ℕ) (n : Bytes) → plain_letters (c ∷ n) ≡ true → is_name (c ∷ n) ≡ true
  pub get_all-is_name : (n : Bytes) (m : M) → is_name n ≡ false → get_all n m ≡ []
  pub get_all-remove :
      (k n : Bytes) (m : M) → get_all n (remove k m) ≡ (if bytes_eq k n then [] else get_all n m)
  pub get_all-insert :
      (k v n : Bytes) (m : M)
      → is_name k ≡ true
      → get_all n (insert k v m) ≡ (if bytes_eq k n then v ∷ [] else get_all n m)
  pub get_all-fields : (n : Bytes) (m : M) → get_all n m ≡ values n (fields m)
  pub get_all-build :
      (n : Bytes) (fs : List (Bytes × Bytes)) (m : M)
      → build fs ≡ some m
      → get_all n m ≡ values n fs

module _ {M : Type 0} ⦃h : HeaderMap M⦄ where
  -- `get`: the first value.
  abbrev pub get : Bytes → M → Option Bytes
  get n m = first (h.get_all n m)

  abbrev pub contains_key : Bytes → M → Bool
  contains_key n m = is_some (get n m)
