-- ===== src/Base/Maps.antt =====
-- `HashMap` as an association list, for keys with a Boolean equality.
use Prim.Native.Nat.{ℕ, ◌+◌, ◌≤◌}
use mathlib.Core.Path.{◌≡◌, refl}
use mathlib.Core.Logic.{◌↔◌, ◌≢◌}
use mathlib.Core.Bool.{Bool, true}
use mathlib.Core.Option.{Option, none, some}
use mathlib.Core.List.{List, [], ◌∷◌}
use native.Mathlib.Omega.{arith}
use anvil_ring.Base.Tests.{◌==◌, ==_iff, if◌then◌else◌}
use anvil_ring.Base.Lists.{Bytes, bytes_eq, bytes_eq_iff, length}

pub record Key (K : Type 0) : Type 0 where
  pub eq : K → K → Bool
  pub eq_iff : (a b : K) → (eq a b ≡ true) ↔ (a ≡ b)

instance abbrev pub nat_key : Key ℕ
nat_key = record { eq = ◌==◌; eq_iff = ==_iff }

instance abbrev pub bytes_key : Key Bytes
bytes_key = record { eq = bytes_eq; eq_iff = bytes_eq_iff }

abbrev pub Map : Type 0 → Type 0 → Type 0
Map K V = List (K × V)

module _ {K V : Type 0} ⦃key : Key K⦄ where
  unfoldable pub get : K → Map K V → Option V
  get k [] = none
  get k ((j, v) ∷ m) = if key.eq j k then some v else get k m

  unfoldable pub remove : K → Map K V → Map K V
  remove k [] = []
  remove k ((j, v) ∷ m) = let rest = remove k m in if key.eq j k then rest else (j, v) ∷ rest

  unfoldable pub insert : K → V → Map K V → Map K V
  unfolding remove
  insert k v m = (k, v) ∷ remove k m

  pub get-remove :
      (k j : K) (m : Map K V) → get j (remove k m) ≡ (if key.eq k j then none else get j m)
  unfolding get remove
  get-remove k j [] = ground arith
  get-remove k j ((i, v) ∷ m) =
      ground (arith, get-remove k j m, key.eq_iff i k, key.eq_iff i j, key.eq_iff k j)

  get-insert_step :
      (k j : K) (v : V) (m : Map K V)
      → get j (insert k v m) ≡ (if key.eq k j then some v else get j (remove k m))
  unfolding get insert
  get-insert_step k j v m = refl

  pub get-insert :
      (k j : K) (v : V) (m : Map K V)
      → get j (insert k v m) ≡ (if key.eq k j then some v else get j m)
  get-insert k j v m = ground (arith, get-insert_step k j v m, get-remove k j m)

  pub get-insert_self : (k : K) (v : V) (m : Map K V) → get k (insert k v m) ≡ some v
  get-insert_self k v m = ground (arith, get-insert k k v m, key.eq_iff k k)

  pub get-remove_self : (k : K) (m : Map K V) → get k (remove k m) ≡ none
  get-remove_self k m = ground (arith, get-remove k k m, key.eq_iff k k)

  pub get-insert_ne : (k j : K) (v : V) (m : Map K V) → k ≢ j → get j (insert k v m) ≡ get j m
  get-insert_ne k j v m h = ground (arith, get-insert k j v m, key.eq_iff k j)

  pub get-remove_ne : (k j : K) (m : Map K V) → k ≢ j → get j (remove k m) ≡ get j m
  get-remove_ne k j m h = ground (arith, get-remove k j m, key.eq_iff k j)

  pub length-remove : (k : K) (m : Map K V) → length (remove k m) ≤ length m
  unfolding remove
  length-remove k [] = omega arith
  length-remove k ((j, v) ∷ m) = ground (arith, length-remove k m)

  pub length-insert : (k : K) (v : V) (m : Map K V) → length (insert k v m) ≤ length m + 1
  unfolding insert
  length-insert k v m = omega (arith, length-remove k m)

  pub length-remove_present :
      (k : K) (v : V) (m : Map K V) → get k m ≡ some v → length (remove k m) + 1 ≤ length m
  unfolding get remove
  length-remove_present k v [] e = ground arith
  length-remove_present k v ((j, w) ∷ m) e =
      ground (arith, length-remove_present k v m, length-remove k m)

  pub length-insert_present :
      (k : K) (v w : V) (m : Map K V) → get k m ≡ some v → length (insert k w m) ≤ length m
  unfolding insert
  length-insert_present k v w m e = omega (arith, length-remove_present k v m e)
