-- ===== src/Headers/Strip.antt =====
-- What the removal of the hop-by-hop fields takes and what it leaves.
use anvil_ring.Base.{
  ℕ, ◌+◌, ◌≡◌, refl, sym, ◌∙◌, ◌≢◌, ◌↔◌, ◌⊎◌, inl, inr, Bool, true, false, ◌||◌, Option, none, some,
  List, [], ◌∷◌, ◌++◌, Bytes, bytes, All, arith, bytes_eq, bytes_eq_iff, bytes_eq_refl, Bool-cases,
  if◌then◌else◌,
}
use anvil_ring.Text.{trim, split, eq_ignore_ascii_case, to_ascii_lowercase}
use anvil_ring.Headers.{
  always_strip, any_name, is_hop_by_hop, contains, set_insert, add_token, add_tokens, add_value,
  count, conditional, remove_all, remove_named, strip_hop_by_hop,
}
use anvil_ring.Headers.Fields.{HeaderMap, lower, values, get, is_some}

All-map :
    {P Q : Bytes × Bytes → Type 0}
    → ((f : Bytes × Bytes) → P f → Q f)
    → (fs : List (Bytes × Bytes)) → All P fs
    → All Q fs
All-map i [] a = tt
All-map i (f ∷ fs) (p, a) = (i f p, All-map i fs a)

abbrev pub Any {ℓ} : {A : Type ℓ} → (A → Type 0) → List A → Type 0
Any P [] = ⊥
Any P (x ∷ xs) = P x ⊎ Any P xs

eq_ignore_ascii_case-lower :
    (xs ys : Bytes) → eq_ignore_ascii_case xs ys ≡ bytes_eq (lower xs) (lower ys)
unfolding eq_ignore_ascii_case bytes_eq
eq_ignore_ascii_case-lower [] [] = refl
eq_ignore_ascii_case-lower [] (y ∷ ys) = refl
eq_ignore_ascii_case-lower (x ∷ xs) [] = refl
eq_ignore_ascii_case-lower (x ∷ xs) (y ∷ ys) = rw (eq_ignore_ascii_case-lower xs ys)

-- Among names in lower case the rule is membership.
any_name-contains :
    (hs : List Bytes) (n : Bytes)
    → All (λ h. lower h ≡ h) hs
    → lower n ≡ n
    → any_name hs n ≡ contains n hs
unfolding any_name contains
any_name-contains [] n l e = refl
any_name-contains (h ∷ hs) n (p, l) e =
    rw (eq_ignore_ascii_case-lower h n, p, e, any_name-contains hs n l e)

always_strip-lower : All (λ h. lower h ≡ h) always_strip
unfolding to_ascii_lowercase
always_strip-lower = (refl, (refl, (refl, (refl, (refl, (refl, (refl, (refl, (refl, tt)))))))))

is_hop_by_hop-contains : (n : Bytes) → lower n ≡ n → is_hop_by_hop n ≡ contains n always_strip
unfolding is_hop_by_hop
is_hop_by_hop-contains n e = any_name-contains always_strip n always_strip-lower e

contains-append :
    (n t : Bytes) (set : List Bytes)
    → contains n (set ++ (t ∷ [])) ≡ (contains n set || bytes_eq t n)
unfolding contains
contains-append n t [] = ground arith
contains-append n t (u ∷ set) = ground (arith, contains-append n t set)

contains-set_insert :
    (n t : Bytes) (set : List Bytes)
    → contains n (set_insert t set) ≡ (contains n set || bytes_eq t n)
contains-set_insert n t set = ground (arith, contains-append n t set, bytes_eq_iff t n)

-- A text that names the field.
abbrev pub NamedIn : Bytes → Option Bytes → Type 0
NamedIn n none = ⊥
NamedIn n (some s) = Any (λ p. lower (trim p) ≡ n) (split b',' s)

contains-add_token :
    (n t : Bytes) (set : List Bytes)
    → n ≢ []
    → (contains n (add_token t set) ≡ true) ↔ ((contains n set ≡ true) ⊎ (t ≡ n))
contains-add_token n [] set ne =
    ((λ h. inl h), λ h. elim h [ inl k ↦ k | inr k ↦ absurd (ne (sym k)) ])
contains-add_token n (c ∷ t) set ne =
    ground (arith, contains-set_insert n (c ∷ t) set, bytes_eq_iff (c ∷ t) n)

contains-add_tokens :
    (n : Bytes) (ps set : List Bytes)
    → n ≢ []
    → (contains n (add_tokens ps set) ≡ true)
      ↔ ((contains n set ≡ true) ⊎ Any (λ p. lower (trim p) ≡ n) ps)
unfolding add_tokens
contains-add_tokens n [] set ne = ground arith
contains-add_tokens n (p ∷ ps) set ne = ground (
  arith,
  contains-add_token n (lower (trim p)) set ne,
  contains-add_tokens n ps (add_token (lower (trim p)) set) ne,
)

contains-add_value :
    (n : Bytes) (o : Option Bytes) (set : List Bytes)
    → n ≢ []
    → (contains n (add_value o set) ≡ true) ↔ ((contains n set ≡ true) ⊎ NamedIn n o)
contains-add_value n none set ne = ground arith
contains-add_value n (some s) set ne = contains-add_tokens n (split b',' s) set ne

contains-conditional :
    (n : Bytes) (to_str : Bytes → Option Bytes) (vs set : List Bytes)
    → n ≢ []
    → (contains n (conditional to_str vs set) ≡ true)
      ↔ ((contains n set ≡ true) ⊎ Any (λ v. NamedIn n (to_str v)) vs)
unfolding conditional
contains-conditional n to_str [] set ne = ground arith
contains-conditional n to_str (v ∷ vs) set ne = ground (
  arith,
  contains-add_value n (to_str v) set ne,
  contains-conditional n to_str vs (add_value (to_str v) set) ne,
)

not_empty : (is_name : Bytes → Bool) (n : Bytes) → is_name [] ≡ false → is_name n ≡ true → n ≢ []
not_empty is_name [] e f k = absurd ground (arith, e, f)
not_empty is_name (c ∷ n) e f k = absurd ground (arith, k)

lower_twice : (n : Bytes) → lower (lower n) ≡ lower n
unfolding to_ascii_lowercase
lower_twice [] = refl
lower_twice (c ∷ n) = ground (arith, lower_twice n)

any_name-lower : (hs : List Bytes) (n : Bytes) → any_name hs (lower n) ≡ any_name hs n
unfolding any_name
any_name-lower [] n = refl
any_name-lower (h ∷ hs) n = rw (
  eq_ignore_ascii_case-lower h (lower n),
  eq_ignore_ascii_case-lower h n,
  lower_twice n,
  any_name-lower hs n,
)

-- The rule does not depend on the case of letters.
is_hop_by_hop-lower : (n : Bytes) → is_hop_by_hop (lower n) ≡ is_hop_by_hop n
unfolding is_hop_by_hop
is_hop_by_hop-lower n = any_name-lower always_strip n

values-tail :
    (n : Bytes) (f : Bytes × Bytes) (fs : List (Bytes × Bytes))
    → values n (f ∷ fs) ≡ []
    → values n fs ≡ []
unfolding values
values-tail n f fs e = ground (arith, e)

values-own : (f : Bytes × Bytes) (fs : List (Bytes × Bytes)) → values (lower f.0) (f ∷ fs) ≢ []
unfolding values
values-own f fs e = absurd ground (arith, e, bytes_eq_refl (lower f.0))

-- Names without a value are not the name of a field.
values-absent :
    (q : Bytes → Bool) (fs : List (Bytes × Bytes))
    → ((n : Bytes) → q n ≡ true → values n fs ≡ [])
    → All (λ f. q (lower f.0) ≡ false) fs
values-absent q [] e = tt
values-absent q (f ∷ fs) e = elim (Bool-cases (q (lower f.0))) [
  | inl k ↦ absurd (values-own f fs (e (lower f.0) k))
  | inr k ↦ (k, values-absent q fs (λ n i. values-tail n f fs (e n i)))
]

module _ {M : Type 0} ⦃h : HeaderMap M⦄ where
  -- A value of `Connection` has the name between its commas, in any case and with white space around it.
  abbrev pub Named : Bytes → M → Type 0
  Named n m = Any (λ v. NamedIn n (h.to_str v)) (h.get_all (bytes "connection") m)

  get_all-remove_all :
      (n : Bytes) (ns : List Bytes) (k : ℕ) (m : M)
      → h.get_all n (remove_all ns k m).1 ≡ (if contains n ns then [] else h.get_all n m)
  unfolding remove_all contains
  get_all-remove_all n [] k m = refl
  get_all-remove_all n (t ∷ ns) k m = ground (
    arith,
    get_all-remove_all n ns (k + count (is_some (get t m))) (h.remove t m),
    h.get_all-remove t n m,
  )

  get_all-remove_named :
      (n : Bytes) (ns : List Bytes) (k : ℕ) (m : M)
      → h.get_all n (remove_named ns k m).1 ≡ (if contains n ns then [] else h.get_all n m)
  unfolding remove_named contains
  get_all-remove_named n [] k m = refl
  get_all-remove_named n (t ∷ ns) k m = ground (
    arith,
    get_all-remove_named n ns (k + count (is_some (get t m))) (h.remove t m),
    get_all-remove_named n ns k m,
    h.get_all-remove t n m,
    h.get_all-is_name t m,
    bytes_eq_iff t n,
  )

  abbrev named_of : M → List Bytes
  named_of m = conditional h.to_str (h.get_all (bytes "connection") m) []

  strip_steps :
      (m : M)
      → strip_hop_by_hop m
        ≡ remove_named (named_of m) (remove_all always_strip 0 m).0 (remove_all always_strip 0 m).1
  unfolding strip_hop_by_hop
  strip_steps m = refl

  get_all-strip :
      (n : Bytes) (m : M)
      → h.get_all n (strip_hop_by_hop m).1 ≡ (
          if contains n (named_of m)
          then []
          else if contains n always_strip
          then []
          else h.get_all n m)
  get_all-strip n m = rw (
    strip_steps m,
    get_all-remove_named n (named_of m) (remove_all always_strip 0 m).0
        (remove_all always_strip 0 m).1,
    get_all-remove_all n always_strip 0 m,
  )

  -- A field goes when the rule says so, or when `Connection` names it.
  abbrev pub Dropped : Bytes → M → Type 0
  Dropped n m = (is_hop_by_hop n ≡ true) ⊎ Named n m

  -- After the removal a hop-by-hop field, and a field that a readable value of `Connection` names, has
  -- no value, and any other field has the values that it had, in order.
  pub get_all-strip_hop_by_hop :
      (n : Bytes) (m : M)
      → (Dropped n m → h.get_all n (strip_hop_by_hop m).1 ≡ [])
        × (¬ Dropped n m → h.get_all n (strip_hop_by_hop m).1 ≡ h.get_all n m)
  unfolding contains
  get_all-strip_hop_by_hop n m = elim (Bool-cases (h.is_name n)) [
    | inl e ↦ ground (
      arith,
      get_all-strip n m,
      is_hop_by_hop-contains n (h.is_name-lower n e),
      contains-conditional n h.to_str (h.get_all (bytes "connection") m) []
          (not_empty h.is_name n h.is_name_empty e),
    )
    | inr e ↦ ground (arith, h.get_all-is_name n m e, h.get_all-is_name n (strip_hop_by_hop m).1 e)
  ]

  -- Nothing is named by `Connection` any more.
  pub Named-strip : (n : Bytes) (m : M) → ¬ Named n (strip_hop_by_hop m).1
  unfolding is_hop_by_hop eq_ignore_ascii_case
  Named-strip n m k = rw ((get_all-strip_hop_by_hop (bytes "connection") m).0 (inl refl)) at k

  strip-values :
      (m : M) (n : Bytes) → is_hop_by_hop n ≡ true → values n (h.fields (strip_hop_by_hop m).1) ≡ []
  strip-values m n e =
      sym (h.get_all-fields n (strip_hop_by_hop m).1) ∙ (get_all-strip_hop_by_hop n m).0 (inl e)

  -- No field that is left is hop-by-hop.
  pub fields-strip_hop_by_hop :
      (m : M) → All (λ f. is_hop_by_hop f.0 ≡ false) (h.fields (strip_hop_by_hop m).1)
  fields-strip_hop_by_hop m =
      All-map (λ f e. sym (is_hop_by_hop-lower f.0) ∙ e) (h.fields (strip_hop_by_hop m).1)
        (values-absent is_hop_by_hop (h.fields (strip_hop_by_hop m).1) (strip-values m))
