-- ===== src/Tunnel/Owned.antt =====
-- Which pumps run: those whose handles are in the map of streams, and no others.
use anvil_ring.Base.{
  ℕ, ◌+◌, ◌<◌, ◌≡◌, ◌⊎◌, refl, true, false, Option, none, some, List, [], ◌∷◌, ◌++◌, Map, get,
  insert, remove, nat_key, mem, ==_iff, arith, get-insert, get-remove, Bool-cases, inl, inr, ◌==◌,
  ◌||◌,
}
use anvil_ring.Tunnel.{StreamHandle, drop_handle, pumps_of}

pub record Owned (streams : Map ℕ StreamHandle) (aborted : List ℕ) (n : ℕ) : Type 0 where
  pub bound : (id : ℕ) (h : StreamHandle) → get id streams ≡ some h → h.pump < n
  pub apart :
      (i j : ℕ) (h k : StreamHandle)
      → get i streams ≡ some h
      → get j streams ≡ some k
      → h.pump ≡ k.pump
      → i ≡ j
  pub live : (id : ℕ) (h : StreamHandle) → get id streams ≡ some h → mem h.pump aborted ≡ false
  pub past : (p : ℕ) → mem p aborted ≡ true → p < n
  pub known :
      (p : ℕ)
      → p < n
      → mem p aborted ≡ false
      → (id : ℕ) × (h : StreamHandle) × (get id streams ≡ some h) × (h.pump ≡ p)

pub empty-Owned : Owned [] [] 0
unfolding get mem
empty-Owned = record {
  bound = λ id h e. ground arith;
  apart = λ i j h k e f g. ground arith;
  live = λ id h e. ground arith;
  past = λ p e. ground arith;
  known = λ p l e. absurd (omega arith);
}

mem-drop_handle :
    (o : Option StreamHandle) (p : ℕ) (aborted : List ℕ)
    → mem p (drop_handle o aborted) ≡ false
    → mem p aborted ≡ false
unfolding mem
mem-drop_handle none p aborted e = e
mem-drop_handle (some h) p aborted e = ground arith

-- What is known of the pumps whose handles stay when `id` loses its own.
module _ (id : ℕ) (streams : Map ℕ StreamHandle) (aborted : List ℕ) (n : ℕ)
    (c : Owned streams aborted n) where
  stays :
      (o : Option StreamHandle) (j : ℕ) (k : StreamHandle)
      → get id streams ≡ o
      → get j streams ≡ some k
      → (id == j) ≡ false
      → mem k.pump (drop_handle o aborted) ≡ false
  unfolding mem
  stays none j k e f g = c.live j k f
  stays (some h) j k e f g = elim (Bool-cases (h.pump == k.pump)) [
    | inl t ↦ absurd ground (arith, c.apart id j h k e f (ground (arith, t)))
    | inr t ↦ ground (arith, t, c.live j k f)
  ]

  stays_known :
      (o : Option StreamHandle) (p : ℕ)
      → get id streams ≡ o
      → mem p (drop_handle o aborted) ≡ false
      → (j : ℕ) × (k : StreamHandle) × (get j streams ≡ some k) × (k.pump ≡ p)
      → (j : ℕ) × (k : StreamHandle) × (get j (remove id streams) ≡ some k) × (k.pump ≡ p)
  unfolding mem
  stays_known o p e f (j, k, g, u) = elim (Bool-cases (id == j)) [
    | inl t ↦ absurd ground (arith, e, f, g, u, t)
    | inr t ↦ (j, k, ground (arith, get-remove id j streams, g, t), u)
  ]

  dropped_past :
      (o : Option StreamHandle) (p : ℕ)
      → get id streams ≡ o
      → mem p (drop_handle o aborted) ≡ true
      → p < n
  unfolding mem
  dropped_past none p e f = c.past p f
  dropped_past (some h) p e f = ground (arith, c.past p, c.bound id h e)

  pub remove-Owned : Owned (remove id streams) (drop_handle (get id streams) aborted) n
  remove-Owned = record {
    bound = λ j h e. ground (arith, get-remove id j streams, c.bound j h);
    apart = λ i j h k e f g.
        ground (arith, get-remove id j streams, get-remove id i streams, c.apart i j h k);
    live = λ j h e. ground (arith, get-remove id j streams, stays (get id streams) j h refl);
    past = λ p e. dropped_past (get id streams) p refl e;
    known = λ p l e.
        stays_known (get id streams) p refl e
          (c.known p l (mem-drop_handle (get id streams) p aborted e));
  }

  -- The new handle's pump is the next one.
  inserted_known :
      (h : StreamHandle) (p : ℕ)
      → h.pump ≡ n
      → p < n + 1
      → mem p (drop_handle (get id streams) aborted) ≡ false
      → (j : ℕ) × (k : StreamHandle) × (get j (insert id h streams) ≡ some k) × (k.pump ≡ p)
  inserted_known h p u l e = elim (Bool-cases (p == n)) [
    | inl t ↦ (id, h, ground (arith, get-insert id id h streams, ==_iff id id), ground (arith, t))
    | inr t ↦
        let (j, k, f, v) = remove-Owned.known p (ground (arith, t)) e in
        (j, k, ground (arith, get-insert id j h streams, get-remove id j streams, f), v)
  ]

  module _ (h : StreamHandle) (u : h.pump ≡ n) where
    inserted :
        (j : ℕ) (k : StreamHandle)
        → get j (insert id h streams) ≡ some k
        → ((j ≡ id) × (k.pump ≡ n)) ⊎ (get j (remove id streams) ≡ some k)
    inserted j k e =
        ground (arith, u, get-insert id j h streams, get-remove id j streams, ==_iff id j)

    inserted_bound :
        (j : ℕ) (k : StreamHandle) → get j (insert id h streams) ≡ some k → k.pump < n + 1
    inserted_bound j k e = elim (inserted j k e) [
      | inl (t, v) ↦ omega arith
      | inr f ↦ omega (arith, remove-Owned.bound j k f)
    ]

    inserted_apart :
        (i j : ℕ) (k l : StreamHandle)
        → get i (insert id h streams) ≡ some k
        → get j (insert id h streams) ≡ some l
        → k.pump ≡ l.pump
        → i ≡ j
    inserted_apart i j k l e f g = elim (inserted i k e) [
      | inl (t, v) ↦ elim (inserted j l f) [
        | inl (t', v') ↦ omega arith
        | inr f' ↦ absurd omega (arith, remove-Owned.bound j l f')
      ]
      | inr e' ↦ elim (inserted j l f) [
        | inl (t', v') ↦ absurd omega (arith, remove-Owned.bound i k e')
        | inr f' ↦ remove-Owned.apart i j k l e' f' g
      ]
    ]

    inserted_live :
        (j : ℕ) (k : StreamHandle)
        → get j (insert id h streams) ≡ some k
        → mem k.pump (drop_handle (get id streams) aborted) ≡ false
    inserted_live j k e = elim (inserted j k e) [
      | inl (t, v) ↦ elim (Bool-cases (mem k.pump (drop_handle (get id streams) aborted))) [
        | inl f ↦ absurd omega (arith, remove-Owned.past k.pump f)
        | inr f ↦ f
      ]
      | inr e' ↦ remove-Owned.live j k e'
    ]

    pub insert-Owned : Owned (insert id h streams) (drop_handle (get id streams) aborted) (n + 1)
    insert-Owned = record {
      bound = inserted_bound;
      apart = inserted_apart;
      live = inserted_live;
      past = λ p e. omega (arith, remove-Owned.past p e);
      known = λ p l e. inserted_known h p u l e;
    }

  held_known :
      (h k : StreamHandle) (p : ℕ)
      → get id streams ≡ some h
      → k.pump ≡ h.pump
      → (j : ℕ) × (l : StreamHandle) × (get j streams ≡ some l) × (l.pump ≡ p)
      → (j : ℕ) × (l : StreamHandle) × (get j (insert id k streams) ≡ some l) × (l.pump ≡ p)
  held_known h k p e u (j, l, f, v) = elim (Bool-cases (id == j)) [
    | inl t ↦ (
      j,
      k,
      ground (arith, get-insert id j k streams, t),
      ground (arith, u, e, f, v, t, ==_iff id j),
    )
    | inr t ↦ (j, l, ground (arith, get-insert id j k streams, t, f), v)
  ]

  -- A change of what waits for a pump.
  pub held-Owned :
      (h k : StreamHandle)
      → get id streams ≡ some h
      → k.pump ≡ h.pump
      → Owned (insert id k streams) aborted n
  held-Owned h k e u = record {
    bound = λ j l f. ground (arith, u, get-insert id j k streams, c.bound id h e, c.bound j l);
    apart = λ i j l m f g v. ground (
      arith,
      u,
      get-insert id j k streams,
      get-insert id i k streams,
      ==_iff id i,
      ==_iff id j,
      c.apart i j l m,
      c.apart i id l h,
      c.apart id j h m,
    );
    live = λ j l f. ground (arith, u, get-insert id j k streams, c.live id h e, c.live j l);
    past = c.past;
    known = λ p l f. held_known h k p e u (c.known p l f);
  }

-- The pumps of a map are those of its entries.
pub get-pumps_of :
    (id : ℕ) (h : StreamHandle) (m : Map ℕ StreamHandle)
    → get id m ≡ some h
    → mem h.pump (pumps_of m) ≡ true
unfolding get mem
get-pumps_of id h [] e = ground arith
get-pumps_of id h ((j, k) ∷ m) e = ground (arith, get-pumps_of id h m, ==_iff k.pump h.pump)

pub mem-append : (p : ℕ) (xs ys : List ℕ) → mem p (xs ++ ys) ≡ (mem p xs || mem p ys)
unfolding mem
mem-append p [] ys = refl
mem-append p (x ∷ xs) ys = ground (arith, mem-append p xs ys)

-- Once all handles are dropped, every pump has been aborted.
pub cleared :
    (m : Map ℕ StreamHandle) (aborted : List ℕ) (n : ℕ)
    → Owned m aborted n
    → (p : ℕ) → p < n
    → mem p (pumps_of m ++ aborted) ≡ true
cleared m aborted n c p l = elim (Bool-cases (mem p aborted)) [
  | inl t ↦ ground (arith, mem-append p (pumps_of m) aborted, t)
  | inr t ↦
      let (id, h, e, u) = c.known p l t in
      ground (arith, mem-append p (pumps_of m) aborted, get-pumps_of id h m e, u)
]
