-- ===== src/Hub/Route/Least.antt =====
-- `reserve_route` finds the least loaded session that has room, with ties in the order of the ids.
use anvil_ring.Base.{
  ℕ, ◌≡◌, ◌≢◌, refl, sym, subst, ◌∙◌, Bool, true, false, some, List, [], ◌∷◌, Bytes, Map, get,
  nat_key, length, Result, ok, err, arith, All, Option-cases, Bool-cases, inl, inr, ◌⊎◌,
}
use anvil_ring.Hub.State.{Registry, ForwardError, no_tether, tether_busy}
use anvil_ring.Hub.Session.{reserve_stream_start}
use anvil_ring.Hub.Route.{
  Candidate, eligible, candidates_of, candidates, bytes_leb, precedes, place, sort, Offer, taken,
  full, passed, offer_of, offer, choose, reserve_route,
}

bytes_leb_total : (xs ys : Bytes) → bytes_leb xs ys ≡ false → bytes_leb ys xs ≡ true
unfolding bytes_leb
bytes_leb_total [] ys e = cc
bytes_leb_total (x ∷ xs) [] e = refl
bytes_leb_total (x ∷ xs) (y ∷ ys) e = ground (arith, bytes_leb_total xs ys)

bytes_leb_trans :
    (xs ys zs : Bytes) → bytes_leb xs ys ≡ true → bytes_leb ys zs ≡ true → bytes_leb xs zs ≡ true
unfolding bytes_leb
bytes_leb_trans [] ys zs e h = refl
bytes_leb_trans (x ∷ xs) [] zs e h = cc
bytes_leb_trans (x ∷ xs) (y ∷ ys) [] e h = cc
bytes_leb_trans (x ∷ xs) (y ∷ ys) (z ∷ zs) e h = ground (arith, bytes_leb_trans xs ys zs)

precedes_total : (a b : Candidate) → precedes a b ≡ false → precedes b a ≡ true
unfolding precedes
precedes_total a b e = ground (arith, bytes_leb_total a.id b.id)

precedes_trans :
    (a b c : Candidate) → precedes a b ≡ true → precedes b c ≡ true → precedes a c ≡ true
unfolding precedes
precedes_trans a b c e h = ground (arith, bytes_leb_trans a.id b.id c.id)

bytes_leb_refl : (xs : Bytes) → bytes_leb xs xs ≡ true
unfolding bytes_leb
bytes_leb_refl [] = refl
bytes_leb_refl (x ∷ xs) = ground (arith, bytes_leb_refl xs)

precedes_refl : (c : Candidate) → precedes c c ≡ true
unfolding precedes
precedes_refl c = ground (arith, bytes_leb_refl c.id)

abbrev Sorted : List Candidate → Type 0
Sorted [] = Unit
Sorted (c ∷ cs) = All (λ d. precedes c d ≡ true) cs × Sorted cs

module _ (P : Candidate → Type 0) where
  All-place : (c : Candidate) (cs : List Candidate) → P c → All P cs → All P (place c cs)
  unfolding place
  All-place c [] p h = (p, tt)
  All-place c (d ∷ ds) p (q, h) = elim (Bool-cases (precedes c d)) [
    | inl e ↦ rw e (p, (q, h))
    | inr e ↦ rw e (q, All-place c ds p h)
  ]

  place-All : (c : Candidate) (cs : List Candidate) → All P (place c cs) → P c × All P cs
  unfolding place
  place-All c [] (p, h) = (p, tt)
  place-All c (d ∷ ds) h = elim (Bool-cases (precedes c d)) [
    | inl e ↦ (rw e at h)
    | inr e ↦ let (q, h') = (rw e at h) in let (p, h'') = place-All c ds h' in (p, (q, h''))
  ]

  sort-All : (cs : List Candidate) → All P (sort cs) → All P cs
  unfolding sort
  sort-All [] h = tt
  sort-All (c ∷ cs) h = let (p, h') = place-All c (sort cs) h in (p, sort-All cs h')

  All-sort : (cs : List Candidate) → All P cs → All P (sort cs)
  unfolding sort
  All-sort [] h = tt
  All-sort (c ∷ cs) (p, h) = All-place c (sort cs) p (All-sort cs h)

  All-weaken :
      (Q : Candidate → Type 0) (cs : List Candidate)
      → ((d : Candidate) → P d → Q d)
      → All P cs
      → All Q cs
  All-weaken Q [] f h = tt
  All-weaken Q (c ∷ cs) f (p, h) = (f c p, All-weaken Q cs f h)

place-Sorted : (c : Candidate) (cs : List Candidate) → Sorted cs → Sorted (place c cs)
unfolding place
place-Sorted c [] h = (tt, tt)
place-Sorted c (d ∷ ds) (least, h) = elim (Bool-cases (precedes c d)) [
  | inl e ↦ rw e (
    (
      e,
      All-weaken (λ x. precedes d x ≡ true) (λ x. precedes c x ≡ true) ds
          (λ x. precedes_trans c d x e) least,
    ),
    (least, h),
  )
  | inr e ↦
      rw e (
        All-place (λ x. precedes d x ≡ true) c ds (precedes_total c d e) least,
        place-Sorted c ds h,
      )
]

sort-empty : (cs : List Candidate) → sort cs ≡ [] → cs ≡ []
sort-empty cs e = empty_of cs (sort-All (λ d. ⊥) cs (subst (All (λ d. ⊥)) (sym e) tt))
  where
    empty_of : (cs : List Candidate) → All (λ d. ⊥) cs → cs ≡ []
    empty_of [] h = refl
    empty_of (c ∷ cs) (p, h) = absurd p

sort-Sorted : (cs : List Candidate) → Sorted (sort cs)
unfolding sort
sort-Sorted [] = tt
sort-Sorted (c ∷ cs) = place-Sorted c (sort cs) (sort-Sorted cs)

abbrev pub Has : Candidate → List Candidate → Type 0
Has c [] = ⊥
Has c (d ∷ ds) = (c ≡ d) ⊎ Has c ds

pub All-Has :
    (P : Candidate → Type 0) (c : Candidate) (cs : List Candidate) → All P cs → Has c cs → P c
All-Has P c [] h m = elim m [ ]
All-Has P c (d ∷ ds) (p, h) (inl e) = subst P (sym e) p
All-Has P c (d ∷ ds) (p, h) (inr m) = All-Has P c ds h m

Has-All : (cs : List Candidate) → All (λ d. Has d cs) cs
Has-All [] = tt
Has-All (c ∷ cs) =
    (inl refl, All-weaken (λ d. Has d cs) (λ d. Has d (c ∷ cs)) cs (λ d. inr) (Has-All cs))

Has-sort : (c : Candidate) (cs : List Candidate) → Has c (sort cs) → Has c cs
Has-sort c cs = All-Has (λ d. Has d cs) c (sort cs) (All-sort (λ d. Has d cs) cs (Has-All cs))

Offer-cases : (o : Offer) → (o ≡ taken) ⊎ ((o ≡ full) ⊎ (o ≡ passed))
Offer-cases taken = inl refl
Offer-cases full = inr (inl refl)
Offer-cases passed = inr (inr refl)

module _ (busy : Bool) (d : Candidate) (ds : List Candidate) where
  choose-taken : offer d ≡ taken → choose busy (d ∷ ds) ≡ ok d
  unfolding choose
  choose-taken e = rw (choose, e) refl

  choose-full : offer d ≡ full → choose busy (d ∷ ds) ≡ choose true ds
  unfolding choose
  choose-full e = rw (choose, e) refl

  choose-passed : offer d ≡ passed → choose busy (d ∷ ds) ≡ choose busy ds
  unfolding choose
  choose-passed e = rw (choose, e) refl

ok_inj : (c d : Candidate) (r : Result Candidate ForwardError) → r ≡ ok c → r ≡ ok d → c ≡ d
ok_inj c d r e h = cc

abbrev First : List Candidate → Candidate → Type 0
First cs c = Has c cs × (offer c ≡ taken) × All (λ d. offer d ≡ taken → precedes c d ≡ true) cs

-- The choice is the first candidate that takes the stream.
choose-ok :
    (busy : Bool) (cs : List Candidate) (c : Candidate)
    → Sorted cs
    → choose busy cs ≡ ok c
    → First cs c
choose-ok busy [] c h e = unfold choose in cc
choose-ok busy (d ∷ ds) c (least, h) e = elim (Offer-cases (offer d)) [
  | inl q ↦
      let same = ok_inj d c (choose busy (d ∷ ds)) (choose-taken busy d ds q) e in
      subst (First (d ∷ ds)) same (
        inl refl,
        q,
        (
          (λ _. precedes_refl d),
          All-weaken (λ x. precedes d x ≡ true) (λ x. offer x ≡ taken → precedes d x ≡ true) ds
              (λ x p _. p) least,
        ),
      )
  | inr (inl q) ↦
      let (there, t, all) = choose-ok true ds c h (sym (choose-full busy d ds q) ∙ e) in
      (inr there, t, ((λ x. cc), all))
  | inr (inr q) ↦
      let (there, t, all) = choose-ok busy ds c h (sym (choose-passed busy d ds q) ∙ e) in
      (inr there, t, ((λ x. cc), all))
]

-- Without a choice every candidate was full.
choose-err :
    (busy : Bool) (cs : List Candidate) (e : ForwardError)
    → All (λ d. offer d ≢ passed) cs
    → choose busy cs ≡ err e
    → All (λ d. offer d ≡ full) cs
      × ((e ≡ tether_busy) ⊎ ((e ≡ no_tether) × (busy ≡ false) × (cs ≡ [])))
unfolding choose
choose-err true [] e h q = (tt, inl cc)
choose-err false [] e h q = (tt, inr (cc, refl, refl))
choose-err busy (c ∷ cs) e (p, h) q = elim (Offer-cases (offer c)) [
  | inl t ↦ cc (choose-taken busy c cs t, q)
  | inr (inl t) ↦
      let (all, why) = choose-err true cs e h (sym (choose-full busy c cs t) ∙ q) in
      ((t, all), elim why [ inl b ↦ inl b | inr (_, b, _) ↦ cc ])
  | inr (inr t) ↦ absurd (p t)
]

-- A candidate is a session of the registry that the filter lets through.
pub record Routable (r : Registry) (now : ℕ) (c : Candidate) : Type 0 where
  pub stored : get c.generation r.sessions ≡ some c.session
  pub passes : eligible r now c.id c.session ≡ true
  pub counted : c.load ≡ length c.session.streams

candidates_of-Routable :
    (r : Registry) (now : ℕ) (live : Map Bytes ℕ) → All (Routable r now) (candidates_of r now live)
unfolding candidates_of
candidates_of-Routable r now [] = tt
candidates_of-Routable r now ((id, g) ∷ live) = elim (Option-cases (get g r.sessions)) [
  | inl e ↦ rw e (candidates_of-Routable r now live)
  | inr (s, e) ↦ elim (Bool-cases (eligible r now id s)) [
    | inl p ↦
        rw (e, p)
          (record { stored = e; passes = p; counted = refl }, candidates_of-Routable r now live)
    | inr p ↦ rw (e, p) (candidates_of-Routable r now live)
  ]
]

Routable-offer : (r : Registry) (now : ℕ) (c : Candidate) → Routable r now c → offer c ≢ passed
unfolding offer offer_of reserve_stream_start
Routable-offer r now c h = ground (arith, h.passes)

-- The chosen candidate is routable, takes the stream, and precedes every other that would.
pub record Least (r : Registry) (now : ℕ) (c : Candidate) : Type 0 where
  pub routable : Routable r now c
  pub there : Has c (candidates r now)
  pub takes : offer c ≡ taken
  pub least : All (λ d. offer d ≡ taken → precedes c d ≡ true) (candidates r now)

-- The route goes to the least loaded candidate that has room, ties in the order of the ids.
pub reserve_route-Least :
    (r : Registry) (now : ℕ) (c : Candidate) → reserve_route r now ≡ ok c → Least r now c
unfolding reserve_route candidates
reserve_route-Least r now c e =
    let cs = candidates r now in
    let (there, t, all) = choose-ok false (sort cs) c (sort-Sorted cs) e in
    record {
      routable =
          All-Has (Routable r now) c (sort cs)
            (All-sort (Routable r now) cs (candidates_of-Routable r now r.live)) there;
      there = Has-sort c cs there;
      takes = t;
      least = sort-All (λ d. offer d ≡ taken → precedes c d ≡ true) cs all;
    }

-- There is no route only if every candidate is full, and then the answer says busy, or if there is
-- no candidate at all, and then it says that there is no tether.
pub reserve_route-refused :
    (r : Registry) (now : ℕ) (e : ForwardError)
    → reserve_route r now ≡ err e
    → All (λ d. offer d ≡ full) (candidates r now)
      × ((e ≡ tether_busy) ⊎ ((e ≡ no_tether) × (candidates r now ≡ [])))
unfolding reserve_route candidates
reserve_route-refused r now e q =
    let cs = candidates r now in
    let (all, why) =
      choose-err false (sort cs) e
        (All-weaken (Routable r now) (λ d. offer d ≢ passed) (sort cs) (Routable-offer r now)
          (All-sort (Routable r now) cs (candidates_of-Routable r now r.live)))
        q in
    (
      sort-All (λ d. offer d ≡ full) cs all,
      elim why [ inl b ↦ inl b | inr (n, _, z) ↦ inr (n, sort-empty cs z) ],
    )
