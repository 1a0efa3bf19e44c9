-- ===== src/Hub/Registry/Reload.antt =====
-- The tables after a new snapshot: they agree with one another, and grant what its records say.
use anvil_ring.Base.{
  ℕ, ◌≡◌, ◌≢◌, refl, sym, ap, subst, ◌∙◌, Bool, true, none, some, List, [], ◌∷◌, ◌++◌, Bytes, Map,
  get, insert, remove, nat_key, bytes_key, get-insert, get-remove, get-remove_self, bytes_eq,
  bytes_eq_iff, All, arith, Bool-cases, Option-cases, inl, inr, Option,
}
use anvil_ring.Hub.State.{Registry, Tether, remaining}
use anvil_ring.Hub.Registry.{
  Record, to_tether, is_some, unchanged, index_ids, index_credentials, retain, replace_records,
  authorize, lease_for,
}
use anvil_ring.Hub.Registry.Consistent.{Consistent, hash_of}
use anvil_ring.Hub.Registry.Authority.{authorize-some, authorize-none}
use anvil_ring.Hub.Registry.Replace.{get-retain, known-retain}

abbrev Table : Type 0
Table = Map Bytes Tether

-- No entry has the digest.
abbrev NoHash : Bytes → Table → Type 0
NoHash h m = All (λ e. e.1.credential_hash ≢ h) m

-- A table with one entry for each key, under the ids of its tethers, and one for each digest.
abbrev Sound : Table → Type 0
Sound [] = Unit
Sound ((k, t) ∷ m) = (t.id ≡ k) × ((get k m ≡ none) × (NoHash t.credential_hash m × Sound m))

NoHash-remove : (h k : Bytes) (m : Table) → NoHash h m → NoHash h (remove k m)
unfolding remove
NoHash-remove h k [] a = tt
NoHash-remove h k ((j, t) ∷ m) (p, a) = elim (Bool-cases (bytes_eq j k)) [
  | inl e ↦ rw e (NoHash-remove h k m a)
  | inr e ↦ rw e (p, NoHash-remove h k m a)
]

none-remove : (k j : Bytes) (m : Table) → get j m ≡ none → get j (remove k m) ≡ none
none-remove k j m e = ground (arith, get-remove k j m, e)

Sound-remove : (k : Bytes) (m : Table) → Sound m → Sound (remove k m)
unfolding remove
Sound-remove k [] s = tt
Sound-remove k ((j, t) ∷ m) (i, (n, (h, s))) = elim (Bool-cases (bytes_eq j k)) [
  | inl e ↦ rw e (Sound-remove k m s)
  | inr e ↦
      rw e (i, (none-remove k j m n, (NoHash-remove t.credential_hash k m h, Sound-remove k m s)))
]

NoHash-get : (h id : Bytes) (m : Table) → NoHash h m → hash_of (get id m) ≢ some h
unfolding get
NoHash-get h id [] a e = absurd ground (arith, e)
NoHash-get h id ((k, t) ∷ m) (p, a) e = ground (arith, NoHash-get h id m a, p, e)

-- The digests of a sound table lead to its entries and to nothing else.
index_genuine :
    (m : Table) (h id : Bytes)
    → Sound m
    → get h (index_credentials m) ≡ some id
    → hash_of (get id m) ≡ some h
unfolding index_credentials get
index_genuine [] h id s e = absurd ground (arith, e)
index_genuine ((k, t) ∷ m) h id (i, (n, (a, s))) e = ground (
  arith,
  get-insert t.credential_hash h t.id (index_credentials m),
  bytes_eq_iff t.credential_hash h,
  bytes_eq_iff k id,
  index_genuine m h id s,
  n,
  i,
  e,
)

index_complete :
    (m : Table) (id : Bytes) (t : Tether)
    → Sound m
    → get id m ≡ some t
    → get t.credential_hash (index_credentials m) ≡ some id
unfolding get index_credentials
index_complete [] id t s e = absurd ground (arith, e)
index_complete ((k, u) ∷ m) id t (i, (n, (a, s))) e = ground (
  arith,
  get-insert u.credential_hash t.credential_hash u.id (index_credentials m),
  bytes_eq_iff u.credential_hash t.credential_hash,
  bytes_eq_iff k id,
  index_complete m id t s,
  NoHash-get u.credential_hash id m a,
  i,
  e,
)

-- Records of different ids and digests, as the database has them.
abbrev pub Distinct : List Record → Type 0
Distinct [] = Unit
Distinct (r ∷ rs) =
    All (λ q. (q.id ≢ r.id) × (q.credential_hash ≢ r.credential_hash)) rs × Distinct rs

abbrev Fresh : Table → List Record → Type 0
Fresh m rs = All (λ q. NoHash q.credential_hash m) rs

Fresh-insert :
    (r : Record) (m : Table) (rs : List Record)
    → Fresh m rs
    → All (λ q. (q.id ≢ r.id) × (q.credential_hash ≢ r.credential_hash)) rs
    → Fresh (insert r.id (to_tether r) m) rs
unfolding insert
Fresh-insert r m [] f d = tt
Fresh-insert r m (q ∷ rs) (a, f) ((i, h), d) =
    (((λ e. h (sym e)), NoHash-remove q.credential_hash r.id m a), Fresh-insert r m rs f d)

Sound-insert :
    (r : Record) (m : Table)
    → Sound m
    → NoHash r.credential_hash m
    → Sound (insert r.id (to_tether r) m)
unfolding insert
Sound-insert r m s a = (
  refl,
  (get-remove_self r.id m, (NoHash-remove r.credential_hash r.id m a, Sound-remove r.id m s)),
)

index_ids-Sound :
    (m : Table) (rs : List Record) → Sound m → Fresh m rs → Distinct rs → Sound (index_ids m rs)
unfolding index_ids
index_ids-Sound m [] s f d = s
index_ids-Sound m (r ∷ rs) s (a, f) (h, d) =
    index_ids-Sound (insert r.id (to_tether r) m) rs (Sound-insert r m s a)
      (Fresh-insert r m rs f h) d

Fresh-nil : (rs : List Record) → Fresh [] rs
Fresh-nil [] = tt
Fresh-nil (r ∷ rs) = (tt, Fresh-nil rs)

index_ids-NoHash :
    (h : Bytes) (m : Table) (rs : List Record)
    → NoHash h m
    → All (λ q. q.credential_hash ≢ h) rs
    → NoHash h (index_ids m rs)
unfolding index_ids insert
index_ids-NoHash h m [] a d = a
index_ids-NoHash h m (r ∷ rs) a (k, d) =
    index_ids-NoHash h (insert r.id (to_tether r) m) rs (k, NoHash-remove h r.id m a) d

-- A record behind which none has its id is found under it.
index_ids-later :
    (j h : Bytes) (m : Table) (rs : List Record)
    → All (λ q. (q.id ≢ j) × (q.credential_hash ≢ h)) rs
    → get j (index_ids m rs) ≡ get j m
unfolding index_ids
index_ids-later j h m [] d = refl
index_ids-later j h m (r ∷ rs) ((i, k), d) =
    index_ids-later j h (insert r.id (to_tether r) m) rs d
    ∙ ground (arith, get-insert r.id j (to_tether r) m, bytes_eq_iff r.id j, i)

index_ids-found :
    (m : Table) (xs ys : List Record) (r : Record)
    → Distinct (xs ++ (r ∷ ys))
    → get r.id (index_ids m (xs ++ (r ∷ ys))) ≡ some (to_tether r)
unfolding index_ids
index_ids-found m [] ys r (d, e) =
    index_ids-later r.id r.credential_hash (insert r.id (to_tether r) m) ys d
    ∙ ground (arith, get-insert r.id r.id (to_tether r) m, bytes_eq_iff r.id r.id)
index_ids-found m (x ∷ xs) ys r (d, e) = index_ids-found (insert x.id (to_tether x) m) xs ys r e

-- A registration of the new table is under its own id.
Sound-ids : (m : Table) (id : Bytes) (t : Tether) → Sound m → get id m ≡ some t → t.id ≡ id
unfolding get
Sound-ids [] id t s e = absurd ground (arith, e)
Sound-ids ((k, u) ∷ m) id t (i, (n, (a, s))) e =
    ground (arith, Sound-ids m id t s, bytes_eq_iff k id, i, e)

unchanged-some :
    (now : ℕ) (next old : Option Tether) → unchanged now next old ≡ true → is_some next ≡ true
unfolding unchanged
unchanged-some now none old e = absurd ground (arith, e)
unchanged-some now (some next) old e = refl

module _ (records : List Record) (now : ℕ) (r : Registry) (distinct : Distinct records) where
  abbrev table : Table
  table = index_ids [] records

  table-Sound : Sound table
  table-Sound = index_ids-Sound [] records tt (Fresh-nil records) distinct

  abbrev keeps : Bytes → Bool
  keeps id = unchanged now (get id table) (get id r.by_id)

  live-keeps :
      (id : Bytes) (g : ℕ)
      → get id (retain keeps r.live r.sessions).0 ≡ some g
      → (keeps id ≡ true) × (get id r.live ≡ some g)
  live-keeps id g e = ground (arith, get-retain keeps id r.live r.sessions, e)

  -- A new snapshot of distinct records leaves consistent tables consistent.
  pub replace_records-Consistent : Consistent r → Consistent (replace_records records now r)
  unfolding replace_records
  replace_records-Consistent c = record {
    ids = λ id t e. Sound-ids table id t table-Sound e;
    credentials = λ h id e. index_genuine table h id table-Sound e;
    registered = λ id g e. unchanged-some now (get id table) (get id r.by_id) (live-keeps id g e).0;
    present =
        λ id g e. known-retain keeps g r.live r.sessions ∙ c.present id g (live-keeps id g e).1;
    below = λ g e. c.below g (sym (known-retain keeps g r.live r.sessions) ∙ e);
    owner = λ id id' g e e'. c.owner id id' g (live-keeps id g e).1 (live-keeps id' g e').1;
  }

-- Of a record that the new snapshot has, and of one that it has not.
module _ (digest : Bytes → Bytes) (credential : Bytes) (now now' : ℕ) (r : Registry) where
  authorize-found :
      (xs ys : List Record) (q : Record)
      → Distinct (xs ++ (q ∷ ys))
      → digest credential ≡ q.credential_hash
      → authorize digest credential now' (replace_records (xs ++ (q ∷ ys)) now r)
        ≡ lease_for r.lease q.id (remaining (to_tether q) now')
  unfolding replace_records
  authorize-found xs ys q d e =
      let records = xs ++ (q ∷ ys) in
      let found = index_ids-found [] xs ys q d in
      authorize-some digest credential now' (replace_records records now r) q.id (to_tether q)
        (ap (λ h. get h (index_credentials (index_ids [] records))) e
          ∙ index_complete (index_ids [] records) q.id (to_tether q)
              (index_ids-Sound [] records tt (Fresh-nil records) d) found)
        found

  authorize-absent :
      (records : List Record)
      → Distinct records
      → All (λ q. q.credential_hash ≢ digest credential) records
      → authorize digest credential now' (replace_records records now r) ≡ none
  unfolding replace_records
  authorize-absent records d a =
      elim (Option-cases (get (digest credential) (index_credentials (index_ids [] records)))) [
        | inl e ↦ authorize-none digest credential now' (replace_records records now r) e
        | inr (id, e) ↦ absurd (
            NoHash-get (digest credential) id (index_ids [] records)
              (index_ids-NoHash (digest credential) [] records tt a)
              (index_genuine (index_ids [] records) (digest credential) id
                (index_ids-Sound [] records tt (Fresh-nil records) d) e))
      ]

  -- After a new snapshot of records with distinct ids and digests, a credential whose digest a record
  -- carries has exactly the lease on that record's id that the time left of the record gives, and a
  -- credential whose digest none carries has none, whatever the registry granted before.
  pub replace_records-authorize :
      (records : List Record)
      → Distinct records
      → ((xs ys : List Record) (q : Record)
          → records ≡ xs ++ (q ∷ ys)
          → digest credential ≡ q.credential_hash
          → authorize digest credential now' (replace_records records now r)
            ≡ lease_for r.lease q.id (remaining (to_tether q) now'))
        × (All (λ q. q.credential_hash ≢ digest credential) records
            → authorize digest credential now' (replace_records records now r) ≡ none)
  replace_records-authorize records d = (
    (λ xs ys q e k. rw e (authorize-found xs ys q (subst Distinct e d) k)),
    authorize-absent records d,
  )
