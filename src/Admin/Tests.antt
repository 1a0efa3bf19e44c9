-- ===== src/Admin/Tests.antt =====
-- A store of one row, which has the laws, and the theorems on it.
use anvil_ring.Base.{
  ℕ, zero, suc, ◌+◌, get, ◌≡◌, refl, true, false, Option, none, some, List, [], ◌∷◌, ◌++◌, Bytes,
  bytes, All, length, arith, bytes_eq, bytes_eq_iff, if◌then◌else◌, ok, bytes_key, subst,
  Bool-cases, inl, inr, sym, ap, ◌∙◌,
}
use anvil_ring.Hub.Registry.{Record, new, authorize, replace_records, lease_for}
use anvil_ring.Text.{from_utf8}
use anvil_ring.Text.Decimal.{digit_char}
use anvil_ring.Hub.State.{until}
use anvil_ring.Hub.Handshake.{digest, hex_bytes}
use anvil_ring.Tunnel.Config.{trim_cred}
use anvil_ring.Admin.{
  Row, nonneg, validate_id, validate_label, is_valid_id, is_valid_label, is_valid_hash,
  records_from, record_of,
}
use anvil_ring.Admin.Store.{Sqlite, Laws, with_credential, deactivated}
use anvil_ring.Admin.Issue.{
  Env, World, issue, snapshot, perform_all, Command, register_tether, revoke_tether, prepare,
  create, discard, check_schema, append_audit, change,
}
use anvil_ring.Admin.Valid.{AllRead}
use anvil_ring.Admin.Stored.{Stored}
use anvil_ring.Admin.Commands.{perform_all-snapshot}
use anvil_ring.Admin.Delivery.{Issued, issue-Issued}
use anvil_ring.Admin.Authority.{issue-authorizes}

-- The table has room for one row, and the audit is not kept.
abbrev lookup_one : Bytes → Option Row → Option Row
lookup_one id none = none
lookup_one id (some r) = if bytes_eq r.id id then some r else none

abbrev rows_of : Option Row → List Row
rows_of none = []
rows_of (some r) = r ∷ []

abbrev insert_one : Row → Option Row → Option (Option Row)
insert_one r none = some (some r)
insert_one r (some s) = none

abbrev update_one : Bytes → (Row → Row) → Option Row → Option (ℕ × Option Row)
update_one id g none = some (0, none)
update_one id g (some r) = if bytes_eq r.id id then some (1, some (g r)) else some (0, some r)

abbrev credential_row : Bytes → ℕ → Row → Row
credential_row hash expires_at r = record r {
  credential_hash = hash;
  active = nonneg 1;
  expires_at = nonneg expires_at;
}

abbrev off_row : Row → Row
off_row r = record r { active = nonneg 0 }

abbrev one_row : Sqlite (Option Row)
one_row = record {
  user_version = λ d. 1;
  has_tables = λ d. true;
  select_registrations = rows_of;
  count_registrations = λ d. length (rows_of d);
  insert_registration = insert_one;
  update_credential = λ hash expires_at id. update_one id (credential_row hash expires_at);
  deactivate = λ id. update_one id off_row;
  insert_audit = λ a d. some d;
  select_audit = λ n d. [];
  lookup = lookup_one;
}

select_one :
    (P : Row → Type 0) (d : Option Row)
    → ((id : Bytes) (r : Row) → lookup_one id d ≡ some r → P r)
    → All P (rows_of d)
select_one P none h = tt
select_one P (some r) h = (h r.id r (ground (arith, bytes_eq_iff r.id r.id)), tt)

listed_one :
    (id : Bytes) (r : Row) (d : Option Row)
    → lookup_one id d ≡ some r
    → (r.id ≡ id) × ((xs : List Row) × (ys : List Row) × (rows_of d ≡ xs ++ (r ∷ ys)))
listed_one id r none e = absurd ground (arith, e)
listed_one id r (some s) e = (ground (arith, e, bytes_eq_iff s.id id), ([], [], ground (arith, e)))

inserted_one :
    (r : Row) (d d' : Option Row)
    → insert_one r d ≡ some d'
    → ((j : Bytes) → lookup_one j d' ≡ (if bytes_eq r.id j then some r else lookup_one j d))
      × (lookup_one r.id d ≡ none)
      × (length (rows_of d') ≡ suc (length (rows_of d)))
inserted_one r none none e = absurd ground (arith, e)
inserted_one r (some s) d' e = absurd ground (arith, e)
inserted_one r none (some s) e = (
  λ j.
      subst (λ x. lookup_one j (some x) ≡ (if bytes_eq r.id j then some r else none))
        (ground (arith, e)) refl,
  refl,
  omega arith,
)

-- A change of the row that keeps its id.
changed_row : (Row → Row) → Option Row → Option Row
changed_row g none = none
changed_row g (some r) = some (g r)

module _ (g : Row → Row) (keeps : (r : Row) → (g r).id ≡ r.id) where
  hit_one :
      (id j : Bytes) (r : Row)
      → bytes_eq r.id id ≡ true
      → lookup_one j (some (g r))
        ≡ (if bytes_eq id j then changed_row g (lookup_one j (some r)) else lookup_one j (some r))
  unfolding changed_row
  hit_one id j r t = ground (
    arith,
    bytes_eq_iff r.id id,
    bytes_eq_iff id j,
    bytes_eq_iff r.id j,
    bytes_eq_iff (g r).id j,
    keeps r,
  )

  miss_one :
      (id j : Bytes) (r : Row)
      → bytes_eq r.id id ≡ false
      → lookup_one j (some r)
        ≡ (if bytes_eq id j then changed_row g (lookup_one j (some r)) else lookup_one j (some r))
  unfolding changed_row
  miss_one id j r t = ground (arith, bytes_eq_iff r.id id, bytes_eq_iff id j, bytes_eq_iff r.id j)

-- What the two updates have in common.
updated_one :
    (id : Bytes) (g : Row → Row) (d d' : Option Row) (n : ℕ)
    → ((r : Row) → (g r).id ≡ r.id)
    → update_one id g d ≡ some (n, d')
    → ((j : Bytes)
        → lookup_one j d'
          ≡ (if bytes_eq id j then changed_row g (lookup_one j d) else lookup_one j d))
      × (n ≡ 1 → (r : Row) × (lookup_one id d ≡ some r))
      × (length (rows_of d') ≡ length (rows_of d))
unfolding changed_row
updated_one id g none (some r) n k e = absurd ground (arith, e)
updated_one id g none none n k e = (λ j. ground arith, λ f. absurd ground (arith, e), refl)
updated_one id g (some r) none n k e = absurd ground (arith, e)
updated_one id g (some r) (some s) n k e = elim (Bool-cases (bytes_eq r.id id)) [
  | inl t ↦ (
    λ j. ap (λ x. lookup_one j (some x)) (ground (arith, e, t)) ∙ hit_one g k id j r t,
    λ f. (r, ground (arith, t)),
    refl,
  )
  | inr t ↦ (
    λ j. ap (λ x. lookup_one j (some x)) (ground (arith, e, t)) ∙ miss_one g k id j r t,
    λ f. absurd ground (arith, e, t),
    refl,
  )
]

credential_row_same :
    (hash : Bytes) (expires_at : ℕ) (o : Option Row)
    → changed_row (credential_row hash expires_at) o ≡ with_credential hash expires_at o
unfolding changed_row
credential_row_same hash expires_at none = refl
credential_row_same hash expires_at (some r) = refl

off_row_same : (o : Option Row) → changed_row off_row o ≡ deactivated o
unfolding changed_row
off_row_same none = refl
off_row_same (some r) = refl

same_count : (d d' : Option Row) → d ≡ d' → length (rows_of d') ≡ length (rows_of d)
same_count d d' e = ap (λ x. length (rows_of x)) (sym e)

some_eq : (d d' : Option Row) → some d ≡ some d' → d ≡ d'
some_eq d d' e = ground (arith, e)

one_row-Laws : Laws one_row
one_row-Laws = record {
  select = select_one;
  listed = listed_one;
  select_count = λ d. omega arith;
  inserted = λ r d d' e. let (f, g, h) = inserted_one r d d' e in (f, g, h, refl, refl);
  updated = λ hash expires_at id d d' n e.
      let (f, g, h) = updated_one id (credential_row hash expires_at) d d' n (λ r. refl) e in
      (
        λ j.
            f j
            ∙ ap (λ x. if bytes_eq id j then x else lookup_one j d)
                (credential_row_same hash expires_at (lookup_one j d)),
        g,
        h,
        refl,
        refl,
      );
  revoked = λ id d d' n e.
      let (f, g, h) = updated_one id off_row d d' n (λ r. refl) e in
      (
        λ j.
            f j
            ∙ ap (λ x. if bytes_eq id j then x else lookup_one j d) (off_row_same (lookup_one j d)),
        h,
        refl,
        refl,
      );
  audited = λ a d d' e.
      (λ j. ap (lookup_one j) (sym (some_eq d d' e)), same_count d d' (some_eq d d' e), refl, refl);
}

-- The digest's bytes are the first 32 of the credential, padded.
abbrev first_32 : ℕ → Bytes → Bytes
first_32 zero bs = []
first_32 (suc n) [] = 0 ∷ first_32 n []
first_32 (suc n) (b ∷ bs) = b ∷ first_32 n bs

length-first_32 : (n : ℕ) (bs : Bytes) → length (first_32 n bs) ≡ n
length-first_32 zero bs = refl
length-first_32 (suc n) [] = omega (arith, length-first_32 n [])
length-first_32 (suc n) (b ∷ bs) = omega (arith, length-first_32 n bs)

abbrev quiet : Env
quiet = record {
  clock = some 1000;
  uid = 0;
  private_files = true;
  begins = true;
  random = some (1 ∷ 2 ∷ []);
  opens_parent = true;
  creates = true;
  writes = true;
  syncs = true;
  partial = [];
  removes = true;
  commits = true;
}

abbrev empty_world : World (Option Row)
empty_world = record { db = none; files = [] }

empty-Stored : Stored one_row one_row-Laws (first_32 32) (length-first_32 32) none
empty-Stored = record {
  version = refl;
  tables = refl;
  few = omega arith;
  rows = λ id r e. absurd ground (arith, e);
}

abbrev commands : List Command
commands =
    register_tether quiet (bytes "box") (bytes "Box") 600 (bytes "out")
    ∷ revoke_tether quiet (bytes "box")
    ∷ []

perform_all-snapshot_example :
    (records : List Record) × (snapshot one_row
        (first_32 32)
        quiet
        (perform_all one_row (first_32 32) commands empty_world).db
      ≡ ok records)
    × AllRead
        (one_row.select_registrations (perform_all one_row (first_32 32) commands empty_world).db)
        records
perform_all-snapshot_example =
    perform_all-snapshot one_row one_row-Laws (first_32 32) (length-first_32 32) commands
      empty_world quiet empty-Stored refl refl refl

issue-Issued_example :
    Issued one_row one_row-Laws
      (first_32 32)
      (length-first_32 32)
      quiet
      (bytes "box")
      600
      (bytes "out")
      empty_world
      (issue one_row
        (first_32 32)
        quiet
        (bytes "box")
        (some (bytes "Box"))
        600
        (bytes "out")
        empty_world)
issue-Issued_example =
    issue-Issued one_row one_row-Laws (first_32 32) (length-first_32 32) quiet (bytes "box")
      (some (bytes "Box")) 600 (bytes "out") empty_world

-- The row of the issue, as a hub reads it.
abbrev box_record : Record
box_record = record {
  id = bytes "box";
  label = bytes "Box";
  credential_hash = digest (first_32 32) (bytes "0102");
  active = true;
  expires_at = 1600;
}

issue-done :
    (issue one_row
      (first_32 32)
      quiet
      (bytes "box")
      (some (bytes "Box"))
      600
      (bytes "out")
      empty_world).0
    ≡ ok tt
unfolding issue prepare create discard check_schema append_audit change validate_id validate_label
    is_valid_id is_valid_label digest hex_bytes get
issue-done = refl

snapshot-box :
    snapshot one_row
      (first_32 32)
      quiet
      (issue one_row
        (first_32 32)
        quiet
        (bytes "box")
        (some (bytes "Box"))
        600
        (bytes "out")
        empty_world).1.db
    ≡ ok (box_record ∷ [])
unfolding issue prepare create discard check_schema append_audit change validate_id validate_label
    is_valid_id is_valid_label is_valid_hash digest hex_bytes snapshot records_from record_of get
    from_utf8 digit_char
snapshot-box = refl

issue-authorizes_example :
    (content : Bytes) × (issued : ℕ) × (get
        (bytes "out")
        (issue one_row
          (first_32 32)
          quiet
          (bytes "box")
          (some (bytes "Box"))
          600
          (bytes "out")
          empty_world).1.files
      ≡ some content)
    × (quiet.clock ≡ some issued)
    × (authorize
          (digest (first_32 32))
          (trim_cred content)
          2000
          (replace_records (box_record ∷ []) 1000 (new 300))
        ≡ lease_for (new 300).lease (bytes "box") (until (issued + 600) 2000))
issue-authorizes_example =
    issue-authorizes one_row one_row-Laws (first_32 32) (length-first_32 32) quiet quiet
      (bytes "box") (some (bytes "Box")) 600 (bytes "out") empty_world (box_record ∷ []) (new 300)
      1000 2000 issue-done snapshot-box (tt, tt)
