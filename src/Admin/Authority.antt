-- ===== src/Admin/Authority.antt =====
-- A credential from its issue to the hub that has read the database again.
use anvil_ring.Base.{
  ℕ, ◌+◌, ◌≡◌, refl, sym, ap, subst, ◌∙◌, Bool, true, false, not, ◌||◌, Option, none, some, List,
  [], ◌∷◌, ◌++◌, ◌==◌, Bytes, get, get-insert_self, bytes_key, length, arith, Result, ok, err,
  bind-ok, if◌then◌else◌, ok-injective,
}
use anvil_ring.Socket.{Fault, fault}
use anvil_ring.Hub.State.{Registry, until, remaining}
use anvil_ring.Hub.Handshake.{digest}
use anvil_ring.Hub.Registry.{Record, to_tether, lease_for, replace_records, authorize}
use anvil_ring.Hub.Registry.Reload.{Distinct, replace_records-authorize}
use anvil_ring.Tunnel.Config.{trim_cred}
use anvil_ring.Admin.{
  I64, negative, Row, nonneg, try_u64, state_of, checked, is_valid_hash, validate_id,
  validate_label, record_of, with_record, records_from,
}
use anvil_ring.Admin.Store.{Sqlite, Laws}
use anvil_ring.Admin.Issue.{Env, World, issue, snapshot, check_files, begin, check_schema, require}
use anvil_ring.Admin.Delivery.{Issued, Delivered, Recorded, issue-Issued}

-- The record that a row is read as.
abbrev Faithful : Row → Record → Type 0
Faithful row q =
    (q.id ≡ row.id)
    × (q.credential_hash ≡ row.credential_hash)
    × (try_u64 row.expires_at ≡ ok q.expires_at)
    × (state_of row.active ≡ some q.active)

else-ok : (b : Bool) (x : Fault) (a q : Record) → (if b then err x else ok a) ≡ ok q → a ≡ q
else-ok true x a q e = absurd ground (arith, e)
else-ok false x a q e = ok-injective e

checked-Faithful :
    (row : Row) (n : ℕ) (o : Option Bool) (q : Record)
    → try_u64 row.expires_at ≡ ok n
    → state_of row.active ≡ o
    → checked row n o ≡ ok q
    → Faithful row q
checked-Faithful row n none q t s e = absurd ground (arith, e)
checked-Faithful row n (some a) q t s e =
    let (u, ev, e1) = bind-ok (validate_id row.id) _ q e in
    let (v, el, e2) = bind-ok (validate_label row.label) _ q e1 in
    subst (Faithful row)
      (else-ok (not (is_valid_hash row.credential_hash) || n == 0)
        (fault "invalid persisted registration") _ q e2)
      (refl, refl, t, s)

record_of-Faithful : (row : Row) (q : Record) → record_of row ≡ ok q → Faithful row q
unfolding record_of
record_of-Faithful row q e =
    let (n, t, e1) = bind-ok (try_u64 row.expires_at) _ q e in
    checked-Faithful row n (state_of row.active) q t refl e1

with_record-ok :
    (n : ℕ) (r : Result Record Fault) (rest : Result (List Record) Fault) (records : List Record)
    → with_record n r rest ≡ ok records
    → (q : Record) × (qs : List Record) × (r ≡ ok q) × (rest ≡ ok qs) × (records ≡ q ∷ qs)
with_record-ok n (err x) rest records e = absurd ground (arith, e)
with_record-ok n (ok q) (err x) records e = absurd ground (arith, e)
with_record-ok n (ok q) (ok qs) records e = (q, qs, refl, refl, ground (arith, e))

-- A row that is listed has a record in the snapshot.
records_from-has :
    (n : ℕ) (xs ys : List Row) (row : Row) (records : List Record)
    → records_from n (xs ++ (row ∷ ys)) ≡ ok records
    → (ps : List Record) × (qs : List Record) × (q : Record) × (records ≡ ps ++ (q ∷ qs))
      × (record_of row ≡ ok q)
unfolding records_from
records_from-has n [] ys row records e =
    let (q, qs, r, rest, same) =
      with_record-ok n (record_of row) (records_from (n + 1) ys) records e in
    ([], qs, q, same, r)
records_from-has n (x ∷ xs) ys row records e =
    let (p, qs, r, rest, same) =
      with_record-ok n (record_of x) (records_from (n + 1) (xs ++ (row ∷ ys))) records e in
    let (ps, os, q, split, found) = records_from-has (n + 1) xs ys row qs rest in
    (p ∷ ps, os, q, same ∙ ap (◌∷◌ p) split, found)

active_of : (x : I64) (b : Bool) → state_of x ≡ some b → x ≡ nonneg 1 → b ≡ true
active_of (negative n) b e k = absurd ground (arith, k)
active_of (nonneg n) b e k = ground (arith, e, k)

expiry_of : (x : I64) (m n : ℕ) → try_u64 x ≡ ok m → x ≡ nonneg n → m ≡ n
expiry_of (negative k) m n e i = absurd ground (arith, i)
expiry_of (nonneg k) m n e i = ground (arith, e, i)

module _ {Db : Type 0} (sql : Sqlite Db) (laws : Laws sql) (sha256 : Bytes → Bytes)
    (sha256_length : (bs : Bytes) → length (sha256 bs) ≡ 32) where
  -- The rows behind a snapshot.
  snapshot-records :
      (env : Env) (d : Db) (records : List Record)
      → snapshot sql sha256 env d ≡ ok records
      → records_from 0 (sql.select_registrations d) ≡ ok records
  unfolding snapshot
  snapshot-records env d records e =
      let (u1, f1, e1) = bind-ok (check_files env) _ records e in
      let (u2, f2, e2) = bind-ok (begin env) _ records e1 in
      let (u3, f3, e3) = bind-ok (check_schema sql sha256 d) _ records e2 in
      let (rs, f4, e4) = bind-ok (records_from 0 (sql.select_registrations d)) _ records e3 in
      let (u5, f5, e5) = bind-ok (require env.commits (fault "the commit failed")) _ records e4 in
      let (u6, f6, e6) = bind-ok (check_files env) _ records e5 in f4 ∙ e6

  -- A row that is stored has a record in the snapshot.
  snapshot-has :
      (env : Env) (d : Db) (records : List Record) (id : Bytes) (row : Row)
      → snapshot sql sha256 env d ≡ ok records
      → sql.lookup id d ≡ some row
      → (ps : List Record) × (qs : List Record) × (q : Record) × (records ≡ ps ++ (q ∷ qs))
        × (q.id ≡ id)
        × Faithful row q
  snapshot-has env d records id row e k =
      let (named, (xs, ys, listed)) = laws.listed id row d k in
      let (ps, qs, q, split, found) =
        records_from-has 0 xs ys row records
          (ap (records_from 0) (sym listed) ∙ snapshot-records env d records e) in
      let f = record_of-Faithful row q found in (ps, qs, q, split, f.0 ∙ named, f)

  -- The lease that a delivered credential has at a hub that has read the snapshot.
  abbrev Leased : Registry → List Record → Bytes → Bytes → ℕ → ℕ → ℕ → Type 0
  Leased r records content id expires_at now now' =
      authorize (digest sha256) (trim_cred content) now' (replace_records records now r)
      ≡ lease_for r.lease id (until expires_at now')

  remaining_active :
      (q : Record) (n now' : ℕ)
      → q.active ≡ true
      → q.expires_at ≡ n
      → remaining (to_tether q) now' ≡ until n now'
  unfolding remaining
  remaining_active q n now' a e = rw (a, e) refl

  recorded-Leased :
      (env : Env) (d d' : Db) (records : List Record) (id content : Bytes) (n now now' : ℕ)
      (r : Registry)
      → Recorded sql laws sha256 sha256_length id (digest sha256 (trim_cred content)) n d d'
      → snapshot sql sha256 env d' ≡ ok records
      → Distinct records
      → Leased r records content id n now now'
  recorded-Leased env d d' records id content n now now' r c e distinct =
      let (ps, qs, q, split, named, (i, h, x, a)) =
        snapshot-has env d' records id c.row e c.there in
      (replace_records-authorize (digest sha256) (trim_cred content) now now' r records distinct).0
        ps qs q split (sym (h ∙ c.hashed))
      ∙ ap (λ j. lease_for r.lease j (remaining (to_tether q) now')) named
      ∙ ap (lease_for r.lease id) (
          remaining_active q n now' (active_of c.row.active q.active a c.active)
            (expiry_of c.row.expires_at q.expires_at n x c.expiry))

  Delivered-done :
      (env : Env) (id : Bytes) (ttl_secs : ℕ) (path : Bytes) (w : World Db)
      (p : Result (Unit {0}) Fault × World Db)
      → Issued sql laws sha256 sha256_length env id ttl_secs path w p
      → p.0 ≡ ok tt
      → Delivered sql laws sha256 sha256_length env id ttl_secs path w p.1
  unfolding Issued
  Delivered-done env id ttl_secs path w (ok u, w') i e = i
  Delivered-done env id ttl_secs path w (err x, w') i e = absurd ground (arith, e)

  -- When an issue has succeeded and a snapshot of the database behind it has, with records of distinct
  -- ids and digests, then a hub that takes the snapshot grants the credential that the tether trims from
  -- the new file exactly the lease on the id that is left, at any later time, until the time of the
  -- issue and the time asked for.
  pub issue-authorizes :
      (env env' : Env) (id : Bytes) (label : Option Bytes) (ttl_secs : ℕ) (path : Bytes)
      (w : World Db) (records : List Record) (r : Registry) (now now' : ℕ)
      → (issue sql sha256 env id label ttl_secs path w).0 ≡ ok tt
      → snapshot sql sha256 env' (issue sql sha256 env id label ttl_secs path w).1.db ≡ ok records
      → Distinct records
      → (content : Bytes) × (issued : ℕ) × (get path
            (issue sql sha256 env id label ttl_secs path w).1.files
          ≡ some content)
        × (env.clock ≡ some issued)
        × (authorize (digest sha256) (trim_cred content) now' (replace_records records now r)
            ≡ lease_for r.lease id (until (issued + ttl_secs) now'))
  issue-authorizes env env' id label ttl_secs path w records r now now' done e distinct =
      let p = issue sql sha256 env id label ttl_secs path w in
      let d =
        Delivered-done env id ttl_secs path w p
          (issue-Issued sql laws sha256 sha256_length env id label ttl_secs path w) done in
      (
        d.content,
        d.now,
        ap (get path) d.file ∙ get-insert_self path d.content w.files,
        d.clock,
        recorded-Leased env' w.db p.1.db records id d.content (d.now + ttl_secs) now now' r
            d.recorded e distinct,
      )
