-- ===== src/Admin/Commands.antt =====
-- Every command of the administration keeps a database that the hub accepts, and its snapshot succeeds.
use anvil_ring.Base.{
  ℕ, ◌≡◌, refl, subst, Bool, true, false, Option, none, some, List, [], ◌∷◌, Bytes, bytes,
  bytes_key, length, arith, ◌==◌, Result, ok, err, bind-ok, bytes_eq_iff, Bool-cases, inl, inr,
}
use anvil_ring.Socket.{Fault}
use anvil_ring.Hub.Registry.{Record}
use anvil_ring.Admin.{Row, nonneg, is_valid_label, validate_id, validate_label}
use anvil_ring.Admin.Store.{Sqlite, Laws, deactivated}
use anvil_ring.Admin.Issue.{
  Env, World, check_schema, append_audit, register, rotate, prepare_revoke, revoke, commit_revoke,
  Command, register_tether, rotate_tether, revoke_tether, perform, perform_all, snapshot, audit_if,
}
use anvil_ring.Admin.Valid.{IsValidRow, records_from-valid, AllRead}
use anvil_ring.Admin.Stored.{Stored, GoodLabel, changed-Stored, append_audit-Stored, issue-Stored}

module _ {Db : Type 0} (sql : Sqlite Db) (laws : Laws sql) (sha256 : Bytes → Bytes)
    (sha256_length : (bs : Bytes) → length (sha256 bs) ≡ 32) where
  abbrev IsStored : Db → Type 0
  IsStored = Stored sql laws sha256 sha256_length

  register-Stored :
      (env : Env) (id label : Bytes) (ttl_secs : ℕ) (path : Bytes) (w : World Db)
      → IsStored w.db
      → IsStored (register sql sha256 env id label ttl_secs path w).1.db
  unfolding register validate_label GoodLabel
  register-Stored env id label ttl_secs path w c = elim (Bool-cases (is_valid_label label)) [
    | inl t ↦
        rw t (issue-Stored sql laws sha256 sha256_length env id (some label) ttl_secs path w t c)
    | inr t ↦ rw t c
  ]

  off-valid : (r : Row) → IsValidRow r → IsValidRow (record r { active = nonneg 0 })
  off-valid r w = record {
    id = w.id;
    label = w.label;
    hash = w.hash;
    state = (false, refl);
    expiry = w.expiry;
  }

  deactivated-valid :
      (o : Option Row)
      → ((r : Row) → o ≡ some r → IsValidRow r)
      → (r : Row) → deactivated o ≡ some r
      → IsValidRow r
  deactivated-valid none v r e = absurd ground (arith, e)
  deactivated-valid (some r0) v r e =
      subst IsValidRow (ground (arith, e)) (off-valid r0 (v r0 refl))

  deactivate-Stored :
      (id : Bytes) (n : ℕ) (d d' : Db)
      → sql.deactivate id d ≡ some (n, d')
      → IsStored d
      → IsStored d'
  deactivate-Stored id n d d' e c =
      let (rows, count, v, t) = laws.revoked id d d' n e in
      changed-Stored sql laws sha256 sha256_length d d' id (deactivated (sql.lookup id d)) c
        (λ j. ground (arith, rows j, bytes_eq_iff id j))
        (deactivated-valid (sql.lookup id d) (c.rows id)) (omega (arith, c.few, count)) v t

  audit_if-Stored :
      (id : Bytes) (env : Env) (o : Option (ℕ × Db)) (d d' : Db) (changed : Bool)
      → sql.deactivate id d ≡ o
      → audit_if sql sha256 env id o ≡ ok (changed, d')
      → IsStored d
      → IsStored d'
  audit_if-Stored id env none d d' changed e f c = absurd ground (arith, f)
  audit_if-Stored id env (some (n, d1)) d d' changed e f c = elim (Bool-cases (n == 1)) [
    | inr t ↦ subst IsStored (ground (arith, f, t)) (deactivate-Stored id n d d1 e c)
    | inl t ↦
        let (d2, g, h) =
          bind-ok {B = Bool × Db} (append_audit sql sha256 env (bytes "revoke") id none d1)
            (λ d2. ok (true, d2)) (changed, d') (ground (arith, f, t)) in
        append_audit-Stored sql laws sha256 sha256_length env (bytes "revoke") id none d1 d'
          (ground (arith, g, h)) (deactivate-Stored id n d d1 e c)
  ]

  prepare_revoke-Stored :
      (env : Env) (id : Bytes) (d d' : Db) (changed : Bool)
      → prepare_revoke sql sha256 env id d ≡ ok (changed, d')
      → IsStored d
      → IsStored d'
  unfolding prepare_revoke validate_id check_schema
  prepare_revoke-Stored env id d d' changed e c =
      audit_if-Stored id env (sql.deactivate id d) d d' changed refl (ground (arith, e)) c

  committed_revoke :
      (env : Env) (w : World Db) (r : Result (Bool × Db) Fault)
      → IsStored w.db
      → ((changed : Bool) (d : Db) → r ≡ ok (changed, d) → IsStored d)
      → IsStored (commit_revoke sql sha256 env w r).1.db
  committed_revoke env w (err e) c k = c
  committed_revoke env w (ok (changed, d)) c k = elim (Bool-cases env.commits) [
    | inl t ↦ rw t (k changed d refl)
    | inr t ↦ rw t c
  ]

  revoke-Stored :
      (env : Env) (id : Bytes) (w : World Db)
      → IsStored w.db
      → IsStored (revoke sql sha256 env id w).1.db
  unfolding revoke
  revoke-Stored env id w c =
      committed_revoke env w (prepare_revoke sql sha256 env id w.db) c
        (λ changed d e. prepare_revoke-Stored env id w.db d changed e c)

  perform-Stored :
      (c : Command) (w : World Db) → IsStored w.db → IsStored (perform sql sha256 c w).db
  unfolding perform rotate GoodLabel
  perform-Stored (register_tether env id label ttl_secs path) w c =
      register-Stored env id label ttl_secs path w c
  perform-Stored (rotate_tether env id ttl_secs path) w c =
      issue-Stored sql laws sha256 sha256_length env id none ttl_secs path w tt c
  perform-Stored (revoke_tether env id) w c = revoke-Stored env id w c

  pub perform_all-Stored :
      (cs : List Command) (w : World Db) → IsStored w.db → IsStored (perform_all sql sha256 cs w).db
  unfolding perform_all
  perform_all-Stored [] w c = c
  perform_all-Stored (k ∷ cs) w c =
      perform_all-Stored cs (perform sql sha256 k w) (perform-Stored k w c)

  -- A snapshot of a stored database, while its files are as they were and its
  -- transaction runs, has a record of every row.
  snapshot-reads :
      (env : Env) (d : Db)
      → env.private_files ≡ true
      → env.begins ≡ true
      → env.commits ≡ true
      → IsStored d
      → (records : List Record) × (snapshot sql sha256 env d ≡ ok records)
        × AllRead (sql.select_registrations d) records
  unfolding snapshot check_schema
  snapshot-reads env d f b g c =
      let (records, e, h) =
        records_from-valid 0 (sql.select_registrations d)
          (omega (arith, c.few, laws.select_count d)) (laws.select IsValidRow d c.rows) in
      (records, rw (f, b, g, c.version, c.tables, e) refl, h)

  -- Whatever commands the administration has run on a database that the hub accepts, each with its
  -- own answers of the operating system, failures included, the hub's next snapshot succeeds, and
  -- has a record of every row.
  pub perform_all-snapshot :
      (cs : List Command) (w : World Db) (env : Env)
      → IsStored w.db
      → env.private_files ≡ true
      → env.begins ≡ true
      → env.commits ≡ true
      → (records : List Record) × (snapshot sql sha256 env (perform_all sql sha256 cs w).db
          ≡ ok records)
        × AllRead (sql.select_registrations (perform_all sql sha256 cs w).db) records
  perform_all-snapshot cs w env c f b g =
      snapshot-reads env (perform_all sql sha256 cs w).db f b g (perform_all-Stored cs w c)
