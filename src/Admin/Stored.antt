-- ===== src/Admin/Stored.antt =====
-- What every operation of the administration keeps: a database whose rows the hub accepts.
use anvil_ring.Base.{
  ℕ, ◌+◌, ◌≤◌, ◌<◌, ◌≡◌, refl, subst, ◌∙◌, true, not, Option, none, some, [], Bytes, Map, bytes_key,
  length, arith, leb, if◌then◌else◌, Result, ok, err, ◌>>=◌, bind-ok, ok_or-ok, if-ok, bytes_eq,
  bytes_eq_iff, Bool-cases, inl, inr,
}
use anvil_ring.Socket.{Fault, fault}
use anvil_ring.Hub.Handshake.{digest, hex_bytes}
use anvil_ring.Admin.{Row, is_valid_id, is_valid_label, is_valid_hash, validate_id}
use anvil_ring.Admin.Store.{Sqlite, Laws, AuditRow, with_credential}
use anvil_ring.Admin.Issue.{
  Env, World, expiry, check_schema, append_audit, change, prepare, issue, one_changed, audit_at,
  i64_max, admitted, recorded, issued_row, create, deliver, commit_on, action_of,
}
use anvil_ring.Admin.Valid.{IsValidRow, digest-valid}

module _ {Db : Type 0} (sql : Sqlite Db) (laws : Laws sql) (sha256 : Bytes → Bytes)
    (sha256_length : (bs : Bytes) → length (sha256 bs) ≡ 32) where
  pub record Stored (d : Db) : Type 0 where
    pub version : sql.user_version d ≡ 1
    pub tables : sql.has_tables d ≡ true
    pub few : sql.count_registrations d ≤ 10000
    pub rows : (id : Bytes) (r : Row) → sql.lookup id d ≡ some r → IsValidRow r

  -- A database that differs in one row at most.
  pub changed-Stored :
      (d d' : Db) (id : Bytes) (o : Option Row)
      → Stored d
      → ((j : Bytes) → sql.lookup j d' ≡ (if bytes_eq id j then o else sql.lookup j d))
      → ((r : Row) → o ≡ some r → IsValidRow r)
      → sql.count_registrations d' ≤ 10000
      → sql.user_version d' ≡ sql.user_version d
      → sql.has_tables d' ≡ sql.has_tables d
      → Stored d'
  changed-Stored d d' id o c f v n e g = record {
    version = e ∙ c.version;
    tables = g ∙ c.tables;
    few = n;
    rows = λ j r h. elim (Bool-cases (bytes_eq id j)) [
      | inl t ↦ v r (ground (arith, f j, h, t))
      | inr t ↦ c.rows j r (ground (arith, f j, h, t))
    ];
  }

  untouched :
      {d : Db} (j : Bytes)
      → sql.lookup j d ≡ (if bytes_eq [] j then sql.lookup [] d else sql.lookup j d)
  untouched {d = d} j = ground (arith, bytes_eq_iff [] j)

  pub audit_at-ok :
      (env : Env) (action id : Bytes) (expires_at : Option ℕ) (d d' : Db) (clock : Option ℕ)
      → audit_at sql sha256 env action id expires_at d clock ≡ ok d'
      → (a : AuditRow) × (sql.insert_audit a d ≡ some d')
  audit_at-ok env action id expires_at d d' none e = absurd ground (arith, e)
  audit_at-ok env action id expires_at d d' (some now) e =
      (_, ok_or-ok _ (fault "the audit row was refused") d' (if-ok (leb now i64_max) _ _ d' e).1)

  pub append_audit-Stored :
      (env : Env) (action id : Bytes) (expires_at : Option ℕ) (d d' : Db)
      → append_audit sql sha256 env action id expires_at d ≡ ok d'
      → Stored d
      → Stored d'
  unfolding append_audit
  append_audit-Stored env action id expires_at d d' e c =
      let (a, h) = audit_at-ok env action id expires_at d d' env.clock e in
      let (same, n, v, t) = laws.audited a d d' h in
      changed-Stored d d' [] (sql.lookup [] d) c (λ j. same j ∙ untouched j) (c.rows [])
        (omega (arith, c.few, n)) v t

  pub one_changed-ok :
      (o : Option (ℕ × Db)) (d : Db)
      → one_changed sql sha256 o ≡ ok d
      → (n : ℕ) × (o ≡ some (n, d)) × (n ≡ 1)
  one_changed-ok none d e = absurd ground (arith, e)
  one_changed-ok (some (n, d')) d e = (n, ground (arith, e), ground (arith, e))

  -- The row of an issue.
  issued-valid :
      (id label hash : Bytes) (expires_at : ℕ)
      → is_valid_id id ≡ true
      → is_valid_label label ≡ true
      → is_valid_hash hash ≡ true
      → 0 < expires_at
      → IsValidRow (issued_row id label hash expires_at)
  issued-valid id label hash expires_at i l h p = record {
    id = i;
    label = l;
    hash = h;
    state = (true, refl);
    expiry = (expires_at, refl, p);
  }

  rotated-valid :
      (hash : Bytes) (expires_at : ℕ) (o : Option Row)
      → is_valid_hash hash ≡ true
      → 0 < expires_at
      → ((r : Row) → o ≡ some r → IsValidRow r)
      → (r : Row) → with_credential hash expires_at o ≡ some r
      → IsValidRow r
  rotated-valid hash expires_at none h p v r e = absurd ground (arith, e)
  rotated-valid hash expires_at (some r0) h p v r e =
      let w = v r0 refl in
      subst IsValidRow (ground (arith, e))
        (issued-valid r0.id r0.label hash expires_at w.id w.label h p)

  unfoldable pub GoodLabel : Option Bytes → Type 0
  GoodLabel none = Unit
  GoodLabel (some label) = is_valid_label label ≡ true

  change-Stored :
      (id : Bytes) (label : Option Bytes) (hash : Bytes) (expires_at : ℕ) (d d' : Db)
      → change sql sha256 id label hash expires_at d ≡ ok d'
      → is_valid_id id ≡ true
      → GoodLabel label
      → is_valid_hash hash ≡ true
      → 0 < expires_at
      → Stored d
      → Stored d'
  unfolding change GoodLabel
  change-Stored id none hash expires_at d d' e i l h p c =
      let (n, f, g) = one_changed-ok _ d' e in
      let (rows, there, count, v, t) = laws.updated hash expires_at id d d' n f in
      changed-Stored d d' id (with_credential hash expires_at (sql.lookup id d)) c
        (λ j. ground (arith, rows j, bytes_eq_iff id j))
        (rotated-valid hash expires_at (sql.lookup id d) h p (c.rows id)) (omega (arith, c.few)) v t
  change-Stored id (some label) hash expires_at d d' e i l h p c =
      let (room, f) =
        if-ok (not (leb 10000 (sql.count_registrations d))) _ (fault "registration limit reached")
          d' e in
      let (rows, fresh, count, v, t) = laws.inserted (issued_row id label hash expires_at) d d' (
        ok_or-ok _ (fault "registration failed; ID must be unique and state must be writable") d'
          f) in
      changed-Stored d d' id (some (issued_row id label hash expires_at)) c rows
        (λ r g.
          subst IsValidRow (ground (arith, g)) (issued-valid id label hash expires_at i l h p))
        (ground (arith, room, count)) v t

  -- What `issue` has checked when it goes on.
  pub admitted-ok :
      (env : Env) (id : Bytes) (ttl_secs : ℕ) (d : Db) (expires_at : ℕ) (random : Bytes)
      → admitted sql sha256 env id ttl_secs d ≡ ok (expires_at, random)
      → (is_valid_id id ≡ true)
        × (60 ≤ ttl_secs)
        × (ttl_secs ≤ 86400)
        × (env.random ≡ some random)
        × (now : ℕ) × (env.clock ≡ some now)
        × (expires_at ≡ now + ttl_secs)
  unfolding admitted validate_id expiry check_schema
  admitted-ok env id ttl_secs d expires_at random e = ground (arith, e)

  recorded-ok :
      (env : Env) (id : Bytes) (label : Option Bytes) (credential : Bytes) (expires_at : ℕ)
      (d d' : Db) (delivered : Bytes)
      → recorded sql sha256 env id label credential expires_at d ≡ ok (delivered, d')
      → (delivered ≡ credential)
        × (d1 : Db) × (change sql sha256 id label (digest sha256 credential) expires_at d ≡ ok d1)
        × (append_audit sql sha256 env (action_of sql sha256 label) id (some expires_at) d1 ≡ ok d')
  unfolding recorded
  recorded-ok env id label credential expires_at d d' delivered e =
      let (d1, f, g) =
        bind-ok (change sql sha256 id label (digest sha256 credential) expires_at d)
          (λ d1.
            append_audit sql sha256 env (action_of sql sha256 label) id (some expires_at) d1
            >>= λ d2. ok (credential, d2))
          (delivered, d') e in
      let (d2, h, k) =
        bind-ok (append_audit sql sha256 env (action_of sql sha256 label) id (some expires_at) d1)
          (λ d2. ok (credential, d2)) (delivered, d') g in
      (ground (arith, k), d1, f, ground (arith, h, k))

  -- All that a transaction ready to commit says.
  pub record Prepared (env : Env) (id : Bytes) (label : Option Bytes) (ttl_secs : ℕ) (d d' : Db)
      (credential : Bytes) : Type 0 where
    pub random : Bytes
    pub expires_at : ℕ
    pub between : Db
    pub guards : admitted sql sha256 env id ttl_secs d ≡ ok (expires_at, random)
    pub secret : credential ≡ hex_bytes random
    pub changed :
        change sql sha256 id label (digest sha256 (hex_bytes random)) expires_at d ≡ ok between
    pub audited :
        append_audit sql sha256 env (action_of sql sha256 label) id (some expires_at) between
        ≡ ok d'

  pub prepare-Prepared :
      (env : Env) (id : Bytes) (label : Option Bytes) (ttl_secs : ℕ) (d d' : Db)
      (credential : Bytes)
      → prepare sql sha256 env id label ttl_secs d ≡ ok (credential, d')
      → Prepared env id label ttl_secs d d' credential
  unfolding prepare
  prepare-Prepared env id label ttl_secs d d' credential e =
      let ((expires_at, random), f, g) =
        bind-ok (admitted sql sha256 env id ttl_secs d)
          (λ (expires_at, random). recorded sql sha256 env id label (hex_bytes random) expires_at d)
          (credential, d') e in
      let (k, d1, h, i) =
        recorded-ok env id label (hex_bytes random) expires_at d d' credential g in
      record {
        random = random;
        expires_at = expires_at;
        between = d1;
        guards = f;
        secret = k;
        changed = h;
        audited = i;
      }

  prepare-Stored :
      (env : Env) (id : Bytes) (label : Option Bytes) (ttl_secs : ℕ) (d d' : Db)
      (credential : Bytes)
      → prepare sql sha256 env id label ttl_secs d ≡ ok (credential, d')
      → GoodLabel label
      → Stored d
      → Stored d'
  prepare-Stored env id label ttl_secs d d' credential e l c =
      let p = prepare-Prepared env id label ttl_secs d d' credential e in
      let (i, low, high, r, now, k, x) =
        admitted-ok env id ttl_secs d p.expires_at p.random p.guards in
      append_audit-Stored env (action_of sql sha256 label) id (some p.expires_at) p.between d'
        p.audited
        (change-Stored id label (digest sha256 (hex_bytes p.random)) p.expires_at d p.between
          p.changed i l
          (digest-valid sha256 (hex_bytes p.random) (sha256_length (hex_bytes p.random)))
          (omega arith) c)

  -- What a commit leaves.
  committed :
      (env : Env) (path : Bytes) (w : World Db) (credential : Bytes) (d : Db)
      (r : Result (Unit {0}) Fault × Map Bytes Bytes)
      → Stored w.db
      → Stored d
      → Stored (commit_on sql sha256 env path credential d w r).1.db
  committed env path w credential d (err e, files) c k = c
  committed env path w credential d (ok u, files) c k = elim (Bool-cases env.commits) [
    | inl t ↦ rw t k
    | inr t ↦ rw t c
  ]

  issued_db :
      (env : Env) (path : Bytes) (w : World Db) (r : Result (Bytes × Db) Fault)
      → Stored w.db
      → ((credential : Bytes) (d : Db) → r ≡ ok (credential, d) → Stored d)
      → Stored (deliver sql sha256 env path w r).1.db
  issued_db env path w (err e) c k = c
  issued_db env path w (ok (credential, d)) c k =
      committed env path w credential d (create env path credential w.files) c (k credential d refl)

  pub issue-Stored :
      (env : Env) (id : Bytes) (label : Option Bytes) (ttl_secs : ℕ) (path : Bytes) (w : World Db)
      → GoodLabel label
      → Stored w.db
      → Stored (issue sql sha256 env id label ttl_secs path w).1.db
  unfolding issue
  issue-Stored env id label ttl_secs path w l c =
      issued_db env path w (prepare sql sha256 env id label ttl_secs w.db) c
        (λ credential d e. prepare-Stored env id label ttl_secs w.db d credential e l c)
