-- ===== src/Admin/Issue.antt =====
-- The operations of `Store`, on a database and the files of the credentials. A transaction that is
-- not committed leaves the database as it was. `sha256` is the crate `sha2`.
use anvil_ring.Base.{
  ℕ, ◌+◌, ◌^◌, ◌-◌, Bool, true, false, not, ◌&&◌, ◌||◌, Option, none, some, List, [], ◌∷◌, ◌++◌,
  Bytes, bytes, Map, get, insert, bytes_key, leb, ◌==◌, if◌then◌else◌, Result, ok, err, ◌>>=◌,
  ok_or,
}
use anvil_ring.Socket.{Fault, fault}
use anvil_ring.Hub.Registry.{Record}
use anvil_ring.Hub.Handshake.{digest, hex_bytes}
use anvil_ring.Admin.{Row, nonneg, max_registrations, validate_id, validate_label, records_from}
use anvil_ring.Admin.Store.{Sqlite, AuditRow}

-- What the operating system answers during one operation.
pub record Env : Type 0 where
  pub clock : Option ℕ
  pub uid : ℕ
  -- Both checks of `check_files`, and the start of the transaction.
  pub private_files : Bool
  pub begins : Bool
  pub random : Option Bytes
  -- The steps of `PendingCredential::create` (`writes` with the file's permissions), what is written when one fails, and the removal.
  pub opens_parent : Bool
  pub creates : Bool
  pub writes : Bool
  pub syncs : Bool
  pub partial : Bytes
  pub removes : Bool
  pub commits : Bool

pub record World (Db : Type 0) : Type 0 where
  pub db : Db
  pub files : Map Bytes Bytes

-- The row that a registration inserts.
abbrev pub issued_row : Bytes → Bytes → Bytes → ℕ → Row
issued_row id label hash expires_at = record {
  id = id;
  label = label;
  credential_hash = hash;
  active = nonneg 1;
  expires_at = nonneg expires_at;
}

abbrev pub is_there : Option Bytes → Bool
is_there none = false
is_there (some content) = true

-- `drop` of a `PendingCredential` that is not committed, whose file has `content`.
unfoldable pub discard : Env → Bytes → Bytes → Map Bytes Bytes → Map Bytes Bytes
discard env path content files = if env.removes then files else insert path content files

-- `PendingCredential::create`, with the files that it leaves.
unfoldable pub create :
    Env → Bytes → Bytes → Map Bytes Bytes → Result (Unit {0}) Fault × Map Bytes Bytes
unfolding discard
create env path credential files =
    if not env.opens_parent || (is_there (get path files) || not env.creates)
    then (err (fault "the output file cannot be created"), files)
    else if not env.writes || not env.syncs
    then (err (fault "the output file cannot be written"), discard env path env.partial files)
    else (ok tt, insert path (credential ++ (10 ∷ [])) files)

abbrev pub require : Bool → Fault → Result (Unit {0}) Fault
require true e = ok tt
require false e = err e

abbrev pub i64_max : ℕ
i64_max = 2 ^ 63 - 1

-- `unix_time()?.checked_add(ttl_secs)` and its filter.
unfoldable pub expiry : Env → ℕ → Result ℕ Fault
expiry env ttl_secs = ok_or env.clock (fault "the clock is before the epoch") >>= λ now.
    if leb (now + ttl_secs) i64_max
    then ok (now + ttl_secs)
    else err (fault "credential expiry is out of range")

abbrev pub check_files : Env → Result (Unit {0}) Fault
check_files env = require env.private_files (fault "state directory or database was replaced")

-- The start of a transaction.
abbrev pub begin : Env → Result (Unit {0}) Fault
begin env = require env.begins (fault "the transaction cannot begin")

-- A command that changes the store, with the answers of the OS while it runs.
pub data Command : Type 0 where
  register_tether : Env → Bytes → Bytes → ℕ → Bytes → Command
  rotate_tether : Env → Bytes → ℕ → Bytes → Command
  revoke_tether : Env → Bytes → Command

module _ {Db : Type 0} (sql : Sqlite Db) (sha256 : Bytes → Bytes) where
  unfoldable pub check_schema : Db → Result (Unit {0}) Fault
  check_schema d =
      if not (sql.user_version d == 1)
      then err (fault "unsupported database schema version")
      else require (sql.has_tables d) (fault "no such table or column")

  abbrev pub audit_at : Env → Bytes → Bytes → Option ℕ → Db → Option ℕ → Result Db Fault
  audit_at env action id expires_at d none = err (fault "the clock is before the epoch")
  audit_at env action id expires_at d (some now) =
      if leb now i64_max
      then ok_or
          (sql.insert_audit
            (record {
              timestamp = now;
              operator_uid = env.uid;
              action = action;
              tether_id = some id;
              expires_at = expires_at;
            })
            d)
          (fault "the audit row was refused")
      else err (fault "out of range integral type conversion attempted")

  unfoldable pub append_audit : Env → Bytes → Bytes → Option ℕ → Db → Result Db Fault
  append_audit env action id expires_at d = audit_at env action id expires_at d env.clock

  abbrev pub one_changed : Option (ℕ × Db) → Result Db Fault
  one_changed none = err (fault "the update was refused")
  one_changed (some (n, d)) =
      if not (n == 1) then err (fault "registration does not exist") else ok d

  -- The statement of an issue: an insert for a registration, an update for a rotation.
  unfoldable pub change : Bytes → Option Bytes → Bytes → ℕ → Db → Result Db Fault
  change id none hash expires_at d = one_changed (sql.update_credential hash expires_at id d)
  change id (some label) hash expires_at d =
      if not (leb max_registrations (sql.count_registrations d))
      then ok_or (sql.insert_registration (issued_row id label hash expires_at) d)
          (fault "registration failed; ID must be unique and state must be writable")
      else err (fault "registration limit reached")

  abbrev pub action_of : Option Bytes → Bytes
  action_of none = bytes "rotate"
  action_of (some label) = bytes "register"

  -- The guards of `issue`, with the expiry and the random bytes that it goes on with.
  unfoldable pub admitted : Env → Bytes → ℕ → Db → Result (ℕ × Bytes) Fault
  unfolding expiry check_schema
  admitted env id ttl_secs d = validate_id id >>= λ u1.
      require (leb 60 ttl_secs && leb ttl_secs 86400)
        (fault "credential TTL must be 60 through 86400 seconds")
      >>= λ u2. expiry env ttl_secs >>= λ expires_at. check_files env >>= λ u3. begin env >>= λ b.
          check_schema d >>= λ u4.
          ok_or env.random (fault "OS credential randomness unavailable") >>= λ random.
          ok (expires_at, random)

  unfoldable pub recorded : Env → Bytes → Option Bytes → Bytes → ℕ → Db → Result (Bytes × Db) Fault
  unfolding change append_audit
  recorded env id label credential expires_at d =
      change id label (digest sha256 credential) expires_at d >>= λ d1.
      append_audit env (action_of label) id (some expires_at) d1 >>= λ d2. ok (credential, d2)

  -- The transaction of `issue` before it delivers: the credential and the database.
  unfoldable pub prepare : Env → Bytes → Option Bytes → ℕ → Db → Result (Bytes × Db) Fault
  unfolding admitted recorded
  prepare env id label ttl_secs d = admitted env id ttl_secs d >>= λ (expires_at, random).
      recorded env id label (hex_bytes random) expires_at d

  -- The delivery and the commit.
  abbrev pub commit_on :
      Env
      → Bytes
      → Bytes
      → Db
      → World Db
      → Result (Unit {0}) Fault × Map Bytes Bytes
      → Result (Unit {0}) Fault × World Db
  commit_on env path credential d w (err e, files) = (err e, record w { files = files })
  commit_on env path credential d w (ok u, files) =
      if env.commits then (ok tt, record { db = d; files = files }) else (
        err (fault "the commit failed"),
        record w { files = discard env path (credential ++ (10 ∷ [])) w.files },
      )

  abbrev pub deliver :
      Env → Bytes → World Db → Result (Bytes × Db) Fault → Result (Unit {0}) Fault × World Db
  deliver env path w (err e) = (err e, w)
  deliver env path w (ok (credential, d)) =
      commit_on env path credential d w (create env path credential w.files)

  unfoldable pub issue :
      Env → Bytes → Option Bytes → ℕ → Bytes → World Db → Result (Unit {0}) Fault × World Db
  unfolding prepare create discard
  issue env id label ttl_secs path w = deliver env path w (prepare env id label ttl_secs w.db)

  abbrev pub after_label :
      Result (Unit {0}) Fault
      → World Db
      → Result (Unit {0}) Fault × World Db
      → Result (Unit {0}) Fault × World Db
  after_label (err e) w issued = (err e, w)
  after_label (ok u) w issued = issued

  unfoldable pub register :
      Env → Bytes → Bytes → ℕ → Bytes → World Db → Result (Unit {0}) Fault × World Db
  unfolding issue
  register env id label ttl_secs path w =
      after_label (validate_label label) w (issue env id (some label) ttl_secs path w)

  unfoldable pub rotate : Env → Bytes → ℕ → Bytes → World Db → Result (Unit {0}) Fault × World Db
  unfolding issue
  rotate env id ttl_secs path w = issue env id none ttl_secs path w

  abbrev pub audit_if : Env → Bytes → Option (ℕ × Db) → Result (Bool × Db) Fault
  audit_if env id none = err (fault "the update was refused")
  audit_if env id (some (n, d)) =
      if n == 1
      then (append_audit env (bytes "revoke") id none d >>= λ d'. ok (true, d'))
      else ok (false, d)

  unfoldable pub prepare_revoke : Env → Bytes → Db → Result (Bool × Db) Fault
  unfolding check_schema append_audit
  prepare_revoke env id d = validate_id id >>= λ u1. check_files env >>= λ u2.
      begin env >>= λ b. check_schema d >>= λ u3. audit_if env id (sql.deactivate id d)

  abbrev pub commit_revoke :
      Env → World Db → Result (Bool × Db) Fault → Result Bool Fault × World Db
  commit_revoke env w (err e) = (err e, w)
  commit_revoke env w (ok (changed, d)) =
      if env.commits
      then (ok changed, record w { db = d })
      else (err (fault "the commit failed"), w)

  unfoldable pub revoke : Env → Bytes → World Db → Result Bool Fault × World Db
  unfolding prepare_revoke
  revoke env id w = commit_revoke env w (prepare_revoke env id w.db)

  unfoldable pub snapshot : Env → Db → Result (List Record) Fault
  unfolding check_schema records_from
  snapshot env d = check_files env >>= λ u1. begin env >>= λ b. check_schema d >>= λ u2.
      records_from 0 (sql.select_registrations d) >>= λ records.
      require env.commits (fault "the commit failed") >>= λ u3. check_files env >>= λ u4. ok records

  -- `audit`: at most 100 rows behind a sequence number.
  unfoldable pub audit : Env → ℕ → Db → Result (List AuditRow) Fault
  unfolding check_schema
  audit env after d = require (leb after i64_max) (fault "audit sequence is out of range") >>= λ u1.
      check_files env >>= λ u2. begin env >>= λ b. check_schema d >>= λ u3.
      require env.commits (fault "the commit failed") >>= λ u4.
      check_files env >>= λ u5. ok (sql.select_audit after d)

  unfoldable pub perform : Command → World Db → World Db
  unfolding register rotate revoke
  perform (register_tether env id label ttl_secs path) w = (register env id label ttl_secs path w).1
  perform (rotate_tether env id ttl_secs path) w = (rotate env id ttl_secs path w).1
  perform (revoke_tether env id) w = (revoke env id w).1

  unfoldable pub perform_all : List Command → World Db → World Db
  unfolding perform
  perform_all [] w = w
  perform_all (c ∷ cs) w = perform_all cs (perform c w)
