-- ===== src/Admin/Delivery.antt =====
-- What an issue leaves: a credential delivered and recorded, or nothing at all.
use anvil_ring.Base.{
  ℕ, ◌+◌, ◌/◌, ◌%◌, ◌<◌, ◌≡◌, refl, sym, ap, subst, ◌∙◌, true, false, not, Option, none, some, [],
  ◌∷◌, ◌++◌, Bytes, Map, get, insert, bytes_key, length, arith, leb, Result, ok, err, bytes_eq,
  bytes_eq_iff, Bool-cases, if-ok, ok_or-ok, inl, inr,
}
use anvil_ring.Text.Decimal.{digit_char}
use anvil_ring.Socket.{Fault, fault}
use anvil_ring.Hub.Handshake.{digest, hex_bytes}
use anvil_ring.Tunnel.Config.{trim_cred, is_blank, unless_blank}
use anvil_ring.Admin.{Row, nonneg}
use anvil_ring.Admin.Store.{Sqlite, Laws}
use anvil_ring.Admin.Issue.{
  Env, World, discard, create, prepare, commit_on, deliver, issue, change, append_audit, issued_row,
}
use anvil_ring.Admin.Stored.{prepare-Prepared, audit_at-ok, one_changed-ok, admitted-ok}

-- An issue that failed: the database is as it was, and so are the files, as long as a file that
-- was created can be removed.
pub record Undone {Db : Type 0} (env : Env) (w w' : World Db) : Type 0 where
  pub db : w'.db ≡ w.db
  pub files : env.removes ≡ true → w'.files ≡ w.files

create-undone :
    (env : Env) (path credential : Bytes) (files : Map Bytes Bytes) (e : Fault)
    (files' : Map Bytes Bytes)
    → create env path credential files ≡ (err e, files')
    → env.removes ≡ true
    → files' ≡ files
unfolding create discard
create-undone env path credential files e files' f g = ground (arith, f, g)

create-done :
    (env : Env) (path credential : Bytes) (files files' : Map Bytes Bytes) (u : Unit {0})
    → create env path credential files ≡ (ok u, files')
    → (get path files ≡ none) × (files' ≡ insert path (credential ++ (10 ∷ [])) files)
unfolding create discard
create-done env path credential files files' u f = ground (arith, f)

-- A hexadecimal text has no blank at its end, so the tether reads its credential's file back.
hex_not_blank : (n : ℕ) → n < 16 → is_blank (digit_char n) ≡ false
unfolding digit_char
hex_not_blank n l = ground arith

not_blank : (b : ℕ) (t : Bytes) → is_blank b ≡ false → unless_blank b t ≡ b ∷ t
not_blank b [] e = ground (arith, e)
not_blank b (c ∷ cs) e = refl

trim_cred-hex : (bs : Bytes) → trim_cred (hex_bytes bs ++ (10 ∷ [])) ≡ hex_bytes bs
unfolding trim_cred hex_bytes
trim_cred-hex [] = refl
trim_cred-hex (b ∷ bs) =
    not_blank (digit_char (b / 16 % 16)) _ (hex_not_blank (b / 16 % 16) (omega arith))
    ∙ ap (digit_char (b / 16 % 16) ∷◌) (
        not_blank (digit_char (b % 16)) _ (hex_not_blank (b % 16) (omega arith))
        ∙ ap (digit_char (b % 16) ∷◌) (trim_cred-hex bs))

module _ {Db : Type 0} (sql : Sqlite Db) (laws : Laws sql) (sha256 : Bytes → Bytes)
    (sha256_length : (bs : Bytes) → length (sha256 bs) ≡ 32) where
  -- The row of `id` is active, with a digest and an expiry, and the other rows are as they were.
  pub record Recorded (id hash : Bytes) (expires_at : ℕ) (d d' : Db) : Type 0 where
    pub row : Row
    pub there : sql.lookup id d' ≡ some row
    pub hashed : row.credential_hash ≡ hash
    pub active : row.active ≡ nonneg 1
    pub expiry : row.expires_at ≡ nonneg expires_at
    pub others : (j : Bytes) → bytes_eq id j ≡ false → sql.lookup j d' ≡ sql.lookup j d

  change-Recorded :
      (id : Bytes) (label : Option Bytes) (hash : Bytes) (expires_at : ℕ) (d d' : Db)
      → change sql sha256 id label hash expires_at d ≡ ok d'
      → Recorded id hash expires_at d d'
  unfolding change
  change-Recorded id none hash expires_at d d' e =
      let (n, f, g) = one_changed-ok sql laws sha256 sha256_length _ d' e in
      let (rows, there, count, v, t) = laws.updated hash expires_at id d d' n f in
      let (r, h) = there g in
      record {
        row = record r {
          credential_hash = hash;
          active = nonneg 1;
          expires_at = nonneg expires_at;
        };
        there = ground (arith, rows id, h, bytes_eq_iff id id);
        hashed = refl;
        active = refl;
        expiry = refl;
        others = λ j k. ground (arith, rows j, k);
      }
  change-Recorded id (some label) hash expires_at d d' e =
      let (room, f) =
        if-ok (not (leb 10000 (sql.count_registrations d))) _ (fault "registration limit reached")
          d' e in
      let (rows, fresh, count, v, t) = laws.inserted (issued_row id label hash expires_at) d d' (
        ok_or-ok _ (fault "registration failed; ID must be unique and state must be writable") d'
          f) in
      record {
        row = issued_row id label hash expires_at;
        there = ground (arith, rows id, bytes_eq_iff id id);
        hashed = refl;
        active = refl;
        expiry = refl;
        others = λ j k. ground (arith, rows j, k);
      }

  audited-Recorded :
      (env : Env) (action id hash : Bytes) (expires_at : ℕ) (e : Option ℕ) (d d1 d2 : Db)
      → append_audit sql sha256 env action id e d1 ≡ ok d2
      → Recorded id hash expires_at d d1
      → Recorded id hash expires_at d d2
  unfolding append_audit
  audited-Recorded env action id hash expires_at e d d1 d2 f c =
      let (a, h) = audit_at-ok sql laws sha256 sha256_length env action id e d1 d2 env.clock f in
      let (same, n, v, t) = laws.audited a d1 d2 h in
      record {
        row = c.row;
        there = same id ∙ c.there;
        hashed = c.hashed;
        active = c.active;
        expiry = c.expiry;
        others = λ j k. same j ∙ c.others j k;
      }

  -- An issue that succeeded: a new file holds a text, the row of `id` holds the digest of the
  -- credential that the tether reads from that file, and expires after the time asked for.
  pub record Delivered (env : Env) (id : Bytes) (ttl_secs : ℕ) (path : Bytes) (w w' : World Db)
      : Type 0 where
    pub content : Bytes
    pub now : ℕ
    pub fresh : get path w.files ≡ none
    pub file : w'.files ≡ insert path content w.files
    pub clock : env.clock ≡ some now
    pub recorded : Recorded id (digest sha256 (trim_cred content)) (now + ttl_secs) w.db w'.db

  prepared-Recorded :
      (env : Env) (id : Bytes) (label : Option Bytes) (ttl_secs : ℕ) (d d' : Db)
      (credential : Bytes)
      → prepare sql sha256 env id label ttl_secs d ≡ ok (credential, d')
      → (now : ℕ) × (env.clock ≡ some now)
        × Recorded id (digest sha256 (trim_cred (credential ++ (10 ∷ [])))) (now + ttl_secs) d d'
  prepared-Recorded env id label ttl_secs d d' credential e =
      let p =
        prepare-Prepared sql laws sha256 sha256_length env id label ttl_secs d d' credential e in
      let (i, low, high, r, now, k, x) =
        admitted-ok sql laws sha256 sha256_length env id ttl_secs d p.expires_at p.random
          p.guards in
      (
        now,
        k,
        subst (λ c. Recorded id (digest sha256 c) (now + ttl_secs) d d')
            (sym (trim_cred-hex p.random) ∙ ap (λ c. trim_cred (c ++ (10 ∷ []))) (sym p.secret))
            (subst (λ n. Recorded id (digest sha256 (hex_bytes p.random)) n d d') x
              (audited-Recorded env _ id (digest sha256 (hex_bytes p.random)) p.expires_at
                (some p.expires_at) d p.between d' p.audited
                (change-Recorded id label (digest sha256 (hex_bytes p.random)) p.expires_at d
                  p.between p.changed))),
      )

  unfoldable pub Issued :
      Env → Bytes → ℕ → Bytes → World Db → Result (Unit {0}) Fault × World Db → Type 0
  Issued env id ttl_secs path w (ok u, w') = Delivered env id ttl_secs path w w'
  Issued env id ttl_secs path w (err e, w') = Undone env w w'

  commit_on-Issued :
      (env : Env) (id : Bytes) (label : Option Bytes) (ttl_secs : ℕ) (path : Bytes) (w : World Db)
      (credential : Bytes) (d : Db) (r : Result (Unit {0}) Fault × Map Bytes Bytes)
      → prepare sql sha256 env id label ttl_secs w.db ≡ ok (credential, d)
      → create env path credential w.files ≡ r
      → Issued env id ttl_secs path w (commit_on sql sha256 env path credential d w r)
  unfolding Issued discard
  commit_on-Issued env id label ttl_secs path w credential d (err e, files) p c = record {
    db = refl;
    files = create-undone env path credential w.files e files c;
  }
  commit_on-Issued env id label ttl_secs path w credential d (ok u, files) p c =
      let (fresh, file) = create-done env path credential w.files files u c in
      let (now, k, recorded) = prepared-Recorded env id label ttl_secs w.db d credential p in
      elim (Bool-cases env.commits) [
        | inl t ↦ rw t (record {
          content = credential ++ (10 ∷ []);
          now = now;
          fresh = fresh;
          file = file;
          clock = k;
          recorded = recorded;
        })
        | inr t ↦ rw t (record { db = refl; files = λ g. rw g refl })
      ]

  deliver-Issued :
      (env : Env) (id : Bytes) (label : Option Bytes) (ttl_secs : ℕ) (path : Bytes) (w : World Db)
      (r : Result (Bytes × Db) Fault)
      → prepare sql sha256 env id label ttl_secs w.db ≡ r
      → Issued env id ttl_secs path w (deliver sql sha256 env path w r)
  unfolding Issued
  deliver-Issued env id label ttl_secs path w (err e) p = record { db = refl; files = λ t. refl }
  deliver-Issued env id label ttl_secs path w (ok (credential, d)) p =
      commit_on-Issued env id label ttl_secs path w credential d
        (create env path credential w.files) p refl

  -- An issue either delivers and records a credential, or leaves nothing behind: a success has
  -- written a new file, and the row of the id, active, holds the digest of the credential that the
  -- tether trims from that file, and expires after the time asked for, the other rows being as they
  -- were; a failure, at whatever step, leaves the database as it was, and the files too if the
  -- removal of a file that it created works.
  pub issue-Issued :
      (env : Env) (id : Bytes) (label : Option Bytes) (ttl_secs : ℕ) (path : Bytes) (w : World Db)
      → Issued env id ttl_secs path w (issue sql sha256 env id label ttl_secs path w)
  unfolding issue
  issue-Issued env id label ttl_secs path w =
      deliver-Issued env id label ttl_secs path w (prepare sql sha256 env id label ttl_secs w.db)
        refl
