-- ===== src/Admin/Store.antt =====
-- What the administration uses of SQLite, as statements on a database, and what it relies on.
use anvil_ring.Base.{
  ℕ, suc, ◌≤◌, ◌≡◌, Bool, Option, none, some, List, ◌∷◌, ◌++◌, Bytes, length, All, bytes_eq,
  if◌then◌else◌,
}
use anvil_ring.Admin.{nonneg, Row}

-- A row of the table `audit`; the sequence number is SQLite's.
pub record AuditRow : Type 0 where
  pub timestamp : ℕ
  pub operator_uid : ℕ
  pub action : Bytes
  pub tether_id : Option Bytes
  pub expires_at : Option ℕ

-- The statements; one that SQLite refuses has no result.
pub record Sqlite (Db : Type 0) : Type 0 where
  pub user_version : Db → ℕ
  pub has_tables : Db → Bool
  pub select_registrations : Db → List Row
  pub count_registrations : Db → ℕ
  pub insert_registration : Row → Db → Option Db
  pub update_credential : Bytes → ℕ → Bytes → Db → Option (ℕ × Db)
  pub deactivate : Bytes → Db → Option (ℕ × Db)
  pub insert_audit : AuditRow → Db → Option Db
  pub select_audit : ℕ → Db → List AuditRow
  -- The row of an id, if there is one.
  pub lookup : Bytes → Db → Option Row

abbrev pub with_credential : Bytes → ℕ → Option Row → Option Row
with_credential hash expires_at none = none
with_credential hash expires_at (some r) =
    some (record r { credential_hash = hash; active = nonneg 1; expires_at = nonneg expires_at })

abbrev pub deactivated : Option Row → Option Row
deactivated none = none
deactivated (some r) = some (record r { active = nonneg 0 })

-- What SQL says of them: `id` is a primary key, and a statement changes the rows that it names.
pub record Laws {Db : Type 0} (sql : Sqlite Db) : Type 1 where
  pub select :
      (P : Row → Type 0) (d : Db)
      → ((id : Bytes) (r : Row) → sql.lookup id d ≡ some r → P r)
      → All P (sql.select_registrations d)
  pub listed :
      (id : Bytes) (r : Row) (d : Db)
      → sql.lookup id d ≡ some r
      → (r.id ≡ id)
        × ((xs : List Row) × (ys : List Row) × (sql.select_registrations d ≡ xs ++ (r ∷ ys)))
  pub select_count : (d : Db) → length (sql.select_registrations d) ≤ sql.count_registrations d
  pub inserted :
      (r : Row) (d d' : Db)
      → sql.insert_registration r d ≡ some d'
      → ((j : Bytes) → sql.lookup j d' ≡ (if bytes_eq r.id j then some r else sql.lookup j d))
        × (sql.lookup r.id d ≡ none)
        × (sql.count_registrations d' ≡ suc (sql.count_registrations d))
        × (sql.user_version d' ≡ sql.user_version d)
        × (sql.has_tables d' ≡ sql.has_tables d)
  pub updated :
      (hash : Bytes) (expires_at : ℕ) (id : Bytes) (d d' : Db) (n : ℕ)
      → sql.update_credential hash expires_at id d ≡ some (n, d')
      → ((j : Bytes)
          → sql.lookup j d' ≡ (
              if bytes_eq id j
              then with_credential hash expires_at (sql.lookup j d)
              else sql.lookup j d))
        × (n ≡ 1 → (r : Row) × (sql.lookup id d ≡ some r))
        × (sql.count_registrations d' ≡ sql.count_registrations d)
        × (sql.user_version d' ≡ sql.user_version d)
        × (sql.has_tables d' ≡ sql.has_tables d)
  pub revoked :
      (id : Bytes) (d d' : Db) (n : ℕ)
      → sql.deactivate id d ≡ some (n, d')
      → ((j : Bytes)
          → sql.lookup j d'
            ≡ (if bytes_eq id j then deactivated (sql.lookup j d) else sql.lookup j d))
        × (sql.count_registrations d' ≡ sql.count_registrations d)
        × (sql.user_version d' ≡ sql.user_version d)
        × (sql.has_tables d' ≡ sql.has_tables d)
  pub audited :
      (a : AuditRow) (d d' : Db)
      → sql.insert_audit a d ≡ some d'
      → ((j : Bytes) → sql.lookup j d' ≡ sql.lookup j d)
        × (sql.count_registrations d' ≡ sql.count_registrations d)
        × (sql.user_version d' ≡ sql.user_version d)
        × (sql.has_tables d' ≡ sql.has_tables d)
