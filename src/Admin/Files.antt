-- ===== src/Admin/Files.antt =====
-- The metadata of the state directory and of the database file, which every operation of `Store` checks.
use anvil_ring.Base.{
  ℕ, ◌%◌, ◌^◌, ◌≡◌, ◌↔◌, Bool, true, false, not, ◌&&◌, ◌==◌, if◌then◌else◌, arith, Option, none,
  some, Result, ok, err, ◌>>=◌,
}
use anvil_ring.Socket.{Fault, fault}

-- `Metadata`, as `lstat` answers it.
pub record Metadata : Type 0 where
  pub uid : ℕ
  pub mode : ℕ
  pub is_dir : Bool
  pub is_file : Bool
  pub nlink : ℕ
  pub dev : ℕ
  pub ino : ℕ

-- `mode & 0o7777` keeps the low 12 bits; 448 is 0o700 and 384 is 0o600.
abbrev pub expected_mode : Bool → ℕ
expected_mode true = 448
expected_mode false = 384

abbrev pub right_kind : Bool → Metadata → Bool
right_kind true m = m.is_dir
right_kind false m = m.is_file && m.nlink == 1

abbrev pub is_private : ℕ → Bool → Metadata → Bool
is_private euid directory m =
    m.uid == euid && (m.mode % 2 ^ 12 == expected_mode directory && right_kind directory m)

abbrev pub not_private : Bool → Fault
not_private true =
    fault "state directory must be owned by the effective UID, mode 0700, and not a symlink"
not_private false =
    fault
      "database must be a regular, singly linked, non-symlink file owned by the effective UID with mode 0600"

abbrev pub if_private : ℕ → Bool → Metadata → Result Metadata Fault
if_private euid directory m =
    if not (is_private euid directory m) then err (not_private directory) else ok m

-- What `lstat` answers, if it does.
unfoldable pub private_metadata : ℕ → Bool → Option Metadata → Result Metadata Fault
private_metadata euid directory none = err (fault "No such file or directory")
private_metadata euid directory (some m) = if_private euid directory m

abbrev pub identity : Metadata → ℕ × ℕ
identity m = (m.dev, m.ino)

abbrev pub same_file : ℕ × ℕ → ℕ × ℕ → Bool
same_file (dev, ino) (dev', ino') = dev == dev' && ino == ino'

-- `check_files`, with the identities that the store was opened with.
unfoldable pub check_identity :
    ℕ → ℕ × ℕ → ℕ × ℕ → Option Metadata → Option Metadata → Result (Unit {0}) Fault
unfolding private_metadata
check_identity euid directory database at_directory at_database =
    private_metadata euid true at_directory >>= λ d.
    if not (same_file (identity d) directory)
    then err (fault "state directory or database was replaced")
    else private_metadata euid false at_database >>= λ f.
        if not (same_file (identity f) database)
        then err (fault "state directory or database was replaced")
        else ok tt

-- What a file's metadata must be.
abbrev Kept : ℕ → Bool → ℕ × ℕ → Option Metadata → Type 0
Kept euid directory id none = ⊥
Kept euid directory id (some m) =
    (is_private euid directory m ≡ true) × (same_file (identity m) id ≡ true)

-- The check passes exactly for the directory and the file that the store was opened with, both private.
check_identity_iff :
    (euid : ℕ) (directory database : ℕ × ℕ) (at_directory at_database : Option Metadata)
    → (check_identity euid directory database at_directory at_database ≡ ok tt)
      ↔ (Kept euid true directory at_directory × Kept euid false database at_database)
unfolding check_identity
check_identity_iff euid directory database none o = ground arith
check_identity_iff euid directory database (some d) none = ground arith
check_identity_iff euid directory database (some d) (some f) = ground arith
