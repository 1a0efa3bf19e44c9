-- ===== src/Admin.antt =====
-- cargo/src/admin.rs: what the durable store accepts, and the records that the hub reads from it.
pub mod Store
pub mod Issue
pub mod Valid
pub mod Stored
pub mod Commands
pub mod Delivery
pub mod Authority
pub mod Files
mod Tests
use anvil_ring.Base.{
  ℕ, ◌+◌, ◌≤◌, ◌<◌, Bool, true, false, not, ◌&&◌, ◌||◌, Option, none, some, List, [], ◌∷◌, Bytes,
  bytes, length, ltb, leb, ◌==◌, if◌then◌else◌, Result, ok, err, ◌>>=◌,
}
use anvil_ring.Text.{from_utf8, in_range}
use anvil_ring.Socket.{Fault, fault}
use anvil_ring.Hub.Registry.{Record}

abbrev pub max_registrations : ℕ
max_registrations = 10000

-- An SQL INTEGER, which is an `i64`.
pub data I64 : Type 0 where
  nonneg : ℕ → I64
  negative : ℕ → I64

-- A row of the table `registrations`.
pub record Row : Type 0 where
  pub id : Bytes
  pub label : Bytes
  pub credential_hash : Bytes
  pub active : I64
  pub expires_at : I64

abbrev pub every : (ℕ → Bool) → Bytes → Bool
every p [] = true
every p (b ∷ bs) = p b && every p bs

abbrev pub is_id_byte : ℕ → Bool
is_id_byte b = in_range b'a' b'z' b || in_range b'0' b'9' b

abbrev pub starts_well : Bytes → Bool
starts_well [] = false
starts_well (b ∷ bs) = is_id_byte b

unfoldable pub is_valid_id : Bytes → Bool
is_valid_id id = starts_well id && (leb (length id) 63 && every (λ b. is_id_byte b || b == b'-') id)

unfoldable pub validate_id : Bytes → Result (Unit {0}) Fault
unfolding is_valid_id
validate_id id =
    if is_valid_id id
    then ok tt
    else err (
        fault
          "ID must contain 1 through 63 lowercase ASCII letters, digits or hyphens, starting with a letter or digit")

-- `char::is_control`
abbrev pub is_control : ℕ → Bool
is_control c = ltb c 32 || in_range 127 159 c

-- The characters of a label; a `&str` is UTF-8.
abbrev pub good_label : Option (List ℕ) → Bool
good_label none = false
good_label (some cs) =
    not (length cs == 0) && (leb (length cs) 128 && every (λ c. not (is_control c)) cs)

unfoldable pub is_valid_label : Bytes → Bool
is_valid_label label = good_label (from_utf8 label)

unfoldable pub validate_label : Bytes → Result (Unit {0}) Fault
unfolding is_valid_label
validate_label label =
    if is_valid_label label
    then ok tt
    else err (fault "label must contain 1 through 128 characters without controls")

abbrev pub is_hash_byte : ℕ → Bool
is_hash_byte b = in_range b'0' b'9' b || in_range b'a' b'f' b

unfoldable pub is_valid_hash : Bytes → Bool
is_valid_hash h = length h == 64 && every is_hash_byte h

-- `row.get` and `u64::try_from`, then the guards of the loop.
abbrev pub try_u64 : I64 → Result ℕ Fault
try_u64 (nonneg n) = ok n
try_u64 (negative n) = err (fault "out of range integral type conversion attempted")

abbrev pub state_of : I64 → Option Bool
state_of (negative n) = none
state_of (nonneg n) = if n == 0 then some false else if n == 1 then some true else none

abbrev pub checked : Row → ℕ → Option Bool → Result Record Fault
checked row expires_at none = err (fault "invalid registration state")
checked row expires_at (some active) = validate_id row.id >>= λ u. validate_label row.label >>= λ v.
    if not (is_valid_hash row.credential_hash) || expires_at == 0
    then err (fault "invalid persisted registration")
    else ok (record {
      id = row.id;
      label = row.label;
      credential_hash = row.credential_hash;
      active = active;
      expires_at = expires_at;
    })

unfoldable pub record_of : Row → Result Record Fault
unfolding is_valid_hash validate_id validate_label
record_of row =
    try_u64 row.expires_at >>= λ expires_at. checked row expires_at (state_of row.active)

-- The loop over the rows, with the number of records before it.
abbrev pub prepend : Record → Result (List Record) Fault → Result (List Record) Fault
prepend r (ok rs) = ok (r ∷ rs)
prepend r (err e) = err e

abbrev pub with_record :
    ℕ → Result Record Fault → Result (List Record) Fault → Result (List Record) Fault
with_record n (err e) rest = err e
with_record n (ok r) rest =
    if ltb max_registrations (n + 1)
    then err (fault "registration limit exceeded")
    else prepend r rest

unfoldable pub records_from : ℕ → List Row → Result (List Record) Fault
unfolding record_of
records_from n [] = ok []
records_from n (row ∷ rows) =
    let rest = records_from (n + 1) rows in with_record n (record_of row) rest

-- `list`'s state of a record.
pub data ListState : Type 0 where
  revoked expired active : ListState

unfoldable pub list_state : ℕ → Record → ListState
list_state now r =
    if not r.active then revoked else if leb r.expires_at now then expired else active
