-- ===== src/Admin/Valid.antt =====
-- The rows that the hub accepts, and the records that it reads from them.
use anvil_ring.Base.{
  ℕ, ◌+◌, ◌/◌, ◌%◌, ◌≤◌, ◌<◌, ◌≡◌, refl, Bool, true, some, List, [], ◌∷◌, Bytes, All, bytes_key,
  length, arith, ok,
}
use anvil_ring.Text.Decimal.{digit_char}
use anvil_ring.Hub.Registry.{Record}
use anvil_ring.Hub.Handshake.{digest, hex_bytes}
use anvil_ring.Admin.{
  Row, nonneg, is_valid_id, is_valid_label, is_valid_hash, validate_id, validate_label, state_of,
  record_of, records_from, every, is_hash_byte,
}

pub record IsValidRow (r : Row) : Type 0 where
  pub id : is_valid_id r.id ≡ true
  pub label : is_valid_label r.label ≡ true
  pub hash : is_valid_hash r.credential_hash ≡ true
  pub state : (b : Bool) × (state_of r.active ≡ some b)
  pub expiry : (n : ℕ) × (r.expires_at ≡ nonneg n) × (0 < n)

-- What a record shares with its row.
pub record Reads (r : Row) (rec : Record) : Type 0 where
  pub id : rec.id ≡ r.id
  pub hash : rec.credential_hash ≡ r.credential_hash
  pub state : state_of r.active ≡ some rec.active
  pub expiry : r.expires_at ≡ nonneg rec.expires_at

record_of-valid : (r : Row) → IsValidRow r → (rec : Record) × (record_of r ≡ ok rec) × Reads r rec
unfolding record_of validate_id validate_label
record_of-valid r v =
    let (b, e) = v.state in
    let (n, f, l) = v.expiry in
    (
      record {
        id = r.id;
        label = r.label;
        credential_hash = r.credential_hash;
        active = b;
        expires_at = n;
      },
      ground (arith, e, f, v.id, v.label, v.hash),
      record { id = refl; hash = refl; state = e; expiry = f },
    )

-- The records of rows, in order.
unfoldable pub AllRead : List Row → List Record → Type 0
AllRead [] [] = Unit
AllRead (r ∷ rs) (c ∷ cs) = Reads r c × AllRead rs cs
AllRead [] (c ∷ cs) = ⊥
AllRead (r ∷ rs) [] = ⊥

pub records_from-valid :
    (n : ℕ) (rows : List Row)
    → n + length rows ≤ 10000
    → All IsValidRow rows
    → (records : List Record) × (records_from n rows ≡ ok records) × AllRead rows records
unfolding records_from AllRead
records_from-valid n [] l h = ([], refl, tt)
records_from-valid n (r ∷ rows) l (v, h) =
    let (rec, e, reads) = record_of-valid r v in
    let (rest, f, all) = records_from-valid (n + 1) rows (omega arith) h in
    (rec ∷ rest, rw (e, f) (ground (arith, l)), (reads, all))

-- Of 32 bytes the digest is 64 hexadecimal digits.
hex_digit : (n : ℕ) → n < 16 → is_hash_byte (digit_char n) ≡ true
unfolding digit_char
hex_digit n l = ground arith

every-hex_bytes : (bs : Bytes) → every is_hash_byte (hex_bytes bs) ≡ true
unfolding hex_bytes
every-hex_bytes [] = refl
every-hex_bytes (b ∷ bs) = ground (
  arith,
  hex_digit (b / 16 % 16) (omega arith),
  hex_digit (b % 16) (omega arith),
  every-hex_bytes bs,
)

length-hex_bytes : (bs : Bytes) → length (hex_bytes bs) ≡ length bs + length bs
unfolding hex_bytes
length-hex_bytes [] = omega arith
length-hex_bytes (b ∷ bs) = omega (arith, length-hex_bytes bs)

pub digest-valid :
    (sha256 : Bytes → Bytes) (bs : Bytes)
    → length (sha256 bs) ≡ 32
    → is_valid_hash (digest sha256 bs) ≡ true
unfolding digest is_valid_hash
digest-valid sha256 bs e = ground (arith, every-hex_bytes (sha256 bs), length-hex_bytes (sha256 bs))
