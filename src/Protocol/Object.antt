-- ===== src/Protocol/Object.antt =====
-- Encrypted objects: `crates/rustsync-protocol/src/object/content.rs` and the binary frame of
-- `crates/rustsync-protocol/src/object/binary.rs`.
pub mod Reads
pub mod RoundTrip
pub mod Examples
use rustsync.Base.{
  ℕ, suc, ◌+◌, ◌*◌, ◌/◌, ◌%◌, Bool, true, false, not, if◌then◌else◌, ◌==◌, bytes_ord, nat_ord,
}
use rustsync.Base.{ltb, leb, List, [], ◌∷◌, ◌++◌, Bytes, bytes, length, take, drop, is_empty}
use rustsync.Base.{Option, none, some, checked_add, option_eq}
use rustsync.Base.Utf8.{is_utf8}
use rustsync.Base.Exec.{Exec, Result, ok, err, reject, ok_or, reads, ◌>>=◌, ◌>>◌}
use rustsync.Base.Chain
use rustsync.Protocol.Error.{ProtocolResult, ProtocolError, empty_ciphertext, ciphertext_too_short}
use rustsync.Protocol.Error.{invalid_nonce_length, encrypted_object_too_large}
use rustsync.Protocol.Error.{invalid_encrypted_object_binary, unsupported_encrypted_object_version}
use rustsync.Protocol.Error.{
  unsupported_content_encryption_algorithm, invalid_encrypted_object_encoding,
}
use rustsync.Protocol.Id.{parse_key_id, starts_with}

abbrev pub xchacha20_poly1305_nonce_size : ℕ
xchacha20_poly1305_nonce_size = 24

abbrev pub xchacha20_poly1305_tag_size : ℕ
xchacha20_poly1305_tag_size = 16

pub data ContentEncryptionAlgorithm : Type 0 where
  xchacha20_poly1305 : ContentEncryptionAlgorithm

pub record EncryptedObject : Type 0 where
  pub key_id : Bytes
  pub algorithm : ContentEncryptionAlgorithm
  pub nonce : Bytes
  pub ciphertext : Bytes

-- The match of `EncryptedObject::validate` on the algorithm
validate_sizes : ContentEncryptionAlgorithm → EncryptedObject → ProtocolResult (Unit {0})
validate_sizes xchacha20_poly1305 o =
    reject (not (length o.nonce == xchacha20_poly1305_nonce_size))
      (invalid_nonce_length xchacha20_poly1305_nonce_size (length o.nonce))
      (reject (ltb (length o.ciphertext) xchacha20_poly1305_tag_size)
        (ciphertext_too_short xchacha20_poly1305_tag_size (length o.ciphertext)) (ok tt))

unfoldable pub validate : EncryptedObject → ProtocolResult (Unit {0})
unfolding validate_sizes
validate o = reject (is_empty o.ciphertext) empty_ciphertext (validate_sizes o.algorithm o)

abbrev pub magic : Bytes
magic = bytes "RSOB"

abbrev pub frame_version : ℕ
frame_version = 1

abbrev pub xchacha20_poly1305_tag : ℕ
xchacha20_poly1305_tag = 1

-- `MAGIC.len() + 1 + 1 + 2 + 1`
abbrev pub fixed_header_len : ℕ
fixed_header_len = 9

abbrev pub max_encrypted_object_bytes : ℕ
max_encrypted_object_bytes = 1048576

-- `u16::try_from` and `u8::try_from`
abbrev pub try_from : ℕ → ℕ → Option ℕ
try_from bound n = if ltb n bound then some n else none

-- `u16::to_be_bytes`
abbrev pub u16_bytes : ℕ → Bytes
u16_bytes n = n / 256 % 256 ∷ n % 256 ∷ []

abbrev pub and_then {ℓ κ} : {A : Type ℓ} {B : Type κ} → Option A → (A → Option B) → Option B
and_then none f = none
and_then (some a) f = f a

-- The checked sum of the lengths
abbrev capacity_of : EncryptedObject → Option ℕ
capacity_of o =
    and_then (checked_add fixed_header_len (length o.key_id))
      λ n. and_then (checked_add n (length o.nonce)) λ n. checked_add n (length o.ciphertext)

module _ (o : EncryptedObject) where
  unfoldable pub encode : ProtocolResult Bytes
  unfolding validate
  encode = Chain.◌>>=◌ (validate o) λ _.
      Chain.◌>>=◌ (ok_or (try_from 65536 (length o.key_id)) invalid_encrypted_object_binary)
        λ key_id_len.
          Chain.◌>>=◌ (ok_or (capacity_of o) invalid_encrypted_object_binary) λ capacity.
            reject (ltb max_encrypted_object_bytes capacity)
              (encrypted_object_too_large max_encrypted_object_bytes capacity)
              (Chain.◌>>=◌
                (ok_or (try_from 256 (length o.nonce))
                  (invalid_nonce_length xchacha20_poly1305_nonce_size (length o.nonce)))
                λ nonce_len. ok (
                  magic
                  ++ (frame_version
                      ∷ xchacha20_poly1305_tag
                      ∷ (u16_bytes key_id_len
                          ++ (nonce_len ∷ (o.key_id ++ (o.nonce ++ o.ciphertext)))))))

-- `struct Cursor`
pub record Cursor : Type 0 where
  pub bytes : Bytes
  pub position : ℕ

abbrev pub Read : Type 0 → Type 0
Read A = Exec ProtocolError Cursor A

-- `Cursor::take`: an `Option`, and the cursor behind what was taken
unfoldable pub cursor_take : ℕ → Cursor → Option Bytes × Cursor
cursor_take n c = elim (checked_add c.position n) [
  | none ↦ (none, c)
  | some end ↦
      if leb end (length c.bytes)
      then (some (take n (drop c.position c.bytes)), record c { position = end })
      else (none, c)
]

-- `take(n).ok_or(InvalidEncryptedObjectBinary)`
abbrev or_invalid : Option Bytes × Cursor → Result ProtocolError Bytes × Cursor
or_invalid (none, c) = (err invalid_encrypted_object_binary, c)
or_invalid (some value, c) = (ok value, c)

unfoldable pub take_or_invalid : ℕ → Read Bytes
unfolding cursor_take
take_or_invalid n c = or_invalid (cursor_take n c)

-- `bytes.first().copied()`
first : Bytes → ProtocolResult ℕ
first [] = err invalid_encrypted_object_binary
first (b ∷ rest) = ok b

unfoldable pub byte : Read ℕ
unfolding take_or_invalid first
byte = do value ← take_or_invalid 1; reads λ c. first value

-- `u16::from_be_bytes(cursor.array()?)`
pair : Bytes → ProtocolResult ℕ
pair (high ∷ low ∷ []) = ok (high * 256 + low)
pair _ = err invalid_encrypted_object_binary

unfoldable pub array : Read ℕ
unfolding take_or_invalid pair
array = do value ← take_or_invalid 2; reads λ c. pair value

unfoldable pub remaining : Cursor → Bytes
remaining c = drop c.position c.bytes

-- The comparison `cursor.take(4) != Some(MAGIC)`
abbrev check_magic : Option Bytes × Cursor → Result ProtocolError (Unit {0}) × Cursor
check_magic (none, c) = (err invalid_encrypted_object_binary, c)
check_magic (some value, c) =
    (reject (not (value == magic)) invalid_encrypted_object_binary (ok tt), c)

unfoldable pub read_magic : Read (Unit {0})
unfolding cursor_take
read_magic c = check_magic (cursor_take 4 c)

-- `from_utf8` and `KeyId::parse`, whose errors are replaced
unfoldable pub key_id_of : Bytes → ProtocolResult Bytes
key_id_of text =
    reject (not (is_utf8 text)) invalid_encrypted_object_binary
      (elim (parse_key_id text) [ ok id ↦ ok id | err e ↦ err invalid_encrypted_object_binary ])

unfoldable pub read_algorithm : ℕ → ProtocolResult ContentEncryptionAlgorithm
read_algorithm tag =
    if tag == xchacha20_poly1305_tag
    then ok xchacha20_poly1305
    else err (unsupported_content_encryption_algorithm tag)

-- The body of `decode` behind the check of the size
unfoldable pub read_object : Read EncryptedObject
read_object = do
  read_magic
  version ← byte
  reads λ c.
      reject (not (version == frame_version)) (unsupported_encrypted_object_version version) (ok tt)
  tag ← byte
  algorithm ← reads λ c. read_algorithm tag
  key_id_len ← array
  nonce_len ← byte
  key_id_bytes ← take_or_invalid key_id_len
  key_id ← reads λ c. key_id_of key_id_bytes
  nonce ← take_or_invalid nonce_len
  ciphertext ← reads λ c. ok (remaining c)
  let object : EncryptedObject = record {
    key_id = key_id;
    algorithm = algorithm;
    nonce = nonce;
    ciphertext = ciphertext;
  }
  reads λ c. validate object
  reads λ c. ok object

unfoldable pub decode : Bytes → ProtocolResult EncryptedObject
decode bytes =
    reject (ltb max_encrypted_object_bytes (length bytes))
      (encrypted_object_too_large max_encrypted_object_bytes (length bytes))
      (read_object (record { bytes = bytes; position = 0 })).0

-- `to_binary_bytes` and `from_binary_bytes` are `encode` and `decode`.
unfoldable pub from_remote_bytes : Bytes → ProtocolResult EncryptedObject
from_remote_bytes bytes =
    reject (not (starts_with bytes magic)) invalid_encrypted_object_encoding (decode bytes)
