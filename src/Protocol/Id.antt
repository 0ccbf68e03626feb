-- ===== src/Protocol/Id.antt =====
-- The identifiers of `crates/rustsync-protocol/src/id`: a parsed identifier is its text.
use rustsync.Base.{ℕ, Bool, true, false, not, ◌&&◌, ◌||◌, ◌==◌, bytes_ord, nat_ord}
use rustsync.Base.{leb, ltb, [], ◌∷◌, Bytes, bytes, length, all, is_empty, Option, none, some}
use rustsync.Base.{drop, ◌+◌}
use rustsync.Base.Exec.{ok, err, reject}
use rustsync.Protocol.Error.{ProtocolResult, invalid_identifier}
use rustsync.Protocol.Error.{empty_identifier, identifier_too_long, prefix_missing}
use rustsync.Protocol.Error.{characters_not_allowed, object_id_shape, object_hash_not_hex}

-- `value.starts_with(prefix)`
unfoldable pub starts_with : Bytes → Bytes → Bool
starts_with value [] = true
starts_with [] (p ∷ prefix) = false
starts_with (v ∷ value) (p ∷ prefix) = v == p && starts_with value prefix

abbrev pub is_ascii_alphanumeric : ℕ → Bool
is_ascii_alphanumeric b =
    leb b'0' b && leb b b'9' || leb b'A' b && leb b b'Z' || leb b'a' b && leb b b'z'

abbrev pub is_id_byte : ℕ → Bool
is_id_byte b = is_ascii_alphanumeric b || b == b'_' || b == b'-' || b == b'.'

-- The condition on the prefix that some kinds of identifier require
abbrev lacks_prefix : Bytes → Option Bytes → Bool
lacks_prefix value none = false
lacks_prefix value (some prefix) = not (starts_with value prefix) || length value == length prefix

unfoldable pub validate_text_id : Bytes → Bytes → Option Bytes → ℕ → ProtocolResult (Unit {0})
validate_text_id kind value required_prefix max_len =
    reject (is_empty value) (invalid_identifier kind value empty_identifier) (
      reject (ltb max_len (length value)) (invalid_identifier kind value identifier_too_long) (
        reject (lacks_prefix value required_prefix) (invalid_identifier kind value prefix_missing) (
          reject (not (all is_id_byte value)) (invalid_identifier kind value characters_not_allowed)
            (ok tt))))

-- The `parse` that `define_text_id!` gives each kind
abbrev parse_text : Bytes → Option Bytes → ℕ → Bytes → ProtocolResult Bytes
parse_text kind prefix max_len value = elim (validate_text_id kind value prefix max_len) [
  | ok u ↦ ok value
  | err e ↦ err e
]

unfoldable pub parse_key_id : Bytes → ProtocolResult Bytes
unfolding validate_text_id
parse_key_id = parse_text (bytes "key") none 64

unfoldable pub parse_workspace_id : Bytes → ProtocolResult Bytes
unfolding validate_text_id
parse_workspace_id = parse_text (bytes "workspace") none 128

unfoldable pub parse_device_id : Bytes → ProtocolResult Bytes
unfolding validate_text_id starts_with
parse_device_id = parse_text (bytes "device") (some (bytes "device_")) 96

unfoldable pub parse_access_event_id : Bytes → ProtocolResult Bytes
unfolding validate_text_id starts_with
parse_access_event_id = parse_text (bytes "access event") (some (bytes "event_")) 96

unfoldable pub parse_join_request_id : Bytes → ProtocolResult Bytes
unfolding validate_text_id starts_with
parse_join_request_id = parse_text (bytes "join request") (some (bytes "join_")) 96

abbrev pub is_hash_byte : ℕ → Bool
is_hash_byte b = leb b'0' b && leb b b'9' || leb b'a' b && leb b b'f'

-- The `parse` that `define_object_id!` gives each kind
abbrev parse_object : Bytes → Bytes → Bytes → ProtocolResult Bytes
parse_object kind prefix value =
    reject (not (length value == length prefix + 64) || not (starts_with value prefix))
      (invalid_identifier kind value object_id_shape)
      (reject (not (all is_hash_byte (drop (length prefix) value)))
        (invalid_identifier kind value object_hash_not_hex) (ok value))

unfoldable pub parse_blob_id : Bytes → ProtocolResult Bytes
unfolding starts_with
parse_blob_id = parse_object (bytes "blob") (bytes "blob_")

unfoldable pub parse_manifest_id : Bytes → ProtocolResult Bytes
unfolding starts_with
parse_manifest_id = parse_object (bytes "manifest") (bytes "manifest_")
