-- ===== src/Protocol/Device.antt =====
-- `crates/rustsync-protocol/src/device/record.rs`. The hash, the base64 text and the Ed25519 keys
-- come from other packages and are the parameter `Crypto`.
pub mod Join
use rustsync.Base.{
  ℕ, Bool, true, false, not, ◌&&◌, ◌||◌, if◌then◌else◌, leb, ltb, ◌==◌, bytes_ord, nat_ord,
}
use rustsync.Base.{Option, List, [], ◌∷◌, ◌++◌, Bytes, bytes, take, is_empty, ◌+◌, ◌-◌, map}
use rustsync.Base.Exec.{Result, ok, err, reject}
use rustsync.Base.Chain.{◌>>=◌, ◌>>◌}
use rustsync.Protocol.Error.{ProtocolResult, invalid_device_name, fingerprint_mismatch}
use rustsync.Protocol.Error.{invalid_public_key, invalid_signature}
use rustsync.Protocol.Encoding.{push_bytes}

pub record Crypto : Type 0 where
  -- `Sha256::digest`
  pub sha256 : Bytes → Bytes
  -- `URL_SAFE_NO_PAD.encode`
  pub base64_url : Bytes → Bytes
  -- `URL_SAFE_NO_PAD.decode`, with `none` for its error
  pub base64_url_decode : Bytes → Option Bytes
  -- `VerifyingKey::from_bytes(key).is_ok()`
  pub is_verifying_key : Bytes → Bool
  -- `Signature::from_slice(signature).is_ok()`
  pub is_signature : Bytes → Bool
  -- `key.verify(message, signature).is_ok()`
  pub verify : (key message signature : Bytes) → Bool

pub data DeviceStatus : Type 0 where
  pending active revoked : DeviceStatus

pub record DeviceRecord : Type 0 where
  pub device_id : Bytes
  pub device_name : Bytes
  pub signing_public_key : Bytes
  pub exchange_public_key : Bytes
  pub fingerprint : Bytes
  pub status : DeviceStatus

-- The derived `==`
abbrev pub status_eq : DeviceStatus → DeviceStatus → Bool
status_eq pending pending = true
status_eq active active = true
status_eq revoked revoked = true
status_eq _ _ = false

abbrev pub record_eq : DeviceRecord → DeviceRecord → Bool
record_eq a b =
    a.device_id == b.device_id
    && a.device_name == b.device_name
    && a.signing_public_key == b.signing_public_key
    && a.exchange_public_key == b.exchange_public_key
    && a.fingerprint == b.fingerprint
    && status_eq a.status b.status

-- `char::is_whitespace` on the UTF-8 bytes of one character of one, two or three bytes
abbrev is_space : ℕ → Bool
is_space a = leb 9 a && leb a 13 || a == 32

abbrev is_space_2 : ℕ → ℕ → Bool
is_space_2 a b = a == 0xc2 && (b == 0x85 || b == 0xa0)

abbrev is_space_3 : ℕ → ℕ → ℕ → Bool
is_space_3 a b c =
    a == 0xe1 && b == 0x9a && c == 0x80
    || a == 0xe2 && b == 0x80 && (leb 0x80 c && leb c 0x8a || c == 0xa8 || c == 0xa9 || c == 0xaf)
    || a == 0xe2 && b == 0x81 && c == 0x9f
    || a == 0xe3 && b == 0x80 && c == 0x80

-- `text.trim().is_empty()`: the text is white space only
unfoldable pub is_blank : Bytes → Bool
is_blank [] = true
is_blank (a ∷ []) = is_space a
is_blank (a ∷ b ∷ []) = is_space a && is_space b || is_space_2 a b
is_blank (a ∷ b ∷ c ∷ rest) = elim (is_space a) [
  | true ↦ is_blank (b ∷ c ∷ rest)
  | false ↦ elim (is_space_2 a b) [
    | true ↦ is_blank (c ∷ rest)
    | false ↦ is_space_3 a b c && is_blank rest
  ]
]

-- `u8::to_ascii_uppercase` on each byte: base64 text is ASCII
abbrev to_uppercase : Bytes → Bytes
to_uppercase = map (λ c. if leb b'a' c && leb c b'z' then c - 32 else c)

-- `chunks(4)` and `join("-")`
chunks_joined : Bytes → Bytes
chunks_joined (a ∷ b ∷ c ∷ d ∷ e ∷ rest) = a ∷ b ∷ c ∷ d ∷ b'-' ∷ chunks_joined (e ∷ rest)
chunks_joined text = text

module _ (c : Crypto) where
  unfoldable pub short_fingerprint : Bytes → Bytes
  unfolding chunks_joined
  short_fingerprint digest = chunks_joined (to_uppercase (c.base64_url (take 10 digest)))

  unfoldable pub fingerprint_from_public_keys : Bytes → Bytes → Bytes
  unfolding short_fingerprint
  fingerprint_from_public_keys signing exchange = short_fingerprint (c.sha256 (signing ++ exchange))

  -- `DeviceRecord::validate`
  unfoldable pub validate : DeviceRecord → ProtocolResult (Unit {0})
  validate d =
      let expected = fingerprint_from_public_keys d.signing_public_key d.exchange_public_key in
      reject (is_blank d.device_name) invalid_device_name (
        reject (not (expected == d.fingerprint)) (fingerprint_mismatch expected d.fingerprint)
          (reject (not (c.is_verifying_key d.signing_public_key)) invalid_public_key (ok tt)))

abbrev pub device_signature_domain : Bytes
device_signature_domain = bytes "rustsync/device-signature"

unfoldable pub device_signature_payload : Bytes → Bytes
unfolding push_bytes
device_signature_payload message = push_bytes (push_bytes [] device_signature_domain) message

module _ (c : Crypto) where
  unfoldable pub verify_signature :
      DeviceRecord → (message signature : Bytes) → ProtocolResult (Unit {0})
  verify_signature d message signature = do
    validate c d
    reject (not (c.is_verifying_key d.signing_public_key)) invalid_public_key (ok tt)
    reject (not (c.is_signature signature)) invalid_signature (ok tt)
    reject (not (c.verify d.signing_public_key (device_signature_payload message) signature))
        invalid_signature (ok tt)

unfoldable pub activate : DeviceRecord → DeviceRecord
activate d = record d { status = active }

unfoldable pub revoke : DeviceRecord → DeviceRecord
revoke d = record d { status = revoked }

unfoldable pub is_active : DeviceRecord → Bool
is_active d = status_eq d.status active

unfoldable pub is_pending : DeviceRecord → Bool
is_pending d = status_eq d.status pending

unfoldable pub is_revoked : DeviceRecord → Bool
is_revoked d = status_eq d.status revoked
