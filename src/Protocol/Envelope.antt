-- ===== src/Protocol/Envelope.antt =====
-- Key envelopes: `crates/rustsync-protocol/src/object/envelope.rs`.
pub mod Payload
pub mod Examples
use rustsync.Base.{ℕ, not, if◌then◌else◌, ◌==◌, bytes_ord, nat_ord, [], Bytes, bytes, is_empty}
use rustsync.Base.Exec.{ok, err, reject}
use rustsync.Base.Chain.{◌>>=◌, ◌>>◌}
use rustsync.Protocol.Error.{ProtocolResult, invalid_key_generation, empty_ciphertext}
use rustsync.Protocol.Error.{invalid_signature, invalid_access_event, envelope_sender_mismatch}
use rustsync.Protocol.Encoding.{push_bytes, push_str, push_u64}
use rustsync.Protocol.Device.{Crypto, DeviceRecord}
use rustsync.Protocol.Device

pub data EnvelopeAlgorithm : Type 0 where
  x25519_hkdf_sha256_xchacha20_poly1305 : EnvelopeAlgorithm

-- `EnvelopeAlgorithm::as_str`
abbrev pub as_str : EnvelopeAlgorithm → Bytes
as_str x25519_hkdf_sha256_xchacha20_poly1305 = bytes "x25519-hkdf-sha256-xchacha20poly1305"

pub record KeyEnvelope : Type 0 where
  pub workspace_id : Bytes
  pub key_id : Bytes
  pub key_generation : ℕ
  pub access_revision : ℕ
  pub sender_device_id : Bytes
  pub recipient_device_id : Bytes
  pub algorithm : EnvelopeAlgorithm
  pub sender_ephemeral_public_key : Bytes
  pub nonce : Bytes
  pub encrypted_workspace_key : Bytes
  pub created_at : ℕ
  pub signature : Bytes

-- `KeyEnvelope::validate`
unfoldable pub validate : KeyEnvelope → ProtocolResult (Unit {0})
validate e = reject (e.key_generation == 0) (invalid_key_generation e.key_generation) (
    reject (is_empty e.encrypted_workspace_key) empty_ciphertext
      (reject (is_empty e.signature) invalid_signature (ok tt)))

abbrev pub key_envelope_domain : Bytes
key_envelope_domain = bytes "rustsync/key-envelope"

unfoldable pub context_bytes : KeyEnvelope → Bytes
context_bytes e =
    let out = push_bytes [] key_envelope_domain in
    let out = push_str out e.workspace_id in
    let out = push_str out e.key_id in
    let out = push_u64 out e.key_generation in
    let out = push_u64 out e.access_revision in
    let out = push_str out e.sender_device_id in
    let out = push_str out e.recipient_device_id in
    let out = push_str out (as_str e.algorithm) in push_u64 out e.created_at

unfoldable pub signing_payload : KeyEnvelope → Bytes
unfolding context_bytes
signing_payload e =
    let out = context_bytes e in
    let out = push_bytes out e.sender_ephemeral_public_key in
    let out = push_bytes out e.nonce in push_bytes out e.encrypted_workspace_key

unfoldable pub verify_sender_signature :
    Crypto → KeyEnvelope → DeviceRecord → ProtocolResult (Unit {0})
unfolding validate
verify_sender_signature c e sender = do
  validate e
  reject (not (sender.device_id == e.sender_device_id))
      (invalid_access_event envelope_sender_mismatch)
      (Device.verify_signature c sender (signing_payload e) e.signature)
