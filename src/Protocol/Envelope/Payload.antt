-- ===== src/Protocol/Envelope/Payload.antt =====
-- The fields of a key envelope's signed bytes.
use rustsync.Base.{ℕ, ◌<◌, ◌≡◌, refl, sym, ap, ◌∙◌, [], ◌∷◌, Bytes, List, All, u64_mod}
use rustsync.Protocol.Encoding.{to_be_bytes, push_str, push_u64}
use rustsync.Protocol.Encoding.Frames.{
  frames, frames_inj, IsShort, push_bytes-nil, push_bytes-frames,
}
use rustsync.Protocol.Encoding.Frames.{read_u64_field, read_u64_field-to_be_bytes}
use rustsync.Protocol.Envelope.{KeyEnvelope, signing_payload, key_envelope_domain, as_str}
use rustsync.Protocol.Envelope.{x25519_hkdf_sha256_xchacha20_poly1305, EnvelopeAlgorithm}

abbrev pub envelope_fields : KeyEnvelope → List Bytes
envelope_fields e =
    key_envelope_domain
    ∷ e.workspace_id
    ∷ e.key_id
    ∷ to_be_bytes e.key_generation
    ∷ to_be_bytes e.access_revision
    ∷ e.sender_device_id
    ∷ e.recipient_device_id
    ∷ as_str e.algorithm
    ∷ to_be_bytes e.created_at
    ∷ e.sender_ephemeral_public_key
    ∷ e.nonce
    ∷ e.encrypted_workspace_key
    ∷ []

signing_payload-frames : (e : KeyEnvelope) → signing_payload e ≡ frames (envelope_fields e)
unfolding signing_payload push_str push_u64
signing_payload-frames e = simp (push_bytes-nil, push_bytes-frames)

-- Every field of the envelope has a 64-bit length, and its numbers fit 64 bits.
pub record IsEncodable (e : KeyEnvelope) : Type 0 where
  pub fields : All IsShort (envelope_fields e)
  pub key_generation : e.key_generation < u64_mod
  pub access_revision : e.access_revision < u64_mod
  pub created_at : e.created_at < u64_mod

to_be_bytes_inj : (n m : ℕ) → n < u64_mod → m < u64_mod → to_be_bytes n ≡ to_be_bytes m → n ≡ m
to_be_bytes_inj n m h k e =
    sym (read_u64_field-to_be_bytes n h) ∙ ap read_u64_field e ∙ read_u64_field-to_be_bytes m k

only_algorithm : (a b : EnvelopeAlgorithm) → a ≡ b
only_algorithm x25519_hkdf_sha256_xchacha20_poly1305 x25519_hkdf_sha256_xchacha20_poly1305 = refl

-- A signature covers one key envelope only: envelopes whose numbers fit 64 bits and whose fields
-- have 64-bit lengths, with the same signed bytes, differ in the signature at most.
pub envelope_payload_inj :
    (e f : KeyEnvelope)
    → IsEncodable e
    → IsEncodable f
    → signing_payload e ≡ signing_payload f
    → record e { signature = [] } ≡ record f { signature = [] }
envelope_payload_inj e f he hf same =
    let fields : envelope_fields e ≡ envelope_fields f =
      frames_inj (envelope_fields e) (envelope_fields f) he.fields hf.fields
        (sym (signing_payload-frames e) ∙ same ∙ signing_payload-frames f) in
    let generation : to_be_bytes e.key_generation ≡ to_be_bytes f.key_generation = cc in
    let revision : to_be_bytes e.access_revision ≡ to_be_bytes f.access_revision = cc in
    let at : to_be_bytes e.created_at ≡ to_be_bytes f.created_at = cc in
    cc (
      fields,
      only_algorithm e.algorithm f.algorithm,
      to_be_bytes_inj e.key_generation f.key_generation he.key_generation hf.key_generation
          generation,
      to_be_bytes_inj e.access_revision f.access_revision he.access_revision hf.access_revision
          revision,
      to_be_bytes_inj e.created_at f.created_at he.created_at hf.created_at at,
    )
