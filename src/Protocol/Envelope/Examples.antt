-- ===== src/Protocol/Envelope/Examples.antt =====
-- An envelope from a laptop to a phone.
use rustsync.Base.{bytes, [], ◌≡◌, refl, arith}
use rustsync.Protocol.Access.Examples.{laptop, phone}
use rustsync.Protocol.Envelope.{KeyEnvelope, x25519_hkdf_sha256_xchacha20_poly1305}
use rustsync.Protocol.Envelope.Payload.{IsEncodable, envelope_payload_inj}

abbrev envelope : KeyEnvelope
envelope = record {
  workspace_id = bytes "home";
  key_id = bytes "key";
  key_generation = 1;
  access_revision = 3;
  sender_device_id = laptop.device_id;
  recipient_device_id = phone.device_id;
  algorithm = x25519_hkdf_sha256_xchacha20_poly1305;
  sender_ephemeral_public_key = bytes "e";
  nonce = bytes "n";
  encrypted_workspace_key = bytes "w";
  created_at = 1000;
  signature = bytes "ss";
}

envelope-IsEncodable : IsEncodable envelope
unfolding rustsync.Protocol.Encoding.to_be_bytes
envelope-IsEncodable = record {
  fields = (
    omega arith,
    (
      omega arith,
      (
        omega arith,
        (
          omega arith,
          (
            omega arith,
            (
              omega arith,
              (
                omega arith,
                (omega arith, (omega arith, (omega arith, (omega arith, (omega arith, tt))))),
              ),
            ),
          ),
        ),
      ),
    ),
  );
  key_generation = omega arith;
  access_revision = omega arith;
  created_at = omega arith;
}

envelope_payload_inj_example :
    record envelope { signature = [] } ≡ record envelope { signature = [] }
envelope_payload_inj_example =
    envelope_payload_inj envelope envelope envelope-IsEncodable envelope-IsEncodable refl
