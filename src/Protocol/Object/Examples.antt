-- ===== src/Protocol/Object/Examples.antt =====
-- An encrypted object and its frame.
use rustsync.Base.{◌≡◌, refl, bytes}
use rustsync.Base.Exec.{ok}
use rustsync.Protocol.Id.{parse_key_id}
use rustsync.Protocol.Object.{EncryptedObject, encode, decode, xchacha20_poly1305}
use rustsync.Protocol.Object.RoundTrip.{decode-encode, frame}

abbrev sealed : EncryptedObject
sealed = record {
  key_id = bytes "default";
  algorithm = xchacha20_poly1305;
  nonce = bytes "abcdefghijklmnopqrstuvwx";
  ciphertext = bytes "0123456789abcdef!";
}

sealed-encode : encode sealed ≡ ok (frame sealed)
unfolding encode
sealed-encode = refl

sealed-key : parse_key_id sealed.key_id ≡ ok sealed.key_id
unfolding parse_key_id
sealed-key = refl

decode-encode_example : decode (frame sealed) ≡ ok sealed
decode-encode_example = decode-encode sealed (frame sealed) sealed-key sealed-encode
