-- ===== src/Protocol/Auth/Examples.antt =====
-- A signed request of a laptop.
use rustsync.Base.{bytes, ◌≡◌, refl, arith}
use rustsync.Base.Exec.{ok}
use rustsync.Protocol.Id.{parse_device_id}
use rustsync.Protocol.Access.Examples.{toy, laptop}
use rustsync.Protocol.Auth.{AuthHeaders, HttpRequestSignatureInput}
use rustsync.Protocol.Auth.{signature_input, to_header_values, from_header_values}
use rustsync.Protocol.Auth.{parse_nonce}
use rustsync.Protocol.Auth.Payload.{IsPrintable, canonical_payload_inj}
use rustsync.Protocol.Auth.Headers.{from_header_values-to_header_values}

abbrev input : HttpRequestSignatureInput
input =
    signature_input toy
      record {
        method = bytes "PUT";
        path_and_query = bytes "/workspaces/home/head";
        body = bytes "{}";
      }
      laptop.device_id 1000 (bytes "n1")

input-IsPrintable : IsPrintable input
unfolding signature_input
input-IsPrintable = record {
  method = refl;
  path_and_query = refl;
  body_sha256_hex = refl;
  device_id = refl;
  nonce = refl;
  timestamp = omega arith;
  content_length = omega arith;
}

canonical_payload_inj_example : input ≡ input
canonical_payload_inj_example =
    canonical_payload_inj input input input-IsPrintable input-IsPrintable refl

abbrev headers : AuthHeaders
headers = record {
  device_id = laptop.device_id;
  timestamp = 1000;
  nonce = bytes "n1";
  signature = bytes "ss";
}

device_parses : parse_device_id headers.device_id ≡ ok headers.device_id
unfolding parse_device_id
device_parses = refl

nonce_parses : parse_nonce headers.nonce ≡ ok headers.nonce
unfolding parse_nonce
nonce_parses = refl

from_header_values-to_header_values_example :
    let v = to_header_values toy headers in
    from_header_values toy v.device_id v.timestamp v.nonce v.signature ≡ ok headers
from_header_values-to_header_values_example =
    from_header_values-to_header_values toy headers device_parses nonce_parses (omega arith) refl
