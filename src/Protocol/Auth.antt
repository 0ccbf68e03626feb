-- ===== src/Protocol/Auth.antt =====
-- Signed HTTP requests: `crates/rustsync-protocol/src/auth` (nonce.rs, canonical.rs, headers.rs and
-- request.rs).
pub mod Payload
pub mod Headers
pub mod Examples
use rustsync.Base.{
  ℕ, ◌+◌, ◌/◌, ◌%◌, Bool, true, false, not, if◌then◌else◌, ◌==◌, bytes_ord, nat_ord, ltb,
}
use rustsync.Base.{List, [], ◌∷◌, ◌++◌, Bytes, bytes, length, all, is_empty, Option, none, some}
use rustsync.Base.Decimal.{to_decimal, parse_u64}
use rustsync.Base.Exec.{Result, ok, err, reject, ok_or}
use rustsync.Base.Chain.{◌>>=◌, ◌>>◌}
use rustsync.Protocol.Error.{ProtocolResult, ProtocolError, invalid_auth_header, nonce_empty}
use rustsync.Protocol.Error.{nonce_too_long, nonce_characters, timestamp_not_a_number}
use rustsync.Protocol.Error.{invalid_request_signature}
use rustsync.Protocol.Id.{parse_device_id, is_id_byte}
use rustsync.Protocol.Device.{Crypto, DeviceRecord}
use rustsync.Protocol.Device

abbrev pub max_request_nonce_len : ℕ
max_request_nonce_len = 128

-- `RequestNonce::parse`
unfoldable pub parse_nonce : Bytes → ProtocolResult Bytes
parse_nonce value = reject (is_empty value) (invalid_auth_header nonce_empty) (
    reject (ltb max_request_nonce_len (length value)) (invalid_auth_header nonce_too_long)
      (reject (not (all is_id_byte value)) (invalid_auth_header nonce_characters) (ok value)))

abbrev hex_digit : ℕ → ℕ
hex_digit d = if ltb d 10 then 48 + d else 87 + d

-- `write!(out, "{byte:02x}")` for each byte
unfoldable pub to_hex : Bytes → Bytes
to_hex [] = []
to_hex (b ∷ rest) = hex_digit (b / 16) ∷ hex_digit (b % 16) ∷ to_hex rest

unfoldable pub sha256_hex : Crypto → Bytes → Bytes
unfolding to_hex
sha256_hex c body = to_hex (c.sha256 body)

abbrev pub auth_domain : Bytes
auth_domain = bytes "rustsync-http-auth"

-- One field of the payload, with the line end behind it
abbrev pub line_of : Bytes → Bytes → Bytes
line_of field rest = field ++ (b'\n' ∷ rest)

unfoldable pub canonical_request_payload :
    (method path_and_query body_sha256_hex : Bytes) (timestamp : ℕ) (device_id nonce : Bytes)
    (content_length : ℕ)
    → Bytes
canonical_request_payload method path_and_query body_sha256_hex timestamp device_id nonce
      content_length =
    line_of auth_domain (
      line_of method (
        line_of path_and_query (
          line_of body_sha256_hex (
            line_of (to_decimal timestamp)
              (line_of device_id (line_of nonce (line_of (to_decimal content_length) [])))))))

pub record HttpRequestSignatureInput : Type 0 where
  pub method : Bytes
  pub path_and_query : Bytes
  pub body_sha256_hex : Bytes
  pub timestamp : ℕ
  pub device_id : Bytes
  pub nonce : Bytes
  pub content_length : ℕ

pub record SignedHttpRequest : Type 0 where
  pub input : HttpRequestSignatureInput
  pub signature : Bytes

pub record SignedHttpRequestParts : Type 0 where
  pub method : Bytes
  pub path_and_query : Bytes
  pub body : Bytes

pub record AuthHeaders : Type 0 where
  pub device_id : Bytes
  pub timestamp : ℕ
  pub nonce : Bytes
  pub signature : Bytes

pub record AuthHeaderValues : Type 0 where
  pub device_id : Bytes
  pub timestamp : Bytes
  pub nonce : Bytes
  pub signature : Bytes

module _ (c : Crypto) where
  unfoldable pub signature_input :
      SignedHttpRequestParts
      → (device_id : Bytes) (timestamp : ℕ) (nonce : Bytes) → HttpRequestSignatureInput
  unfolding sha256_hex
  signature_input parts device_id timestamp nonce = record {
    method = parts.method;
    path_and_query = parts.path_and_query;
    body_sha256_hex = sha256_hex c parts.body;
    timestamp = timestamp;
    device_id = device_id;
    nonce = nonce;
    content_length = length parts.body;
  }

  unfoldable pub from_auth_headers : SignedHttpRequestParts → AuthHeaders → SignedHttpRequest
  unfolding signature_input
  from_auth_headers parts headers = record {
    input = signature_input parts headers.device_id headers.timestamp headers.nonce;
    signature = headers.signature;
  }

  abbrev pub parse_signature : Bytes → ProtocolResult Bytes
  parse_signature value = ok_or (c.base64_url_decode value) invalid_request_signature

  -- `AuthHeaders::from_header_values`
  unfoldable pub from_header_values :
      (device_id timestamp nonce signature : Bytes) → ProtocolResult AuthHeaders
  unfolding parse_nonce
  from_header_values device_id timestamp nonce signature = do
    device ← parse_device_id device_id
    at ← ok_or (parse_u64 timestamp) (invalid_auth_header timestamp_not_a_number)
    once ← parse_nonce nonce
    signed ← parse_signature signature
    ok record { device_id = device; timestamp = at; nonce = once; signature = signed }

  unfoldable pub to_header_values : AuthHeaders → AuthHeaderValues
  to_header_values h = record {
    device_id = h.device_id;
    timestamp = to_decimal h.timestamp;
    nonce = h.nonce;
    signature = c.base64_url h.signature;
  }

-- `HttpRequestSignatureInput::canonical_payload`
unfoldable pub canonical_payload : HttpRequestSignatureInput → Bytes
unfolding canonical_request_payload
canonical_payload i =
    canonical_request_payload i.method i.path_and_query i.body_sha256_hex i.timestamp i.device_id
      i.nonce i.content_length

abbrev pub auth_headers : SignedHttpRequest → AuthHeaders
auth_headers r = record {
  device_id = r.input.device_id;
  timestamp = r.input.timestamp;
  nonce = r.input.nonce;
  signature = r.signature;
}

-- `map_err(|_| ProtocolError::InvalidRequestSignature)`
abbrev pub any_signature_error : ProtocolResult (Unit {0}) → ProtocolResult (Unit {0})
any_signature_error (ok u) = ok u
any_signature_error (err e) = err invalid_request_signature

unfoldable pub verify_with_device :
    Crypto → SignedHttpRequest → DeviceRecord → ProtocolResult (Unit {0})
verify_with_device c r device =
    reject (not (r.input.device_id == device.device_id)) invalid_request_signature (
      any_signature_error
        (Device.verify_signature c device (canonical_payload r.input) r.signature))
