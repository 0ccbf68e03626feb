-- ===== src/Server/Auth/Covered.antt =====
-- What a request that `signed_http_request_from_headers` has read is made of, and what its signature
-- covers.
use rustsync.Base.{
  ℕ, ◌++◌, bytes_ord, Bytes, bytes, List, [], ◌∷◌, length, Option, none, some, ◌≡◌, refl, arith,
  subst,
}
use rustsync.Base.Decimal.{to_decimal, parse_u64}
use rustsync.Base.Exec.{ok, ok_or, ok_or-some}
use rustsync.Base.Chain
use rustsync.Server.Error.{map_err-ok, auth_protocol}
use rustsync.Server.Error.{authentication_required}
use rustsync.Server.Auth.{HttpRequest, HeaderValue, visible, opaque, Uri, header_value_to_str}
use rustsync.Server.Auth.{required_header, parse_auth_headers, signed_http_request_from_headers}
use rustsync.Server.Auth.{
  path_or_query, device_id_header, timestamp_header, nonce_header, signature_header,
}
use rustsync.Protocol.Id.{parse_device_id}
use rustsync.Protocol.Auth.{SignedHttpRequest, AuthHeaders, from_auth_headers, from_header_values}
use rustsync.Protocol.Auth.{canonical_payload, parse_nonce, parse_signature, sha256_hex, to_hex}
use rustsync.Protocol.Device
use rustsync.Protocol.Device.{Crypto, DeviceRecord}

-- Fields with a line end behind each
abbrev pub lines : List Bytes → Bytes
lines [] = []
lines (field ∷ fields) = field ++ (b'\n' ∷ lines fields)

-- The header, as text
abbrev pub Carries : HttpRequest → Bytes → Bytes → Type 0
Carries http name text = http.header name ≡ some (visible text)

-- What the target of a request is: its path with the query, where there is one
pub data Target (uri : Uri) (target : Bytes) : Type 0 where
  with_query : uri.path_and_query ≡ some target → Target uri target
  path_only : uri.path_and_query ≡ none → uri.path ≡ target → Target uri target

-- What is signed for a request: lines for its method, its target, the hash and the length of its
-- body, and for the time, the device and the nonce
abbrev pub signed_lines :
    Crypto → HttpRequest → (target : Bytes) (timestamp : ℕ) (device_id nonce : Bytes) → Bytes
signed_lines c http target timestamp device_id nonce = lines (
    bytes "rustsync-http-auth"
    ∷ http.method
    ∷ target
    ∷ to_hex (c.sha256 http.body)
    ∷ to_decimal timestamp
    ∷ device_id
    ∷ nonce
    ∷ to_decimal (length http.body)
    ∷ [])

-- The device has signed the request: the headers carry its identifier, the time, the nonce and a
-- signature that verifies with its key.
pub record Covers (c : Crypto) (http : HttpRequest) (device : DeviceRecord) (timestamp : ℕ)
    (nonce : Bytes) : Type 0 where
  pub target : Bytes
  pub at : Bytes
  pub signature_text : Bytes
  pub signature : Bytes
  pub asked : Target http.uri target
  pub carries_device : Carries http (bytes "x-rustsync-device-id") device.device_id
  pub carries_time : Carries http (bytes "x-rustsync-timestamp") at
  pub carries_nonce : Carries http (bytes "x-rustsync-nonce") nonce
  pub carries_signature : Carries http (bytes "x-rustsync-signature") signature_text
  pub time : parse_u64 at ≡ some timestamp
  pub decoded : c.base64_url_decode signature_text ≡ some signature
  pub verified :
      Device.verify_signature c device
        (signed_lines c http target timestamp device.device_id nonce)
        signature
      ≡ ok tt

path_or_query-Target :
    (uri : Uri) (o : Option Bytes) → uri.path_and_query ≡ o → Target uri (path_or_query uri o)
path_or_query-Target uri none e = path_only e refl
path_or_query-Target uri (some text) e = with_query e

read_header :
    (o : Option HeaderValue) (text : Bytes)
    → Chain.◌>>=◌ (ok_or o authentication_required) header_value_to_str ≡ ok text
    → o ≡ some (visible text)
read_header none text e = cc
read_header (some (visible value)) text e = cc
read_header (some opaque) text e = cc

required_header-Carries :
    (http : HttpRequest) (name text : Bytes)
    → required_header http name ≡ ok text
    → Carries http name text
unfolding required_header
required_header-Carries http name text e = read_header (http.header name) text e

parse_device_id-same : (text id : Bytes) → parse_device_id text ≡ ok id → text ≡ id
unfolding parse_device_id
parse_device_id-same text id e = ground (arith, e)

parse_nonce-same : (text nonce : Bytes) → parse_nonce text ≡ ok nonce → text ≡ nonce
unfolding parse_nonce
parse_nonce-same text nonce e = ground (arith, e)

module _ (c : Crypto) where
  from_header_values-ok :
      (device at nonce signed : Bytes) (h : AuthHeaders)
      → from_header_values c device at nonce signed ≡ ok h
      → (device ≡ h.device_id)
        × (parse_u64 at ≡ some h.timestamp)
        × (nonce ≡ h.nonce)
        × (c.base64_url_decode signed ≡ some h.signature)
  unfolding from_header_values
  from_header_values-ok device at nonce signed h e =
      let (id, device_read, e1) = Chain.>>=-eq-ok _ h (parse_device_id device) e in
      let (t, time_read, e2) = Chain.>>=-eq-ok _ h (ok_or (parse_u64 at) _) e1 in
      let (once, nonce_read, e3) = Chain.>>=-eq-ok _ h (parse_nonce nonce) e2 in
      let (text, text_read, whole) = Chain.>>=-eq-ok _ h (parse_signature c signed) e3 in
      ground (
        arith,
        whole,
        parse_device_id-same device id device_read,
        ok_or-some (parse_u64 at) _ t time_read,
        parse_nonce-same nonce once nonce_read,
        ok_or-some (c.base64_url_decode signed) _ text text_read,
      )

  -- What the headers of a request that is read carry
  record Carried (http : HttpRequest) (h : AuthHeaders) : Type 0 where
    pub at : Bytes
    pub signature_text : Bytes
    pub carries_device : Carries http device_id_header h.device_id
    pub carries_time : Carries http timestamp_header at
    pub carries_nonce : Carries http nonce_header h.nonce
    pub carries_signature : Carries http signature_header signature_text
    pub time : parse_u64 at ≡ some h.timestamp
    pub decoded : c.base64_url_decode signature_text ≡ some h.signature

  parse_auth_headers-Carried :
      (http : HttpRequest) (h : AuthHeaders) → parse_auth_headers c http ≡ ok h → Carried http h
  unfolding parse_auth_headers
  parse_auth_headers-Carried http h e =
      let (device, e1, r1) = Chain.>>=-eq-ok _ h (required_header http device_id_header) e in
      let (at, e2, r2) = Chain.>>=-eq-ok _ h (required_header http timestamp_header) r1 in
      let (nonce, e3, r3) = Chain.>>=-eq-ok _ h (required_header http nonce_header) r2 in
      let (text, e4, r4) = Chain.>>=-eq-ok _ h (required_header http signature_header) r3 in
      let (same_device, time, same_nonce, decoded) =
        from_header_values-ok device at nonce text h (map_err-ok auth_protocol _ h r4) in
      record {
        at = at;
        signature_text = text;
        carries_device =
            subst (Carries http device_id_header) same_device
              (required_header-Carries http device_id_header device e1);
        carries_time = required_header-Carries http timestamp_header at e2;
        carries_nonce =
            subst (Carries http nonce_header) same_nonce
              (required_header-Carries http nonce_header nonce e3);
        carries_signature = required_header-Carries http signature_header text e4;
        time = time;
        decoded = decoded;
      }

  -- A signature that verifies over the payload of a request covers the parts of the request.
  Carried-Covers :
      (http : HttpRequest) (h : AuthHeaders) (signed : SignedHttpRequest) (device : DeviceRecord)
      → Carried http h
      → from_auth_headers c
          record {
            method = http.method;
            path_and_query = path_or_query http.uri http.uri.path_and_query;
            body = http.body;
          }
          h
        ≡ signed
      → signed.input.device_id ≡ device.device_id
      → Device.verify_signature c device (canonical_payload signed.input) signed.signature ≡ ok tt
      → Covers c http device signed.input.timestamp signed.input.nonce
  unfolding from_auth_headers canonical_payload sha256_hex
  Carried-Covers http h signed device carried made =
      subst
        (λ signed.
          signed.input.device_id ≡ device.device_id
          → Device.verify_signature c device (canonical_payload signed.input) signed.signature
            ≡ ok tt
          → Covers c http device signed.input.timestamp signed.input.nonce)
        made
        λ named verified. record {
          target = path_or_query http.uri http.uri.path_and_query;
          at = carried.at;
          signature_text = carried.signature_text;
          signature = h.signature;
          asked = path_or_query-Target http.uri http.uri.path_and_query refl;
          carries_device = subst (Carries http device_id_header) named carried.carries_device;
          carries_time = carried.carries_time;
          carries_nonce = carried.carries_nonce;
          carries_signature = carried.carries_signature;
          time = carried.time;
          decoded = carried.decoded;
          verified =
              subst
                (λ id.
                  Device.verify_signature c device
                    (signed_lines c http (path_or_query http.uri http.uri.path_and_query)
                      h.timestamp id h.nonce)
                    h.signature
                  ≡ ok tt)
                named verified;
        }

  pub signed_http_request_from_headers-Covers :
      (http : HttpRequest) (signed : SignedHttpRequest) (device : DeviceRecord)
      → signed_http_request_from_headers c http ≡ ok signed
      → signed.input.device_id ≡ device.device_id
      → Device.verify_signature c device (canonical_payload signed.input) signed.signature ≡ ok tt
      → Covers c http device signed.input.timestamp signed.input.nonce
  unfolding signed_http_request_from_headers
  signed_http_request_from_headers-Covers http signed device e =
      let (h, parsed, made) = Chain.>>=-eq-ok _ signed (parse_auth_headers c http) e in
      Carried-Covers http h signed device (parse_auth_headers-Carried http h parsed) (cc made)
