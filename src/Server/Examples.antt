-- ===== src/Server/Examples.antt =====
-- A workspace of two devices, its database, and requests to it.
mod Codec
mod Texts
mod Tables
mod Requests
mod Files
use rustsync.Base.{Bytes, bytes, [], ◌∷◌, Option, none, some, ◌==◌, bytes_ord, if◌then◌else◌}
use rustsync.Server.State.{ServerState}
use rustsync.Server.Auth.{HttpRequest, HeaderValue, visible, device_id_header}
use rustsync.Server.Auth.{timestamp_header, nonce_header, signature_header}
use rustsync.Server.Database.Tables.{Database, new_database, Json}
use rustsync.Server.Examples.Texts.{json_of}
use rustsync.Protocol.Device.Join.{DeviceJoinRequest}
use rustsync.Protocol.Envelope.{KeyEnvelope, x25519_hkdf_sha256_xchacha20_poly1305}
use rustsync.Protocol.Access.State.{AccessState}
use rustsync.Protocol.Access.Examples.{laptop, phone, granted, founded, removing}

abbrev pub home : Bytes
home = bytes "home"

abbrev pub envelope : KeyEnvelope
envelope = record {
  workspace_id = home;
  key_id = bytes "key";
  key_generation = 1;
  access_revision = 3;
  sender_device_id = laptop.device_id;
  recipient_device_id = phone.device_id;
  algorithm = x25519_hkdf_sha256_xchacha20_poly1305;
  sender_ephemeral_public_key = bytes "e";
  nonce = bytes "n";
  encrypted_workspace_key = bytes "w";
  created_at = 1000;
  signature = bytes "ss";
}

abbrev pub json : Json
json =
    json_of envelope record { workspace_id = home; access_state = founded }
      record { join_request_id = bytes "join_1"; event = removing } removing

abbrev pub headers : (device_id nonce : Bytes) → Bytes → Option HeaderValue
headers device_id nonce name =
    if name == device_id_header
    then some (visible device_id)
    else if name == timestamp_header
    then some (visible (bytes "1000"))
    else if name == nonce_header
    then some (visible nonce)
    else if name == signature_header
    then some (visible (bytes "ss"))
    else none

-- A request that a device sends
abbrev pub from : (device_id nonce : Bytes) → HttpRequest
from device_id nonce = record {
  method = bytes "POST";
  uri = record { path = bytes "/workspaces/home"; path_and_query = none };
  header = headers device_id nonce;
  body = bytes "{}";
}

-- The phone asks to join.
abbrev pub asking : DeviceJoinRequest
asking = record {
  request_id = bytes "join_1";
  workspace_id = home;
  device = phone;
  created_at = 1000;
  signature = bytes "ss";
}

-- The database that holds an access state and one envelope
abbrev pub holding : AccessState → Database
holding state = record new_database {
  access_state = some record {
    access_state_json = elim (json.access_state_to_vec state) [ none ↦ [] | some text ↦ text ];
    created_at = 900;
    updated_at = 900;
  };
  key_envelopes =
      (record { key_id = bytes "key"; recipient_device_id = phone.device_id }, bytes "sealed") ∷ [];
}

abbrev pub running : AccessState → ServerState
running state = record { database = holding state; seen = [] }
