-- ===== src/Protocol/Device/Join.antt =====
-- `crates/rustsync-protocol/src/device/join.rs`.
use rustsync.Base.{ℕ, not, ◌==◌, bytes_ord, [], Bytes, bytes, is_empty}
use rustsync.Base.Exec.{reject}
use rustsync.Base.Chain.{◌>>◌}
use rustsync.Protocol.Error.{ProtocolResult, invalid_join_request, workspace_mismatch}
use rustsync.Protocol.Error.{signature_missing, joining_not_pending}
use rustsync.Protocol.Encoding.{push_bytes, push_str, push_u64}
use rustsync.Protocol.Device.{Crypto, DeviceRecord, DeviceStatus, pending, active, revoked}
use rustsync.Protocol.Device.{is_pending}
use rustsync.Protocol.Device

pub record DeviceJoinRequest : Type 0 where
  pub request_id : Bytes
  pub workspace_id : Bytes
  pub device : DeviceRecord
  pub created_at : ℕ
  pub signature : Bytes

abbrev pub new_unsigned : Bytes → Bytes → DeviceRecord → ℕ → DeviceJoinRequest
new_unsigned request_id workspace_id device created_at = record {
  request_id = request_id;
  workspace_id = workspace_id;
  device = record device { status = pending };
  created_at = created_at;
  signature = [];
}

abbrev pub with_signature : DeviceJoinRequest → Bytes → DeviceJoinRequest
with_signature r signature = record r { signature = signature }

abbrev pub device_join_request_domain : Bytes
device_join_request_domain = bytes "rustsync/device-join-request"

abbrev pub device_status_name : DeviceStatus → Bytes
device_status_name pending = bytes "pending"
device_status_name active = bytes "active"
device_status_name revoked = bytes "revoked"

unfoldable pub push_device_record : Bytes → DeviceRecord → Bytes
push_device_record out d =
    let out = push_str out d.device_id in
    let out = push_str out d.device_name in
    let out = push_bytes out d.signing_public_key in
    let out = push_bytes out d.exchange_public_key in
    let out = push_str out d.fingerprint in push_str out (device_status_name d.status)

unfoldable pub signing_payload : DeviceJoinRequest → Bytes
signing_payload r =
    let out = push_bytes [] device_join_request_domain in
    let out = push_str out r.request_id in
    let out = push_str out r.workspace_id in
    let out = push_device_record out r.device in push_u64 out r.created_at

module _ (c : Crypto) where
  unfoldable pub validate : DeviceJoinRequest → ProtocolResult (Unit {0})
  validate r = reject (is_empty r.signature) (invalid_join_request signature_missing) (
      reject (not (is_pending r.device)) (invalid_join_request joining_not_pending)
        (Device.validate c r.device))

  unfoldable pub verify : DeviceJoinRequest → ProtocolResult (Unit {0})
  verify r = do validate r; Device.verify_signature c r.device (signing_payload r) r.signature

  unfoldable pub verify_for_workspace : DeviceJoinRequest → Bytes → ProtocolResult (Unit {0})
  verify_for_workspace r expected =
      reject (not (r.workspace_id == expected)) (workspace_mismatch expected r.workspace_id)
        (verify r)
