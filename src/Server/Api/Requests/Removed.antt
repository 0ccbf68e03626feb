-- ===== src/Server/Api/Requests/Removed.antt =====
-- Authentication of a device that was removed from the workspace.
use rustsync.Base.{ℕ, ◌≡◌, ◌≢◌, Bytes, List, arith, true}
use rustsync.Base.Exec.{ok, Returns, Returns-mono}
use rustsync.Server.State.{ServerState}
use rustsync.Server.Auth.{HttpRequest, authenticate}
use rustsync.Server.Auth.Authenticated.{authenticate-Returns}
use rustsync.Server.Database.Tables.{Json}
use rustsync.Server.Api.Requests.{Arrival, after_arrivals}
use rustsync.Server.Api.Requests.History.{after_arrivals-Later}
use rustsync.Server.Api.Later.{IsFaithful, HasState, Evolves, unchanged, step}
use rustsync.Protocol.Device.{Crypto, DeviceRecord}
use rustsync.Protocol.Access.Role.{WorkspacePermission}
use rustsync.Protocol.Access.State.{AccessState, active_device_record, is_active_member}
use rustsync.Protocol.Access.Removal.{IsGone, IsGone-apply_verified_event, IsGone-is_active_member}

Evolves-IsGone :
    (c : Crypto) (s t : AccessState) (id : Bytes) → Evolves c s t → IsGone s id → IsGone t id
Evolves-IsGone c s _ id unchanged gone = gone
Evolves-IsGone c s t id (step {t = v} before event is_step) gone =
    IsGone-apply_verified_event c event v t id is_step.applied (Evolves-IsGone c s v id before gone)

active_device_record-is_active_member :
    (s : AccessState) (id : Bytes) (d : DeviceRecord)
    → active_device_record s id ≡ ok d
    → is_active_member s id ≡ true
unfolding active_device_record is_active_member
active_device_record-is_active_member s id d e = ground (arith, e)

-- Where the texts that the server writes read back: once the stored access state has a device as
-- removed, then after any requests, at any time and for any permission, no request is authenticated
-- as one of the device.
pub authenticate-removed :
    (c : Crypto) (json : Json) (w : Bytes) (arrivals : List Arrival) (before : ServerState)
    (s : AccessState) (id : Bytes) (now : ℕ) (permission : WorkspacePermission) (http : HttpRequest)
    → IsFaithful json
    → HasState c json w before.database s
    → IsGone s id
    → let later = after_arrivals c json w arrivals before in
      Returns (λ auth after. auth.device_id ≢ id) (authenticate c json now w permission http later)
authenticate-removed c json w arrivals before s id now permission http faithful has gone =
    let later = after_arrivals c json w arrivals before in
    let (t, has_after, evolves) =
      (after_arrivals-Later c json w faithful arrivals before).database.access s has in
    let gone_after = IsGone-is_active_member t id (Evolves-IsGone c s t id evolves gone) in
    Returns-mono _ _ (authenticate c json now w permission http later)
      (λ auth after (signed, state, device, is_signed, covers, may, same, recorded) same_id.
        let read : state ≡ t = cc (is_signed.stored, has_after.reads) in
        let device_id : signed.input.device_id ≡ id = cc (same, same_id) in
        let active =
          active_device_record-is_active_member state signed.input.device_id device
            is_signed.active in
        cc (active, read, device_id, gone_after))
      (authenticate-Returns c json now w http permission later)
