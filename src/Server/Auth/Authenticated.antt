-- ===== src/Server/Auth/Authenticated.antt =====
-- What `authenticate` and the parts that it shares have checked when they return.
use rustsync.Base.{
  ℕ, ◌≤◌, ◌==◌, bytes_ord, Bytes, some, ◌≡◌, refl, arith, ==_iff, Bool-cases, inl, inr,
}
use rustsync.Base.Map.{get}
use rustsync.Base.Exec.{Result, ok, err, Returns, Returns-reads, Returns-bind}
use rustsync.Server.Auth.Covered.{Covers, signed_http_request_from_headers-Covers}
use rustsync.Server.Replay.Refusal.{check_and_record-fresh}
use rustsync.Server.Error.{ServerError, map_err-ok, auth_protocol}
use rustsync.Server.State.{ServerState, on_seen}
use rustsync.Server.Replay.{
  ReplayKey, replay_key_ord, Seen, check_and_record, validate_timestamp, abs_diff,
  max_timestamp_skew_seconds,
}
use rustsync.Server.Database.Tables.{Json}
use rustsync.Server.Database.Access.{get_access_state}
use rustsync.Server.Auth.{HttpRequest, AuthenticatedDevice, signed_http_request_from_headers}
use rustsync.Server.Auth.{authenticate, replay_key}
use rustsync.Protocol.Error.{ProtocolError}
use rustsync.Protocol.Auth.{
  SignedHttpRequest, canonical_payload, verify_with_device, any_signature_error,
}
use rustsync.Protocol.Device
use rustsync.Protocol.Device.{Crypto, DeviceRecord}
use rustsync.Protocol.Access.Role.{WorkspacePermission}
use rustsync.Protocol.Access.State.{AccessState, active_device_record, require_permission}

validate_timestamp-window :
    (now timestamp : ℕ)
    → validate_timestamp now timestamp ≡ ok tt
    → abs_diff now timestamp ≤ max_timestamp_skew_seconds
unfolding validate_timestamp
validate_timestamp-window now timestamp e = ground (arith, e)

any_signature_error-ok :
    (r : Result ProtocolError (Unit {0})) → any_signature_error r ≡ ok tt → r ≡ ok tt
any_signature_error-ok (ok u) e = refl
any_signature_error-ok (err why) e = cc

-- A request that verifies with a device names the device, and its signature is the device's on the
-- payload of the request.
pub verify_with_device-ok :
    (c : Crypto) (signed : SignedHttpRequest) (device : DeviceRecord)
    → verify_with_device c signed device ≡ ok tt
    → (signed.input.device_id ≡ device.device_id)
      × (Device.verify_signature c device (canonical_payload signed.input) signed.signature ≡ ok tt)
unfolding verify_with_device
verify_with_device-ok c signed device e =
    elim (Bool-cases (signed.input.device_id == device.device_id)) [
      | inl same ↦ ((==_iff _ _).0 same, any_signature_error-ok _ (rw same at e))
      | inr differs ↦ ground (arith, e, differs)
    ]

-- The cache took the key, and no call on it changes the database.
abbrev pub Recorded : ReplayKey → ℕ → ServerState → ServerState → Type 0
Recorded key timestamp s t = (get key t.seen ≡ some timestamp) × (t.database ≡ s.database)

lift_fresh :
    (key : ReplayKey) (timestamp : ℕ) (s : ServerState) (r : Result ServerError (Unit {0}) × Seen)
    → ((u : Seen) → r ≡ (ok tt, u) → get key u ≡ some timestamp)
    → Returns (λ (u : Unit {0}) t. Recorded key timestamp s t) (r.0, record s { seen = r.1 })
lift_fresh key timestamp s (ok u, t) h = (h t refl, refl)
lift_fresh key timestamp s (err e, t) h = tt

pub on_seen-Returns :
    (key : ReplayKey) (timestamp : ℕ) (s : ServerState)
    → Returns
        (λ u t. Recorded key timestamp s t)
        (on_seen (check_and_record key timestamp max_timestamp_skew_seconds) s)
unfolding on_seen
on_seen-Returns key timestamp s =
    lift_fresh key timestamp s (check_and_record key timestamp max_timestamp_skew_seconds s.seen)
      λ u taken. check_and_record-fresh key timestamp max_timestamp_skew_seconds s.seen u taken

module _ (c : Crypto) (json : Json) (now : ℕ) (w : Bytes) (http : HttpRequest) where
  -- A signed request that is in the window, and a device of the stored access state that signed it
  pub record IsSigned (before : ServerState) (signed : SignedHttpRequest) (state : AccessState)
      (device : DeviceRecord) : Type 0 where
    pub read : signed_http_request_from_headers c http ≡ ok signed
    pub window : abs_diff now signed.input.timestamp ≤ max_timestamp_skew_seconds
    pub stored : get_access_state c json w before.database ≡ ok state
    pub active : active_device_record state signed.input.device_id ≡ ok device
    pub named : signed.input.device_id ≡ device.device_id
    pub verified :
        Device.verify_signature c device (canonical_payload signed.input) signed.signature ≡ ok tt

  -- What `authenticate` has established when it returns
  abbrev pub Authenticated :
      WorkspacePermission → ServerState → AuthenticatedDevice → ServerState → Type 0
  Authenticated permission before auth after =
      (signed : SignedHttpRequest) × (state : AccessState) × (device : DeviceRecord) × IsSigned
        before signed state device
      × Covers c http device signed.input.timestamp signed.input.nonce
      × (require_permission state signed.input.device_id permission ≡ ok tt)
      × (auth ≡ record {
        workspace_id = w;
        device_id = signed.input.device_id;
        permission = permission;
      })
      × Recorded (replay_key c w signed) signed.input.timestamp before after

  -- When authentication returns, the headers of the request carry the identifier of an active device
  -- of the stored access state, a time, a nonce and a signature by this device over the lines of
  -- method, path with query, hash and length of the body, time, device and nonce; the time is in the
  -- window, the device has the permission, the nonce is in the replay cache, and the database is
  -- unchanged.
  pub authenticate-Returns :
      (permission : WorkspacePermission) (s : ServerState)
      → Returns (Authenticated permission s) (authenticate c json now w permission http s)
  unfolding authenticate
  authenticate-Returns permission s = Returns-reads _ s _ _ λ signed read.
      Returns-reads _ s _ _ λ u window. Returns-reads _ s _ _ λ state stored.
        Returns-reads _ s _ _ λ device active. Returns-reads _ s _ _ λ u verified.
          Returns-bind _ (λ u t. Recorded (replay_key c w signed) signed.input.timestamp s t) _ _ _
            (on_seen-Returns (replay_key c w signed) signed.input.timestamp s)
            λ u t recorded. Returns-reads _ t _ _ λ u may.
              let (named, signature) =
                verify_with_device-ok c signed device (map_err-ok auth_protocol _ tt verified) in
              let is_signed : IsSigned s signed state device = record {
                read = read;
                window = validate_timestamp-window now signed.input.timestamp window;
                stored = stored;
                active = map_err-ok auth_protocol _ device active;
                named = named;
                verified = signature;
              } in
              (
                signed,
                state,
                device,
                is_signed,
                signed_http_request_from_headers-Covers c http signed device read named signature,
                map_err-ok auth_protocol _ tt may,
                refl,
                recorded,
              )
