-- ===== src/Server/Auth/Accepted.antt =====
-- The requests that `authenticate` accepts.
use rustsync.Base.{
  ℕ, ◌-◌, ◌≤◌, Bool, leb, bytes_ord, bytes_cmp_iff, Bytes, [], ◌∷◌, none, ◌≡◌, refl, ap, arith,
}
use rustsync.Base.Map.{get, insert}
use rustsync.Base.Exec.{Result, ok, ◌>>=◌, >>=-of_ok}
use rustsync.Server.Error.{ServerError, map_err, auth_protocol}
use rustsync.Server.State.{ServerState}
use rustsync.Server.Replay.{ReplayKey, replay_key_ord, Seen, retain, check_and_record}
use rustsync.Server.Replay.{validate_timestamp, abs_diff, max_timestamp_skew_seconds}
use rustsync.Server.Database.Tables.{Json}
use rustsync.Server.Auth.{HttpRequest, authenticate, replay_key}
use rustsync.Server.Auth.Authenticated.{IsSigned}
use rustsync.Protocol.Auth.{SignedHttpRequest, canonical_payload, verify_with_device}
use rustsync.Protocol.Device
use rustsync.Protocol.Device.{Crypto, DeviceRecord}
use rustsync.Protocol.Access.Role.{WorkspacePermission}
use rustsync.Protocol.Access.State.{AccessState, require_permission}

get-retain_absent :
    (keep : ℕ → Bool) (key : ReplayKey) (seen : Seen)
    → get key seen ≡ none
    → get key (retain keep seen) ≡ none
unfolding get retain
get-retain_absent keep key [] free = refl
get-retain_absent keep key ((k, t) ∷ seen) free =
    ground (arith, free, get-retain_absent keep key seen)

-- The cache after a request was taken
abbrev pub taken : ReplayKey → ℕ → Seen → Seen
taken key timestamp seen =
    insert key timestamp
      (retain (λ seen_at. leb (timestamp - max_timestamp_skew_seconds) seen_at) seen)

check_and_record-taken :
    (key : ReplayKey) (timestamp : ℕ) (seen : Seen)
    → get key seen ≡ none
    → check_and_record key timestamp max_timestamp_skew_seconds seen
      ≡ (ok tt, taken key timestamp seen)
unfolding check_and_record ◌>>=◌
check_and_record-taken key timestamp seen free = ground (
  arith,
  get-retain_absent (λ seen_at. leb (timestamp - max_timestamp_skew_seconds) seen_at) key seen free,
)

validate_timestamp-of_window :
    (now timestamp : ℕ)
    → abs_diff now timestamp ≤ max_timestamp_skew_seconds
    → validate_timestamp now timestamp ≡ ok tt
unfolding validate_timestamp
validate_timestamp-of_window now timestamp h = ground (arith, h)

verify_with_device-of_signature :
    (c : Crypto) (signed : SignedHttpRequest) (device : DeviceRecord)
    → signed.input.device_id ≡ device.device_id
    → Device.verify_signature c device (canonical_payload signed.input) signed.signature ≡ ok tt
    → verify_with_device c signed device ≡ ok tt
unfolding verify_with_device
verify_with_device-of_signature c signed device named verified =
    rw verified (ground (arith, bytes_cmp_iff signed.input.device_id device.device_id, named))

-- A request that is signed by an active device of the stored access state, in the window, with a
-- nonce that the replay cache has not got, and for which the device has the permission, is
-- authenticated; the nonce is recorded, and the database stays as it is.
pub authenticate-accepts :
    (c : Crypto) (json : Json) (now : ℕ) (w : Bytes) (http : HttpRequest)
    (permission : WorkspacePermission) (s : ServerState) (signed : SignedHttpRequest)
    (state : AccessState) (device : DeviceRecord)
    → IsSigned c json now w http s signed state device
    → get (replay_key c w signed) s.seen ≡ none
    → require_permission state signed.input.device_id permission ≡ ok tt
    → authenticate c json now w permission http s ≡ (
      ok record { workspace_id = w; device_id = signed.input.device_id; permission = permission },
      record s { seen = taken (replay_key c w signed) signed.input.timestamp s.seen },
    )
unfolding authenticate
authenticate-accepts c json now w http permission s signed state device is_signed free may =
    let key = replay_key c w signed in
    let after : ServerState = record s { seen = taken key signed.input.timestamp s.seen } in
    >>=-of_ok _ _ s signed s (ap (λ r. (r, s)) is_signed.read) (
      >>=-of_ok _ _ s tt s (ap (λ r. (r, s)) (validate_timestamp-of_window now _ is_signed.window))
        (>>=-of_ok _ _ s state s (ap (λ r. (r, s)) is_signed.stored) (
          >>=-of_ok _ _ s device s (ap (λ r. (map_err auth_protocol r, s)) is_signed.active) (
            >>=-of_ok _ _ s tt s
              (ap (λ r. (map_err auth_protocol r, s))
                (verify_with_device-of_signature c signed device is_signed.named
                  is_signed.verified))
              (>>=-of_ok _ _ s tt after
                (ap (λ (r : Result ServerError (Unit {0}) × Seen). (r.0, record s { seen = r.1 }))
                  (check_and_record-taken key signed.input.timestamp s.seen free))
                (>>=-of_ok _ _ after tt after (ap (λ r. (map_err auth_protocol r, after)) may)
                  refl))))))
