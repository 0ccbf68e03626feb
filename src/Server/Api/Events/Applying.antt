-- ===== src/Server/Api/Events/Applying.antt =====
-- What `verify_and_apply_access_event` leaves: the stored access state before and after it.
use rustsync.Base.{ℕ, Bytes, ◌≡◌, bytes_ord}
use rustsync.Base.Exec.{Result, ok, err, Settles, Settles-reads, Settles-bind}
use rustsync.Server.Error.{invalid_access_state}
use rustsync.Server.Error.{map_err-ok}
use rustsync.Server.Api.Events.{changed_state, verify_and_apply_access_event}
use rustsync.Server.Database.Tables.{Database, Json}
use rustsync.Server.Database.Access.{get_access_state}
use rustsync.Server.Database.Access.Stored.{ReadsBack, Stored, save_access_state-Settles}
use rustsync.Protocol.Error.{ProtocolError}
use rustsync.Protocol.Device.{Crypto, DeviceRecord}
use rustsync.Protocol.Access.Event.{SignedAccessEvent, verify_signature}
use rustsync.Protocol.Access.State.{AccessState, active_device_record}
use rustsync.Protocol.Access.Apply.{apply_verified_event}

-- One step of the access state: an event that an active device of the state before has signed, and
-- that applies to it.
pub record IsStep (c : Crypto) (s : AccessState) (event : SignedAccessEvent) (t : AccessState)
    : Type 0 where
  pub actor : DeviceRecord
  pub active : active_device_record s event.actor_device_id ≡ ok actor
  pub signed : verify_signature c event actor ≡ ok tt
  pub applied : apply_verified_event c event s ≡ (ok tt, t)

changed_state-ok :
    (r : Result ProtocolError (Unit {0}) × AccessState) (t : AccessState)
    → changed_state r ≡ ok t
    → r ≡ (ok tt, t)
changed_state-ok (ok u, state) t e = cc
changed_state-ok (err why, state) t e = cc

module _ (c : Crypto) (json : Json) (now : ℕ) (w : Bytes) (event : SignedAccessEvent) where
  -- What the call has left
  abbrev pub Stepped : Database → AccessState → Database → Type 0
  Stepped before t after =
      (s : AccessState) × (get_access_state c json w before ≡ ok s)
      × IsStep c s event t
      × Stored c json w t before after

  -- Where the text of every state reads back, an event either is stored as a step from the stored
  -- access state, signed by an active device of it, with the new state valid and read back and no other
  -- table changed, or it is refused and nothing changes.
  pub verify_and_apply_access_event-Settles :
      (db : Database)
      → ((s : AccessState) → ReadsBack json s)
      → Settles (Stepped db) db (verify_and_apply_access_event c json now w event db)
  unfolding verify_and_apply_access_event
  verify_and_apply_access_event-Settles db back = Settles-reads _ db _ _ λ u here.
      Settles-reads _ db _ _ λ s stored. Settles-reads _ db _ _ λ actor active.
        Settles-reads _ db _ _ λ u signed. Settles-reads _ db _ _ λ t applied.
          let is_step : IsStep c s event t = record {
            actor = actor;
            active = map_err-ok invalid_access_state _ actor active;
            signed = map_err-ok invalid_access_state _ tt signed;
            applied = changed_state-ok _ t (map_err-ok invalid_access_state _ t applied);
          } in
          Settles-bind _ _ db _ _ (save_access_state-Settles c json now w t db (back t))
            λ u after kept. (s, stored, is_step, kept)
