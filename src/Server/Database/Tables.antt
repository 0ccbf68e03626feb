-- ===== src/Server/Database/Tables.antt =====
-- The tables of `crates/rustsync-server/migrations/0001_initial.sql`, transactions and the checks
-- on integers of `crates/rustsync-server/src/storage/sqlite.rs`.
use rustsync.Base.{ℕ, if◌then◌else◌, ltb, ◌^◌, List, [], Bytes, Option, none}
use rustsync.Base.{Ord, Ordering, then_cmp, bytes_cmp, bytes_cmp_iff, ◌≡◌, ◌↔◌, arith, bytes_ord}
use rustsync.Base.Map.{BTreeMap}
use rustsync.Base.Exec.{Exec, Result, ok, err}
use rustsync.Server.Error.{ServerResult, Why, integer_out_of_range}
use rustsync.Protocol.Access.State.{AccessState}
use rustsync.Protocol.Device.Join.{DeviceJoinRequest}
use rustsync.Protocol.Envelope.{KeyEnvelope}
use rustsync.Protocol.Access.Event.{SignedAccessEvent}
use rustsync.Protocol.Api.{CreateWorkspaceRequest, ApproveJoinRequestRequest}

-- `serde_json`: what `to_vec` and `from_slice` do for the types that the server keeps and receives
pub record Json : Type 0 where
  pub access_state_to_vec : AccessState → Option Bytes
  pub access_state_from_slice : Bytes → Option AccessState
  pub join_request_to_vec : DeviceJoinRequest → Option Bytes
  pub join_request_from_slice : Bytes → Option DeviceJoinRequest
  pub key_envelope_from_slice : Bytes → Option KeyEnvelope
  pub create_workspace_from_slice : Bytes → Option CreateWorkspaceRequest
  pub approve_request_from_slice : Bytes → Option ApproveJoinRequestRequest
  pub apply_request_from_slice : Bytes → Option SignedAccessEvent

pub record HeadRow : Type 0 where
  pub manifest_id : Option Bytes
  pub revision : ℕ
  pub updated_by : Option Bytes
  pub updated_at : Option ℕ

pub record AccessRow : Type 0 where
  pub access_state_json : Bytes
  pub created_at : ℕ
  pub updated_at : ℕ

pub record JoinRow : Type 0 where
  pub request_json : Bytes
  pub created_at : ℕ

pub record ObjectRow : Type 0 where
  pub object_id : Bytes
  pub object_kind : Bytes
  pub hash_algorithm : Bytes
  pub encrypted_size : ℕ
  pub created_at : ℕ

-- The primary key of `key_envelopes`
pub record EnvelopeKey : Type 0 where
  pub key_id : Bytes
  pub recipient_device_id : Bytes

abbrev pub envelope_key_cmp : EnvelopeKey → EnvelopeKey → Ordering
envelope_key_cmp a b =
    then_cmp (bytes_cmp a.key_id b.key_id) (bytes_cmp a.recipient_device_id b.recipient_device_id)

pub envelope_key_cmp_iff : (a b : EnvelopeKey) → (envelope_key_cmp a b ≡ Ordering.eq) ↔ (a ≡ b)
envelope_key_cmp_iff a b = (
  λ h. ground (
    arith,
    bytes_cmp_iff a.key_id b.key_id,
    bytes_cmp_iff a.recipient_device_id b.recipient_device_id,
  ),
  λ h. ground (
    arith,
    bytes_cmp_iff a.key_id b.key_id,
    bytes_cmp_iff a.recipient_device_id b.recipient_device_id,
  ),
)

instance abbrev pub envelope_key_ord : Ord EnvelopeKey
envelope_key_ord = record { cmp = envelope_key_cmp; cmp_iff = envelope_key_cmp_iff }

pub record Database : Type 0 where
  pub objects : List ObjectRow
  pub workspace_head : Option HeadRow
  pub access_state : Option AccessRow
  pub join_requests : BTreeMap Bytes JoinRow
  pub key_envelopes : BTreeMap EnvelopeKey Bytes

-- After `migrate`
abbrev pub new_database : Database
new_database = record {
  objects = [];
  workspace_head = none;
  access_state = none;
  join_requests = [];
  key_envelopes = [];
}

abbrev pub i64_limit : ℕ
i64_limit = 2 ^ 63

unfoldable pub to_i64 : ℕ → Why → ServerResult ℕ
to_i64 v field = if ltb v i64_limit then ok v else err (integer_out_of_range field)

abbrev keep_or_restore {ℓ} : {S A : Type ℓ} {E : Type ℓ} → S → Result E A × S → Result E A × S
keep_or_restore before (ok a, after) = (ok a, after)
keep_or_restore before (err e, after) = (err e, before)

-- `begin` and `commit` around statements: an error between them drops what they wrote.
abbrev pub transaction {ℓ} : {E S A : Type ℓ} → Exec E S A → Exec E S A
transaction body s = keep_or_restore s (body s)
