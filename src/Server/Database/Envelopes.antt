-- ===== src/Server/Database/Envelopes.antt =====
-- `put_key_envelope` and `get_key_envelope`.
pub mod Register
use rustsync.Base.{ℕ, Bool, true, false, if◌then◌else◌, ◌==◌, bytes_ord, Bytes, Option, none, some}
use rustsync.Base.Map.{BTreeMap, get, insert}
use rustsync.Base.Exec.{Exec, Result, ok, err, reads, ◌>>=◌}
use rustsync.Server.Error.{ServerError, ServerResult, storage_corruption, missing_envelope}
use rustsync.Server.Database.Tables.{Database, EnvelopeKey, envelope_key_ord}

-- `PutResult` of `crates/rustsync-server/src/storage/mod.rs`
pub data PutResult : Type 0 where
  created already_exists conflict : PutResult

-- `INSERT ... ON CONFLICT(key_id,recipient_device_id) DO NOTHING`
abbrev insert_row :
    EnvelopeKey
    → Bytes
    → Option Bytes
    → BTreeMap EnvelopeKey Bytes
    → Bool × BTreeMap EnvelopeKey Bytes
insert_row key envelope none rows = (true, insert key envelope rows)
insert_row key envelope (some old) rows = (false, rows)

unfoldable pub insert_envelope : EnvelopeKey → Bytes → Exec ServerError Database Bool
insert_envelope key envelope db =
    let (affected, stored) = insert_row key envelope (get key db.key_envelopes) db.key_envelopes in
    (ok affected, record db { key_envelopes = stored })

unfoldable pub get_key_envelope :
    (key_id recipient_device_id : Bytes) → Database → ServerResult (Option Bytes)
get_key_envelope key_id recipient_device_id db =
    ok
      (get (record { key_id = key_id; recipient_device_id = recipient_device_id }) db.key_envelopes)

-- What is there when no row was affected
abbrev compare_envelope : Bytes → Option Bytes → ServerResult PutResult
compare_envelope envelope none = err (storage_corruption missing_envelope)
compare_envelope envelope (some existing) =
    ok (if existing == envelope then already_exists else conflict)

unfoldable pub put_key_envelope :
    (key_id recipient_device_id envelope : Bytes) → Exec ServerError Database PutResult
unfolding insert_envelope
put_key_envelope key_id recipient_device_id envelope =
    let key : EnvelopeKey = record { key_id = key_id; recipient_device_id = recipient_device_id } in
    do
      affected ← insert_envelope key envelope
      reads λ db.
          if affected then ok created else compare_envelope envelope (get key db.key_envelopes)
