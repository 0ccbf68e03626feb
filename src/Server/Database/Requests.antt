-- ===== src/Server/Database/Requests.antt =====
-- `submit_join_request`, `list_join_requests`, `get_join_request` and `remove_join_request`.
pub mod Pending
use rustsync.Base.{
  ℕ, Bool, true, false, not, ◌&&◌, if◌then◌else◌, ◌==◌, bytes_ord, nat_ord, Bytes, Option, none,
  some,
}
use rustsync.Base.{List, [], ◌∷◌, leb}
use rustsync.Base.Map.{BTreeMap, get, insert, remove, values}
use rustsync.Base.Exec.{Exec, Result, ok, err, reject, ok_or, pure, reads, modify, ◌>>=◌, ◌>>◌}
use rustsync.Base.Chain
use rustsync.Server.Error.{
  ServerError, ServerResult, access_state_workspace_mismatch, invalid_request,
}
use rustsync.Server.Error.{bad_json, bad_stored_json, corrupt_database, storage_corruption}
use rustsync.Server.Error.{missing_join_request, join_request_timestamp}
use rustsync.Server.Database.Tables.{Database, JoinRow, Json, to_i64}
use rustsync.Protocol.Device.{record_eq}
use rustsync.Protocol.Device.Join.{DeviceJoinRequest}

-- `JoinRequestPutResult` of `crates/rustsync-server/src/storage/mod.rs`
pub data JoinRequestPutResult : Type 0 where
  submitted already_pending conflict : JoinRequestPutResult

-- The derived `==`
abbrev pub request_eq : DeviceJoinRequest → DeviceJoinRequest → Bool
request_eq a b =
    a.request_id == b.request_id
    && a.workspace_id == b.workspace_id
    && record_eq a.device b.device
    && a.created_at == b.created_at
    && a.signature == b.signature

unfoldable pub validate_request : Bytes → DeviceJoinRequest → ServerResult (Unit {0})
validate_request w r =
    reject (not (r.workspace_id == w)) (access_state_workspace_mismatch w r.workspace_id) (ok tt)

-- `INSERT ... ON CONFLICT(join_request_id) DO NOTHING`
abbrev insert_row :
    Bytes → JoinRow → Option JoinRow → BTreeMap Bytes JoinRow → Bool × BTreeMap Bytes JoinRow
insert_row id row none rows = (true, insert id row rows)
insert_row id row (some old) rows = (false, rows)

unfoldable pub insert_request : Bytes → JoinRow → Exec ServerError Database Bool
insert_request id row db =
    let (affected, stored) = insert_row id row (get id db.join_requests) db.join_requests in
    (ok affected, record db { join_requests = stored })

-- A row put before the first row that was created later. Rows of one time keep the order of their
-- identifiers, in which the table has them.
unfoldable pub insert_by_time : JoinRow → List JoinRow → List JoinRow
insert_by_time row [] = row ∷ []
insert_by_time row (next ∷ rows) =
    let rest = insert_by_time row rows in
    if leb row.created_at next.created_at then row ∷ next ∷ rows else next ∷ rest

-- `ORDER BY created_at,join_request_id`
unfoldable pub order_rows : List JoinRow → List JoinRow
unfolding insert_by_time
order_rows [] = []
order_rows (row ∷ rows) = insert_by_time row (order_rows rows)

unfoldable pub remove_join_request : Bytes → Exec ServerError Database (Unit {0})
remove_join_request id = modify (λ db. record db { join_requests = remove id db.join_requests })

module _ (json : Json) where
  unfoldable pub deserialize_request : Bytes → Bytes → ServerResult DeviceJoinRequest
  unfolding validate_request
  deserialize_request w text =
      Chain.◌>>=◌ (ok_or (json.join_request_from_slice text) (corrupt_database bad_stored_json))
        λ r. Chain.◌>>◌ (validate_request w r) (ok r)

  -- What `submit_join_request` finds when no row was affected
  unfoldable pub existing_request : Bytes → Bytes → Database → ServerResult DeviceJoinRequest
  unfolding validate_request
  existing_request w id db =
      Chain.◌>>=◌ (ok_or (get id db.join_requests) (storage_corruption missing_join_request)) λ row.
        Chain.◌>>=◌
          (ok_or (json.join_request_from_slice row.request_json)
            (storage_corruption bad_stored_json))
          λ existing. Chain.◌>>◌ (validate_request w existing) (ok existing)

  abbrev compare_request :
      Bool → Bytes → DeviceJoinRequest → Database → ServerResult JoinRequestPutResult
  compare_request true w r db = ok submitted
  compare_request false w r db =
      Chain.◌>>=◌ (existing_request w r.request_id db)
        λ existing. ok (if request_eq existing r then already_pending else conflict)

  unfoldable pub submit_join_request :
      Bytes → DeviceJoinRequest → Exec ServerError Database JoinRequestPutResult
  unfolding validate_request insert_request
  submit_join_request w r = do
    reads λ db. validate_request w r
    text ← reads λ db. ok_or (json.join_request_to_vec r) (invalid_request bad_json)
    at ← reads λ db. to_i64 r.created_at join_request_timestamp
    affected ← insert_request r.request_id record { request_json = text; created_at = at }
    reads (compare_request affected w r)

  unfoldable pub deserialize_all : Bytes → List JoinRow → ServerResult (List DeviceJoinRequest)
  unfolding deserialize_request
  deserialize_all w [] = ok []
  deserialize_all w (row ∷ rows) =
      Chain.◌>>=◌ (deserialize_request w row.request_json)
        λ r. Chain.◌>>=◌ (deserialize_all w rows) λ rest. ok (r ∷ rest)

  unfoldable pub list_join_requests : Bytes → Database → ServerResult (List DeviceJoinRequest)
  unfolding deserialize_all order_rows
  list_join_requests w db = deserialize_all w (order_rows (values db.join_requests))

  abbrev read_request : Bytes → Option JoinRow → ServerResult (Option DeviceJoinRequest)
  read_request w none = ok none
  read_request w (some row) = Chain.◌>>=◌ (deserialize_request w row.request_json) λ r. ok (some r)

  unfoldable pub get_join_request :
      Bytes → Bytes → Database → ServerResult (Option DeviceJoinRequest)
  unfolding deserialize_request
  get_join_request w id db = read_request w (get id db.join_requests)
