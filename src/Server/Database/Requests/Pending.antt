-- ===== src/Server/Database/Requests/Pending.antt =====
-- What `submit_join_request` leaves, and how many requests `list_join_requests` gives.
use rustsync.Base.{suc, true, if◌then◌else◌, bytes_ord, nat_ord, Bytes, Option, none, some}
use rustsync.Base.{
  List, [], ◌∷◌, length, arith, ◌≡◌, refl, ◌∙◌, ap, bytes_cmp_iff, ◌↔◌, Option-cases, inl, inr,
}
use rustsync.Base.{Bool-cases, ◌≢◌}
use rustsync.Base.Map.{BTreeMap, get, insert, get-insert, values}
use rustsync.Base.Exec.{Result, ok, err, ◌>>=◌, reads, Settles, Settles-reads, ok_or-some}
use rustsync.Base.Chain
use rustsync.Server.Error.{ServerError}
use rustsync.Server.Database.Tables.{Database, JoinRow, Json}
use rustsync.Server.Database.Requests.{JoinRequestPutResult, submitted, already_pending, conflict}
use rustsync.Server.Database.Requests.{request_eq, submit_join_request, get_join_request}
use rustsync.Server.Database.Requests.{
  list_join_requests, deserialize_all, order_rows, insert_by_time,
}
use rustsync.Server.Database.Requests.{validate_request, deserialize_request, existing_request}
use rustsync.Server.Database.Requests.{insert_request, compare_request}
use rustsync.Protocol.Device.{DeviceRecord, record_eq}
use rustsync.Protocol.Device.Join.{DeviceJoinRequest}

-- What is written for a request is read back as it.
abbrev pub ReadsBack : Json → DeviceJoinRequest → Type 0
ReadsBack json r =
    (text : Bytes)
    → json.join_request_to_vec r ≡ some text
    → json.join_request_from_slice text ≡ some r

record_eq_iff : (a b : DeviceRecord) → (record_eq a b ≡ true) ↔ (a ≡ b)
record_eq_iff a b = (
  λ h. ground (
    arith,
    bytes_cmp_iff a.device_id b.device_id,
    bytes_cmp_iff a.device_name b.device_name,
    bytes_cmp_iff a.signing_public_key b.signing_public_key,
    bytes_cmp_iff a.exchange_public_key b.exchange_public_key,
    bytes_cmp_iff a.fingerprint b.fingerprint,
  ),
  λ h. ground (
    arith,
    bytes_cmp_iff a.device_id b.device_id,
    bytes_cmp_iff a.device_name b.device_name,
    bytes_cmp_iff a.signing_public_key b.signing_public_key,
    bytes_cmp_iff a.exchange_public_key b.exchange_public_key,
    bytes_cmp_iff a.fingerprint b.fingerprint,
  ),
)

request_eq_iff : (a b : DeviceJoinRequest) → (request_eq a b ≡ true) ↔ (a ≡ b)
request_eq_iff a b = (
  λ h. ground (
    arith,
    bytes_cmp_iff a.request_id b.request_id,
    bytes_cmp_iff a.workspace_id b.workspace_id,
    record_eq_iff a.device b.device,
    bytes_cmp_iff a.signature b.signature,
  ),
  λ h. ground (
    arith,
    bytes_cmp_iff a.request_id b.request_id,
    bytes_cmp_iff a.workspace_id b.workspace_id,
    record_eq_iff a.device b.device,
    bytes_cmp_iff a.signature b.signature,
  ),
)

-- What an answer to a submission says of the database before and after it
abbrev pub Answered :
    Json → Bytes → DeviceJoinRequest → Database → JoinRequestPutResult → Database → Type 0
Answered json w r before submitted after =
    (get_join_request json w r.request_id before ≡ ok none)
    × (get_join_request json w r.request_id after ≡ ok (some r))
    × ((id : Bytes)
        → id ≢ r.request_id
        → get_join_request json w id after ≡ get_join_request json w id before)
    × (after ≡ record before { join_requests = after.join_requests })
    × (length after.join_requests ≡ suc (length before.join_requests))
Answered json w r before already_pending after =
    (get_join_request json w r.request_id before ≡ ok (some r)) × (after ≡ before)
Answered json w r before conflict after =
    (old : DeviceJoinRequest) × (get_join_request json w r.request_id before ≡ ok (some old))
    × (old ≢ r)
    × (after ≡ before)

length-insert :
    (k : Bytes) (v : JoinRow) (m : BTreeMap Bytes JoinRow)
    → get k m ≡ none
    → length (insert k v m) ≡ suc (length m)
unfolding get insert
length-insert k v [] h = refl
length-insert k v ((j, x) ∷ m) h = ground (arith, length-insert k v m, bytes_cmp_iff k j)

module _ (json : Json) (w : Bytes) (r : DeviceJoinRequest) where
  new_request :
      (db : Database) (row : JoinRow)
      → get r.request_id db.join_requests ≡ none
      → validate_request w r ≡ ok tt
      → json.join_request_from_slice row.request_json ≡ some r
      → Answered json w r db submitted
          (record db { join_requests = insert r.request_id row db.join_requests })
  unfolding get_join_request deserialize_request
  new_request db row free valid back =
      let there = get-insert r.request_id r.request_id row db.join_requests in
      (
        rw free refl,
        ground (arith, there, valid, back, bytes_cmp_iff r.request_id r.request_id),
        λ id off. ground (
          arith,
          get-insert id r.request_id row db.join_requests,
          bytes_cmp_iff id r.request_id,
          off,
        ),
        refl,
        length-insert r.request_id row db.join_requests free,
      )

  existing_request-ok :
      (db : Database) (old : DeviceJoinRequest)
      → existing_request json w r.request_id db ≡ ok old
      → get_join_request json w r.request_id db ≡ ok (some old)
  unfolding get_join_request deserialize_request existing_request
  existing_request-ok db old e = elim (Option-cases (get r.request_id db.join_requests)) [
    | inl (row, there) ↦ elim (Option-cases (json.join_request_from_slice row.request_json)) [
      | inl (found, read) ↦ ground (arith, there, read, e)
      | inr bad ↦ ground (arith, there, bad, e)
    ]
    | inr free ↦ ground (arith, free, e)
  ]

  found_request :
      (db : Database) (e : Result ServerError DeviceJoinRequest)
      → ((old : DeviceJoinRequest)
          → e ≡ ok old
          → get_join_request json w r.request_id db ≡ ok (some old))
      → Settles (Answered json w r db) db (
        Chain.◌>>=◌ e
            (λ existing. ok (if request_eq existing r then already_pending else conflict)),
        db,
      )
  found_request db (err why) h = refl
  found_request db (ok old) h =
      let there = h old refl in
      elim (Bool-cases (request_eq old r)) [
        | inl same ↦ rw same (there ∙ ap (λ x. ok (some x)) ((request_eq_iff old r).0 same), refl)
        | inr differs ↦
            rw differs (old, there, λ e. ground (arith, (request_eq_iff old r).1 e, differs), refl)
      ]

  inserted_request :
      (db : Database) (row : JoinRow) (o : Option JoinRow)
      → get r.request_id db.join_requests ≡ o
      → validate_request w r ≡ ok tt
      → json.join_request_from_slice row.request_json ≡ some r
      → Settles (Answered json w r db) db (
          (insert_request r.request_id row >>= λ affected.
          reads (compare_request json affected w r))
            db)
  unfolding insert_request ◌>>=◌
  inserted_request db row none free valid back = rw free (new_request db row free valid back)
  inserted_request db row (some old) there valid back =
      rw there (found_request db (existing_request json w r.request_id db) (existing_request-ok db))

  -- Submitting a request whose text reads back either answers that it was submitted, where there was
  -- none of its identifier and there is it now, with the other requests and tables unchanged, or that it
  -- is pending already, where it was stored, or a conflict, where another one was, or it fails; and
  -- unless it was submitted, nothing changes.
  pub submit_join_request-Settles :
      (db : Database)
      → ReadsBack json r
      → Settles (Answered json w r db) db (submit_join_request json w r db)
  unfolding submit_join_request
  submit_join_request-Settles db back = Settles-reads _ db _ _ λ checked valid.
      Settles-reads _ db _ _ λ text written. Settles-reads _ db _ _ λ at fits.
        inserted_request db record { request_json = text; created_at = at } _ refl valid
          (back text (ok_or-some _ _ text written))

-- The listed requests are as many as are stored.
length-insert_by_time :
    (row : JoinRow) (rows : List JoinRow) → length (insert_by_time row rows) ≡ suc (length rows)
unfolding insert_by_time
length-insert_by_time row [] = refl
length-insert_by_time row (next ∷ rows) = ground (arith, length-insert_by_time row rows)

length-order_rows : (rows : List JoinRow) → length (order_rows rows) ≡ length rows
unfolding order_rows
length-order_rows [] = refl
length-order_rows (row ∷ rows) =
    length-insert_by_time row (order_rows rows) ∙ ap suc (length-order_rows rows)

length-values : (m : BTreeMap Bytes JoinRow) → length (values m) ≡ length m
length-values [] = refl
length-values (entry ∷ m) = ap suc (length-values m)

length-deserialize_all :
    (json : Json) (w : Bytes) (rows : List JoinRow) (rs : List DeviceJoinRequest)
    → deserialize_all json w rows ≡ ok rs
    → length rs ≡ length rows
unfolding deserialize_all
length-deserialize_all json w [] rs e = ground (arith, e)
length-deserialize_all json w (row ∷ rows) rs e =
    let all = deserialize_all json w rows in
    let (first, read, more) =
      Chain.>>=-eq-ok (λ r. Chain.◌>>=◌ all λ rest. ok (r ∷ rest)) rs
        (deserialize_request json w row.request_json) e in
    let (rest, all_read, last) = Chain.>>=-eq-ok (λ rest. ok (first ∷ rest)) rs all more in
    ground (arith, last, length-deserialize_all json w rows rest all_read)

pub length-list_join_requests :
    (json : Json) (w : Bytes) (db : Database) (rs : List DeviceJoinRequest)
    → list_join_requests json w db ≡ ok rs
    → length rs ≡ length db.join_requests
unfolding list_join_requests
length-list_join_requests json w db rs e =
    length-deserialize_all json w _ rs e ∙ length-order_rows _ ∙ length-values db.join_requests
