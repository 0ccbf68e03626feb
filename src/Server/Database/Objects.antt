-- ===== src/Server/Database/Objects.antt =====
-- The catalog of objects: `insert_object_if_absent`, `get_object_metadata` and what they call. A
-- size is no negative number here, so `to_u64` is left out.
pub mod Catalog
pub mod Rows
use rustsync.Base.{ℕ, Bool, true, false, not, ◌&&◌, if◌then◌else◌, ◌==◌, bytes_ord, nat_ord}
use rustsync.Base.{Bytes, bytes, List, [], ◌∷◌, length, all, is_empty, Option, none, some}
use rustsync.Base.Exec.{Exec, Result, ok, err, reject, reads, ◌>>=◌}
use rustsync.Base.Chain
use rustsync.Server.Error.{ServerError, ServerResult, corrupt_database, unknown_object_kind}
use rustsync.Server.Error.{storage_corruption, bad_catalog, wrong_kind, object_size}
use rustsync.Server.Database.Tables.{Database, ObjectRow, to_i64}

pub data StoredObjectKind : Type 0 where
  blob manifest : StoredObjectKind

-- The derived `==`
abbrev pub kind_eq : StoredObjectKind → StoredObjectKind → Bool
kind_eq blob blob = true
kind_eq manifest manifest = true
kind_eq _ _ = false

-- `StoredObjectKind::as_str`
abbrev pub kind_text : StoredObjectKind → Bytes
kind_text blob = bytes "blob"
kind_text manifest = bytes "manifest"

-- `StoredObjectKind::parse`
unfoldable pub parse_kind : Bytes → ServerResult StoredObjectKind
parse_kind value =
    if value == bytes "blob"
    then ok blob
    else if value == bytes "manifest"
    then ok manifest
    else err (corrupt_database unknown_object_kind)

pub record StoredObjectMetadata : Type 0 where
  pub object_id : Bytes
  pub kind : StoredObjectKind
  pub encrypted_size : ℕ

pub data ObjectInsertResult : Type 0 where
  inserted exact_existing : ObjectInsertResult

pub record StoredObjectRow : Type 0 where
  pub kind : StoredObjectKind
  pub hash_algorithm : Bytes
  pub encrypted_size : ℕ

abbrev pub object_hash_algorithm : Bytes
object_hash_algorithm = bytes "sha256"

-- `WHERE`
unfoldable pub where_rows : (ObjectRow → Bool) → List ObjectRow → List ObjectRow
where_rows test [] = []
where_rows test (row ∷ rows) =
    let rest = where_rows test rows in if test row then row ∷ rest else rest

unfoldable pub parse_rows : List ObjectRow → ServerResult (List StoredObjectRow)
unfolding parse_kind
parse_rows [] = ok []
parse_rows (row ∷ rows) = Chain.◌>>=◌ (parse_kind row.object_kind) λ kind.
    Chain.◌>>=◌ (parse_rows rows) λ rest. ok (
      record {
        kind = kind;
        hash_algorithm = row.hash_algorithm;
        encrypted_size = row.encrypted_size;
      }
      ∷ rest)

abbrev pub has_key : StoredObjectKind → Bytes → ObjectRow → Bool
has_key kind object_id row = row.object_kind == kind_text kind && row.object_id == object_id

unfoldable pub object_rows_by_id :
    StoredObjectKind → Bytes → Database → ServerResult (List StoredObjectRow)
unfolding where_rows parse_rows
object_rows_by_id kind object_id db = parse_rows (where_rows (has_key kind object_id) db.objects)

unfoldable pub object_rows_by_object_id : Bytes → Database → ServerResult (List StoredObjectRow)
unfolding where_rows parse_rows
object_rows_by_object_id object_id db =
    parse_rows (where_rows (λ row. row.object_id == object_id) db.objects)

unfoldable pub validate_object_rows :
    StoredObjectMetadata → List StoredObjectRow → ServerResult ObjectInsertResult
validate_object_rows metadata rows =
    if length rows == 1
      && all
          (λ (row : StoredObjectRow).
            kind_eq row.kind metadata.kind
            && row.encrypted_size == metadata.encrypted_size
            && row.hash_algorithm == object_hash_algorithm)
          rows
    then ok exact_existing
    else err (storage_corruption bad_catalog)

-- `INSERT ... ON CONFLICT(object_kind,object_id) DO NOTHING`
unfoldable pub insert_object : ObjectRow → Exec ServerError Database Bool
unfolding where_rows
insert_object row db =
    if is_empty (
      where_rows (λ old. old.object_kind == row.object_kind && old.object_id == row.object_id)
        db.objects)
    then (ok true, record db { objects = row ∷ db.objects })
    else (ok false, db)

-- What the insertion comes to, when no row of the identifier was there before it
unfoldable pub insert_new :
    (now size : ℕ) → StoredObjectMetadata → Exec ServerError Database ObjectInsertResult
unfolding insert_object object_rows_by_id validate_object_rows
insert_new now size metadata = do
  affected ← insert_object record {
    object_id = metadata.object_id;
    object_kind = kind_text metadata.kind;
    hash_algorithm = object_hash_algorithm;
    encrypted_size = size;
    created_at = now;
  }
  rows ← reads (object_rows_by_id metadata.kind metadata.object_id)
  outcome ← reads λ db. validate_object_rows metadata rows
  reads λ db. ok (if affected then inserted else outcome)

abbrev validate_or :
    StoredObjectMetadata
    → List StoredObjectRow
    → Exec ServerError Database ObjectInsertResult
    → Exec ServerError Database ObjectInsertResult
validate_or metadata [] rest = rest
validate_or metadata (row ∷ rows) rest = reads λ db. validate_object_rows metadata (row ∷ rows)

unfoldable pub insert_object_if_absent :
    (now : ℕ) → StoredObjectMetadata → Exec ServerError Database ObjectInsertResult
unfolding object_rows_by_id object_rows_by_object_id validate_object_rows insert_new
insert_object_if_absent now metadata = do
  size ← reads λ db. to_i64 metadata.encrypted_size object_size
  existing ← reads (object_rows_by_id metadata.kind metadata.object_id)
  validate_or metadata existing do
    conflicting ← reads (object_rows_by_object_id metadata.object_id)
    validate_or metadata conflicting (insert_new now size metadata)

abbrev metadata_of :
    StoredObjectKind
    → Bytes
    → List StoredObjectRow
    → ServerResult (List StoredObjectRow)
    → ServerResult (Option StoredObjectMetadata)
metadata_of kind object_id [] conflicting =
    Chain.◌>>=◌ conflicting
      λ rows. if is_empty rows then ok none else err (storage_corruption wrong_kind)
metadata_of kind object_id (row ∷ []) conflicting =
    if kind_eq row.kind kind && row.hash_algorithm == object_hash_algorithm
    then ok (
        some record { object_id = object_id; kind = row.kind; encrypted_size = row.encrypted_size })
    else err (storage_corruption bad_catalog)
metadata_of kind object_id (row ∷ next ∷ rows) conflicting = err (storage_corruption bad_catalog)

unfoldable pub get_object_metadata :
    StoredObjectKind → Bytes → Database → ServerResult (Option StoredObjectMetadata)
unfolding object_rows_by_id object_rows_by_object_id
get_object_metadata kind object_id db =
    Chain.◌>>=◌ (object_rows_by_id kind object_id db)
      λ rows. metadata_of kind object_id rows (object_rows_by_object_id object_id db)
