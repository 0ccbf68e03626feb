-- ===== src/Server/Database/Objects/Rows.antt =====
-- The rows of the catalog as `query_object_rows` reads them.
use rustsync.Base.{Bool, true, false, ◌==◌, bytes_ord, nat_ord, bytes_cmp_iff}
use rustsync.Base.{
  Bytes, bytes, List, [], ◌∷◌, ◌≡◌, ◌≢◌, refl, sym, ◌∙◌, ap, arith, Bool-cases, inl, inr,
}
use rustsync.Base.Exec.{ok}
use rustsync.Base.Chain
use rustsync.Server.Error.{ServerResult}
use rustsync.Server.Database.Tables.{Database, ObjectRow}
use rustsync.Server.Database.Objects.{
  StoredObjectKind, blob, manifest, kind_eq, kind_text, parse_kind,
}
use rustsync.Server.Database.Objects.{StoredObjectMetadata, StoredObjectRow, object_hash_algorithm}
use rustsync.Server.Database.Objects.{ObjectInsertResult, exact_existing, has_key}
use rustsync.Server.Database.Objects.{where_rows, parse_rows, object_rows_by_id}
use rustsync.Server.Database.Objects.{validate_object_rows}

-- The row for an object
abbrev pub row_of : StoredObjectMetadata → StoredObjectRow
row_of m = record {
  kind = m.kind;
  hash_algorithm = object_hash_algorithm;
  encrypted_size = m.encrypted_size;
}

-- The catalog has the object, as its only row of this identifier and kind.
abbrev pub Catalogued : StoredObjectMetadata → Database → Type 0
Catalogued m db = object_rows_by_id m.kind m.object_id db ≡ ok (row_of m ∷ [])

kind_eq_sound : (a b : StoredObjectKind) → kind_eq a b ≡ true → a ≡ b
kind_eq_sound blob blob e = refl
kind_eq_sound manifest manifest e = refl
kind_eq_sound blob manifest e = cc
kind_eq_sound manifest blob e = cc

kind_eq_refl : (a : StoredObjectKind) → kind_eq a a ≡ true
kind_eq_refl blob = refl
kind_eq_refl manifest = refl

pub validated :
    (m : StoredObjectMetadata) (rows : List StoredObjectRow) (answer : ObjectInsertResult)
    → validate_object_rows m rows ≡ ok answer
    → rows ≡ row_of m ∷ []
unfolding validate_object_rows
validated m [] answer e = ground (arith, e)
validated m (row ∷ next ∷ rows) answer e = ground (arith, e)
validated m (row ∷ []) answer e = ground (
  arith,
  e,
  kind_eq_sound row.kind m.kind,
  bytes_cmp_iff row.hash_algorithm object_hash_algorithm,
)

pub validate_own :
    (m : StoredObjectMetadata) → validate_object_rows m (row_of m ∷ []) ≡ ok exact_existing
unfolding validate_object_rows
validate_own m =
    ground (arith, bytes_cmp_iff object_hash_algorithm object_hash_algorithm, kind_eq_refl m.kind)

parse_kind_text :
    (text : Bytes) (kind : StoredObjectKind) → parse_kind text ≡ ok kind → text ≡ kind_text kind
unfolding parse_kind
parse_kind_text text blob e =
    ground (arith, e, bytes_cmp_iff text (bytes "blob"), bytes_cmp_iff text (bytes "manifest"))
parse_kind_text text manifest e =
    ground (arith, e, bytes_cmp_iff text (bytes "blob"), bytes_cmp_iff text (bytes "manifest"))

parse_rows-cons :
    (row : ObjectRow) (rows : List ObjectRow) (out : List StoredObjectRow)
    → parse_rows (row ∷ rows) ≡ ok out
    → (kind : StoredObjectKind) × (rest : List StoredObjectRow) × (parse_kind row.object_kind
        ≡ ok kind)
      × (record {
        kind = kind;
        hash_algorithm = row.hash_algorithm;
        encrypted_size = row.encrypted_size;
      }
            ∷ rest
          ≡ out)
unfolding parse_rows
parse_rows-cons row rows out e =
    let all_rows = parse_rows rows in
    let next : StoredObjectKind → ServerResult (List StoredObjectRow) = λ kind.
      Chain.◌>>=◌ all_rows λ rest. ok (
        record {
          kind = kind;
          hash_algorithm = row.hash_algorithm;
          encrypted_size = row.encrypted_size;
        }
        ∷ rest) in
    let (kind, parsed, more) = Chain.>>=-eq-ok next out (parse_kind row.object_kind) e in
    let (rest, read, last) =
      Chain.>>=-eq-ok
        (λ rest. ok (
          record {
            kind = kind;
            hash_algorithm = row.hash_algorithm;
            encrypted_size = row.encrypted_size;
          }
          ∷ rest))
        out all_rows more in
    (kind, rest, parsed, cc last)

where_rows-kept :
    (test : ObjectRow → Bool) (row : ObjectRow) (rows : List ObjectRow)
    → test row ≡ true
    → where_rows test (row ∷ rows) ≡ row ∷ where_rows test rows
unfolding where_rows
where_rows-kept test row rows e = rw e refl

pub where_rows-dropped :
    (test : ObjectRow → Bool) (row : ObjectRow) (rows : List ObjectRow)
    → test row ≡ false
    → where_rows test (row ∷ rows) ≡ where_rows test rows
unfolding where_rows
where_rows-dropped test row rows e = rw e refl

has_key_off :
    (kind : StoredObjectKind) (id : Bytes) (row : ObjectRow)
    → (row.object_id == id) ≡ false
    → has_key kind id row ≡ false
has_key_off kind id row e = ground (arith, e)

has_key_on :
    (kind : StoredObjectKind) (id : Bytes) (row : ObjectRow)
    → row.object_kind ≡ kind_text kind
    → (row.object_id == id) ≡ true
    → has_key kind id row ≡ true
has_key_on kind id row k e = ground (arith, e, k, bytes_cmp_iff row.object_kind (kind_text kind))

nothing_parsed :
    (test : ObjectRow → Bool) (row : StoredObjectRow)
    → parse_rows (where_rows test []) ≢ ok (row ∷ [])
unfolding parse_rows where_rows
nothing_parsed test row e = cc

-- An object that is there under its identifier only, and of its kind, is there under both.
pub no_other_kind :
    (m : StoredObjectMetadata) (objects : List ObjectRow)
    → parse_rows (where_rows (has_key m.kind m.object_id) objects) ≡ ok []
    → parse_rows (where_rows (λ row. row.object_id == m.object_id) objects) ≢ ok (row_of m ∷ [])
no_other_kind m [] none_here e = nothing_parsed (λ row. row.object_id == m.object_id) (row_of m) e
no_other_kind m (row ∷ objects) none_here e = elim (Bool-cases (row.object_id == m.object_id)) [
  | inr off ↦
      no_other_kind m objects
        (sym (
            ap parse_rows (
              where_rows-dropped (has_key m.kind m.object_id) row objects
                (has_key_off m.kind m.object_id row off)))
          ∙ none_here)
        (sym (
            ap parse_rows
              (where_rows-dropped (λ row. row.object_id == m.object_id) row objects off))
          ∙ e)
  | inl on ↦
      let (kind, rest, parsed, whole) =
        parse_rows-cons row (where_rows (λ row. row.object_id == m.object_id) objects)
          (row_of m ∷ [])
          (sym
              (ap parse_rows (where_rows-kept (λ row. row.object_id == m.object_id) row objects on))
            ∙ e) in
      let same : kind ≡ m.kind = cc whole in
      let here =
        has_key_on m.kind m.object_id row
          (parse_kind_text row.object_kind m.kind (parsed ∙ ap ok same)) on in
      let (kind_here, rest_here, parsed_here, whole_here) =
        parse_rows-cons row (where_rows (has_key m.kind m.object_id) objects) [] (
          sym (ap parse_rows (where_rows-kept (has_key m.kind m.object_id) row objects here))
          ∙ none_here) in
      cc whole_here
]
