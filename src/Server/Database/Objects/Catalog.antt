-- ===== src/Server/Database/Objects/Catalog.antt =====
-- The row that the catalog has for an object, through insertions.
use rustsync.Base.{ℕ, Bool, true, ◌&&◌, ◌==◌, bytes_ord, nat_ord, bytes_cmp_iff}
use rustsync.Base.{
  List, [], ◌∷◌, is_empty, ◌≡◌, ◌≢◌, ◌∙◌, ap, subst, arith, ◌<◌, Bool-cases, inl, inr,
}
use rustsync.Base.Exec.{
  >>=-of_ok, Exec, ok, reads, ◌>>=◌, Returns, Returns-reads, Returns-bind, Returns-read,
  Returns-known, Returns-mono,
}
use rustsync.Base.Keeps.{IsPreorder, Keeps-reads, Keeps-bind}
use rustsync.Server.Error.{ServerError, object_size}
use rustsync.Server.Database.Tables.{Database, ObjectRow, to_i64, i64_limit}
use rustsync.Server.Database.Objects.{kind_text}
use rustsync.Server.Database.Objects.{StoredObjectMetadata, StoredObjectRow}
use rustsync.Server.Database.Objects.{ObjectInsertResult, exact_existing, has_key}
use rustsync.Server.Database.Objects.{where_rows, parse_rows, object_rows_by_id, validate_or}
use rustsync.Server.Database.Objects.{object_rows_by_object_id, insert_object}
use rustsync.Server.Database.Objects.{insert_new, insert_object_if_absent}
use rustsync.Server.Database.Objects.Rows.{
  row_of, Catalogued, validated, validate_own, where_rows-dropped, no_other_kind,
}

fits_to_i64 : (v : ℕ) → v < i64_limit → to_i64 v object_size ≡ ok v
unfolding to_i64
fits_to_i64 v h = ground (arith, h)

-- A computation on the catalog that succeeds has left the object there, and none loses one.
module _ (now : ℕ) (m : StoredObjectMetadata) where
  insert_new-Catalogued :
      (size : ℕ) (db : Database)
      → Returns (λ answer after. Catalogued m after) (insert_new now size m db)
  unfolding insert_new
  insert_new-Catalogued size db =
      Returns-bind _ (λ (affected : Bool) (t : Database). Unit {0}) db _ _ (Returns-known _ tt)
        λ affected t known. Returns-reads _ t _ _ λ rows read.
          Returns-reads _ t _ _
            λ outcome accepted. (read ∙ ap ok (validated m rows outcome accepted))

  conflict_case :
      (size : ℕ) (db : Database) (conflicting : List StoredObjectRow)
      → object_rows_by_id m.kind m.object_id db ≡ ok []
      → object_rows_by_object_id m.object_id db ≡ ok conflicting
      → Returns
          (λ answer after. Catalogued m after)
          (validate_or m conflicting (insert_new now size m) db)
  unfolding object_rows_by_id object_rows_by_object_id
  conflict_case size db [] none_here read = insert_new-Catalogued size db
  conflict_case size db (row ∷ rows) none_here read = Returns-read _ _ db λ answer accepted.
      absurd (
        no_other_kind m db.objects none_here
          (read ∙ ap ok (validated m (row ∷ rows) answer accepted)))

  existing_case :
      (size : ℕ) (db : Database) (existing : List StoredObjectRow)
      → object_rows_by_id m.kind m.object_id db ≡ ok existing
      → Returns
          (λ answer after. Catalogued m after)
          (validate_or m existing
            (reads (object_rows_by_object_id m.object_id) >>= λ conflicting.
              validate_or m conflicting (insert_new now size m))
            db)
  existing_case size db [] read =
      Returns-reads _ db _ _
        λ conflicting also_read. conflict_case size db conflicting read also_read
  existing_case size db (row ∷ rows) read =
      Returns-read _ _ db
        λ answer accepted. (read ∙ ap ok (validated m (row ∷ rows) answer accepted))

  to_i64-fits : (n : ℕ) (v : ℕ) → to_i64 v object_size ≡ ok n → v < i64_limit
  unfolding to_i64
  to_i64-fits n v e = ground (arith, e)

  pub insert_object_if_absent-Catalogued :
      (db : Database)
      → Returns
          (λ answer after. Catalogued m after × (m.encrypted_size < i64_limit))
          (insert_object_if_absent now m db)
  unfolding insert_object_if_absent
  insert_object_if_absent-Catalogued db = Returns-reads _ db _ _ λ size fits.
      Returns-reads _ db _ _ λ existing read.
        Returns-mono (λ answer after. Catalogued m after)
          (λ answer after. Catalogued m after × (m.encrypted_size < i64_limit)) _
          (λ answer after there. (there, to_i64-fits size m.encrypted_size fits))
          (existing_case size db existing read)

  -- An object that is there is found, and nothing changes.
  pub insert_object_if_absent-again :
      (db : Database)
      → Catalogued m db
      → m.encrypted_size < i64_limit
      → insert_object_if_absent now m db ≡ (ok exact_existing, db)
  unfolding insert_object_if_absent
  insert_object_if_absent-again db there fits =
      >>=-of_ok _ _ db m.encrypted_size db (ap (λ r. (r, db)) (fits_to_i64 m.encrypted_size fits)) (
        >>=-of_ok _ _ db (row_of m ∷ []) db (ap (λ r. (r, db)) there)
          (ap (λ r. (r, db)) (validate_own m)))

unparsed :
    (rows : List ObjectRow) (row : StoredObjectRow)
    → is_empty rows ≡ true
    → parse_rows rows ≢ ok (row ∷ [])
unfolding parse_rows
unparsed [] row e h = cc h
unparsed (old ∷ rows) row e h = cc e

-- The row of another object is kept.
pub record KeepsRow (k : StoredObjectMetadata) (s t : Database) : Type 0 where
  pub kept : Catalogued k s → Catalogued k t

KeepsRow-IsPreorder : (k : StoredObjectMetadata) → IsPreorder (KeepsRow k)
KeepsRow-IsPreorder k = record {
  same = λ s. record { kept = λ h. h };
  further = λ s t u p q. record { kept = λ h. q.kept (p.kept h) };
}

module _ (k : StoredObjectMetadata) where
  beside :
      (row : ObjectRow) (db : Database)
      → is_empty (
          where_rows
            (λ old. old.object_kind == row.object_kind && old.object_id == row.object_id)
            db.objects)
        ≡ true
      → Catalogued k db
      → Catalogued k (record db { objects = row ∷ db.objects })
  unfolding object_rows_by_id
  beside row db free h = elim (Bool-cases (has_key k.kind k.object_id row)) [
    | inr off ↦
        ap parse_rows (where_rows-dropped (has_key k.kind k.object_id) row db.objects off) ∙ h
    | inl on ↦
        let (kind, id) : (row.object_kind ≡ kind_text k.kind) × (row.object_id ≡ k.object_id) =
          ground (
            arith,
            on,
            bytes_cmp_iff row.object_kind (kind_text k.kind),
            bytes_cmp_iff row.object_id k.object_id,
          ) in
        let same : is_empty (where_rows (has_key k.kind k.object_id) db.objects) ≡ true =
          subst (λ i. is_empty (where_rows (has_key k.kind i) db.objects) ≡ true) id
            (subst
              (λ t.
                is_empty (
                  where_rows (λ old. old.object_kind == t && old.object_id == row.object_id)
                    db.objects)
                ≡ true)
              kind free) in
        absurd (unparsed _ (row_of k) same h)
  ]

  insert_object-KeepsRow :
      (row : ObjectRow) (db : Database) → KeepsRow k db (insert_object row db).1
  unfolding insert_object
  insert_object-KeepsRow row db =
      elim (Bool-cases (
        is_empty (
          where_rows (λ old. old.object_kind == row.object_kind && old.object_id == row.object_id)
            db.objects))) [
              | inr there ↦ rw there (record { kept = λ h. h })
              | inl free ↦ rw free (record { kept = λ h. beside row db free h })
            ]

  insert_new-KeepsRow :
      (now size : ℕ) (m : StoredObjectMetadata) (db : Database)
      → KeepsRow k db (insert_new now size m db).1
  unfolding insert_new
  insert_new-KeepsRow now size m db =
      let p = KeepsRow-IsPreorder k in
      Keeps-bind (KeepsRow k) p db _ _ (insert_object-KeepsRow _ db) λ affected e.
        Keeps-reads (KeepsRow k) p _ _ _
          λ rows read. Keeps-reads (KeepsRow k) p _ _ _ λ outcome accepted. p.same _

  validate_or-KeepsRow :
      (m : StoredObjectMetadata) (rows : List StoredObjectRow)
      (rest : Exec ServerError Database ObjectInsertResult) (db : Database)
      → KeepsRow k db (rest db).1
      → KeepsRow k db (validate_or m rows rest db).1
  validate_or-KeepsRow m [] rest db h = h
  validate_or-KeepsRow m (row ∷ rows) rest db h = record { kept = λ there. there }

  pub insert_object_if_absent-KeepsRow :
      (now : ℕ) (m : StoredObjectMetadata) (db : Database)
      → KeepsRow k db (insert_object_if_absent now m db).1
  unfolding insert_object_if_absent
  insert_object_if_absent-KeepsRow now m db =
      let p = KeepsRow-IsPreorder k in
      Keeps-reads (KeepsRow k) p db _ _ λ size fits.
        Keeps-reads (KeepsRow k) p db _ _ λ existing read. validate_or-KeepsRow m existing _ db (
          Keeps-reads (KeepsRow k) p db _ _ λ conflicting also_read.
            validate_or-KeepsRow m conflicting _ db (insert_new-KeepsRow now size m db))
