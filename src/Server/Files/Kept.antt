-- ===== src/Server/Files/Kept.antt =====
-- The file of an object, and its row of the catalog, through puts.
use rustsync.Base.{ℕ, ◌<◌, Bool, true, bytes_ord, bytes_cmp_iff, Bytes, List, [], ◌∷◌, length}
use rustsync.Base.{
  Option, none, some, ◌≡◌, refl, sym, ◌∙◌, ap, subst, arith, Option-cases, inl, inr,
}
use rustsync.Base.Map.{BTreeMap, get, insert, get-insert}
use rustsync.Base.Keeps.{IsPreorder, Keeps-reads, Keeps-bind}
use rustsync.Base.Exec.{Result, ok, err, >>=-of_ok, ok_or}
use rustsync.Base.Exec.{
  Returns, Returns-reads, Returns-bind, Returns-read, Returns-ok, Returns-known, ok_or-some,
}
use rustsync.Server.Error.{ServerError, storage}
use rustsync.Server.Database.Tables.{Database, i64_limit}
use rustsync.Server.Database.Objects.{StoredObjectKind, blob, manifest, StoredObjectMetadata}
use rustsync.Server.Database.Objects.{ObjectInsertResult, exact_existing, insert_object_if_absent}
use rustsync.Server.Database.Objects.Rows.{Catalogued}
use rustsync.Server.Database.Objects.Catalog.{insert_object_if_absent-Catalogued}
use rustsync.Server.Database.Objects.Catalog.{insert_object_if_absent-again}
use rustsync.Server.Database.Objects.Catalog.{insert_object_if_absent-KeepsRow}
use rustsync.Server.Database.Envelopes.{PutResult}
use rustsync.Server.Files.{Storage, read_file, put_file, write_new, on_catalog}
use rustsync.Server.Files.{canonical_file, matches_id, put_object, put_content}
use rustsync.Server.Files.{get_content, get_object, verify_backfill}
use rustsync.Protocol.Device.{Crypto}

-- One object, as a client puts it
pub record Object : Type 0 where
  pub kind : StoredObjectKind
  pub id : Bytes
  pub content : Bytes

abbrev pub metadata : Object → StoredObjectMetadata
metadata o = record { object_id = o.id; kind = o.kind; encrypted_size = length o.content }

-- The storage has the object: its file, with its content, whose hash is the identifier, and its row.
pub record Has (c : Crypto) (now : ℕ) (o : Object) (s : Storage) : Type 0 where
  pub file : read_file o.kind o.id s ≡ some o.content
  pub matches : matches_id c now o.kind o.id o.content ≡ true
  pub row : Catalogued (metadata o) s.database
  pub fits : length o.content < i64_limit

read_file-put_file :
    (o : Object) (s : Storage)
    → read_file o.kind o.id (put_file o.kind o.id o.content s) ≡ some o.content
unfolding read_file put_file
read_file-put_file o s = ground (
  arith,
  get-insert o.id o.id o.content s.blobs,
  get-insert o.id o.id o.content s.manifests,
  bytes_cmp_iff o.id o.id,
)

get-insert_free :
    (i j x y : Bytes) (m : BTreeMap Bytes Bytes)
    → get i m ≡ some x
    → get j m ≡ none
    → get i (insert j y m) ≡ some x
get-insert_free i j x y m h free = ground (arith, get-insert i j y m, h, free, bytes_cmp_iff i j)

put_file_kept :
    (k l : StoredObjectKind) (i j x y : Bytes) (s : Storage)
    → read_file k i s ≡ some x
    → read_file l j s ≡ none
    → read_file k i (put_file l j y s) ≡ some x
unfolding read_file put_file
put_file_kept blob blob i j x y s h free = get-insert_free i j x y s.blobs h free
put_file_kept manifest manifest i j x y s h free = get-insert_free i j x y s.manifests h free
put_file_kept blob manifest i j x y s h free = h
put_file_kept manifest blob i j x y s h free = h

put_file-database :
    (k : StoredObjectKind) (i x : Bytes) (s : Storage) → (put_file k i x s).database ≡ s.database
unfolding put_file
put_file-database blob i x s = refl
put_file-database manifest i x s = refl

pub read_file-database :
    (k : StoredObjectKind) (i : Bytes) (s : Storage) (d : Database)
    → read_file k i (record s { database = d }) ≡ read_file k i s
unfolding read_file
read_file-database blob i s d = refl
read_file-database manifest i s d = refl

module _ (c : Crypto) (now : ℕ) (o : Object) where
  -- An object that the storage has stays.
  pub record KeepsObject (s t : Storage) : Type 0 where
    pub kept : Has c now o s → Has c now o t

  pub KeepsObject-IsPreorder : IsPreorder KeepsObject
  KeepsObject-IsPreorder = record {
    same = λ s. record { kept = λ h. h };
    further = λ s t u p q. record { kept = λ h. q.kept (p.kept h) };
  }

  catalog-KeepsObject :
      (later : ℕ) (m : StoredObjectMetadata) (s : Storage)
      → KeepsObject s (on_catalog (insert_object_if_absent later m) s).1
  unfolding on_catalog
  catalog-KeepsObject later m s = record {
    kept = λ has. record {
      file = read_file-database o.kind o.id s _ ∙ has.file;
      matches = has.matches;
      row = (insert_object_if_absent-KeepsRow (metadata o) later m s.database).kept has.row;
      fits = has.fits;
    };
  }

  write_new-KeepsObject :
      (p : Object) (s : Storage) → KeepsObject s (write_new p.kind p.id p.content s).1
  unfolding write_new
  write_new-KeepsObject p s = elim (Option-cases (read_file p.kind p.id s)) [
    | inl (old, there) ↦ rw there (record { kept = λ h. h })
    | inr free ↦ rw free (record {
      kept = λ has. record {
        file = put_file_kept o.kind p.kind o.id p.id o.content p.content s has.file free;
        matches = has.matches;
        row =
            subst (Catalogued (metadata o)) (sym (put_file-database p.kind p.id p.content s))
              has.row;
        fits = has.fits;
      };
    })
  ]

  canonical_file-KeepsObject :
      (p : Object) (s : Storage) (found : Option Bytes)
      → KeepsObject s (canonical_file p.kind p.id p.content found s).1
  canonical_file-KeepsObject p s (some existing) = KeepsObject-IsPreorder.same s
  canonical_file-KeepsObject p s none =
      Keeps-bind KeepsObject KeepsObject-IsPreorder s _ _ (write_new-KeepsObject p s)
        λ fresh e. KeepsObject-IsPreorder.same _

  put_content-KeepsObject :
      (later : ℕ) (p : Object) (s : Storage)
      → KeepsObject s (put_content c later p.kind p.id p.content s).1
  unfolding put_content put_object
  put_content-KeepsObject later p s =
      let q = KeepsObject-IsPreorder in
      Keeps-reads KeepsObject q s _ _ λ u named.
        Keeps-bind KeepsObject q s _ _ (canonical_file-KeepsObject p s (read_file p.kind p.id s))
          λ canonical e. Keeps-reads KeepsObject q _ _ _ λ u same.
            Keeps-bind KeepsObject q _ _ _ (catalog-KeepsObject later _ _) λ row e. q.same _

  canonical_file-Returns :
      (s : Storage) (found : Option Bytes)
      → read_file o.kind o.id s ≡ found
      → Returns
          (λ canonical t. read_file o.kind o.id t ≡ some canonical)
          (canonical_file o.kind o.id o.content found s)
  canonical_file-Returns s (some existing) there = there
  canonical_file-Returns s none free =
      Returns-bind _ (λ (fresh : Bool) (t : Storage). Unit {0}) s _ _ (Returns-known _ tt)
        λ fresh t known.
          Returns-read _ (ok_or (read_file o.kind o.id t) storage) t
            λ canonical read. ok_or-some (read_file o.kind o.id t) storage canonical read

  lift_catalog :
      (s : Storage) (r : Result ServerError ObjectInsertResult × Database)
      → read_file o.kind o.id s ≡ some o.content
      → matches_id c now o.kind o.id o.content ≡ true
      → Returns (λ answer d. Catalogued (metadata o) d × (length o.content < i64_limit)) r
      → Returns
          (λ (answer : ObjectInsertResult) t. Has c now o t)
          (r.0, record s { database = r.1 })
  lift_catalog s (ok answer, d) file matches (row, fits) = record {
    file = read_file-database o.kind o.id s d ∙ file;
    matches = matches;
    row = row;
    fits = fits;
  }
  lift_catalog s (err e, d) file matches h = tt

  -- The catalog's part of a put
  catalog-Has :
      (s : Storage) (canonical : Bytes)
      → read_file o.kind o.id s ≡ some canonical
      → canonical ≡ o.content
      → matches_id c now o.kind o.id canonical ≡ true
      → Returns
          (λ (answer : ObjectInsertResult) t. Has c now o t)
          (on_catalog
            (insert_object_if_absent now
              record { object_id = o.id; kind = o.kind; encrypted_size = length canonical })
            s)
  unfolding on_catalog
  catalog-Has s canonical file same matches =
      subst
        (λ x.
          Returns (λ (answer : ObjectInsertResult) t. Has c now o t)
            (on_catalog
              (insert_object_if_absent now
                record { object_id = o.id; kind = o.kind; encrypted_size = length x })
              s))
        (sym same)
        (lift_catalog s (insert_object_if_absent now (metadata o) s.database) (file ∙ ap some same)
          (subst (λ x. matches_id c now o.kind o.id x ≡ true) same matches)
          (insert_object_if_absent-Catalogued now (metadata o) s.database))

  -- What a put that succeeds leaves
  put_content-Has :
      (s : Storage)
      → Returns (λ answer t. Has c now o t) (put_content c now o.kind o.id o.content s)
  unfolding put_content put_object
  put_content-Has s = Returns-reads _ s _ _ λ u named.
      Returns-bind _ (λ canonical t. read_file o.kind o.id t ≡ some canonical) s _ _
        (canonical_file-Returns s (read_file o.kind o.id s) refl)
        λ canonical t read. Returns-reads _ t _ _ λ u same.
          let (is_content, matches) : (canonical ≡ o.content)
              × (matches_id c now o.kind o.id canonical ≡ true) =
            ground (arith, same, bytes_cmp_iff canonical o.content) in
          Returns-bind _ (λ (answer : ObjectInsertResult) t. Has c now o t) t _ _
            (catalog-Has t canonical read is_content matches) λ row t has. has

  verify_backfill-Has :
      (s : Storage) → Has c now o s → verify_backfill c now o.kind o.id o.content s ≡ (ok tt, s)
  unfolding verify_backfill on_catalog
  verify_backfill-Has s has = >>=-of_ok _ _ s tt s (rw has.matches refl) (
      >>=-of_ok _ _ s exact_existing s
        (ap
          (λ (r : Result ServerError ObjectInsertResult × Database).
            (r.0, record s { database = r.1 }))
          (insert_object_if_absent-again now (metadata o) s.database has.row has.fits))
        refl)

  get_content-Has :
      (s : Storage) → Has c now o s → get_content c now o.kind o.id s ≡ (ok o.content, s)
  unfolding get_content get_object
  get_content-Has s has = rw has.file (>>=-of_ok _ _ s tt s (verify_backfill-Has s has) refl)

-- The storage after puts of any clients
abbrev pub after_objects : Crypto → ℕ → List Object → Storage → Storage
after_objects c now [] s = s
after_objects c now (p ∷ ps) s =
    after_objects c now ps (put_content c now p.kind p.id p.content s).1

after_objects-KeepsObject :
    (c : Crypto) (now : ℕ) (o : Object) (ps : List Object) (s : Storage)
    → KeepsObject c now o s (after_objects c now ps s)
after_objects-KeepsObject c now o [] s = (KeepsObject-IsPreorder c now o).same s
after_objects-KeepsObject c now o (p ∷ ps) s =
    let t = (put_content c now p.kind p.id p.content s).1 in
    (KeepsObject-IsPreorder c now o).further s t (after_objects c now ps t)
      (put_content-KeepsObject c now o now p s) (after_objects-KeepsObject c now o ps t)

-- Once an object was put, getting it gives its content and changes nothing, whatever objects were put
-- after it.
pub get_content-put_content :
    (c : Crypto) (now : ℕ) (o : Object) (ps : List Object) (s t : Storage) (answer : PutResult)
    → put_content c now o.kind o.id o.content s ≡ (ok answer, t)
    → let later = after_objects c now ps t in
      get_content c now o.kind o.id later ≡ (ok o.content, later)
get_content-put_content c now o ps s t answer put =
    let has = Returns-ok (λ answer t. Has c now o t) _ answer t put (put_content-Has c now o s) in
    get_content-Has c now o (after_objects c now ps t)
      ((after_objects-KeepsObject c now o ps t).kept has)
