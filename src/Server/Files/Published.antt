-- ===== src/Server/Files/Published.antt =====
-- The manifest that `update_head` of the storage moves the head to.
use rustsync.Base.{
  ℕ, Bool, true, false, not, bytes_ord, Bytes, Option, none, some, ◌≡◌, refl, ◌∙◌, arith, length,
}
use rustsync.Base.Exec.{Exec, Result, ok, err, reject, reads, ◌>>=◌, ◌>>◌}
use rustsync.Base.Exec.{Returns, Returns-reads, Returns-bind, Returns-known}
use rustsync.Server.Error.{ServerError, manifest_not_found}
use rustsync.Server.Database.Tables.{Database}
use rustsync.Server.Database.Objects.{StoredObjectKind, manifest, insert_object_if_absent}
use rustsync.Server.Database.Head.{HeadUpdateResult}
use rustsync.Server.Database.Head
use rustsync.Server.Files.{Storage, read_file, on_catalog, matches_id, verify_backfill}
use rustsync.Server.Files.{exists_found, exists_object, update_head}
use rustsync.Server.Files.Kept.{read_file-database}
use rustsync.Core.Reconciliation.State.{WorkspaceHead}
use rustsync.Protocol.Device.{Crypto}

-- There is a file for the identifier, and it has the content that the identifier is the hash of.
pub record IsPublished (c : Crypto) (now : ℕ) (kind : StoredObjectKind) (id : Bytes) (s : Storage)
    : Type 0 where
  pub content : Bytes
  pub file : read_file kind id s ≡ some content
  pub matches : matches_id c now kind id content ≡ true

-- A call on the database leaves the files.
on_catalog-files :
    {A : Type 0} (kind : StoredObjectKind) (id : Bytes) (call : Exec ServerError Database A)
    (s : Storage)
    → read_file kind id (on_catalog call s).1 ≡ read_file kind id s
unfolding on_catalog
on_catalog-files kind id call s = read_file-database kind id s (call s.database).1

Returns-after :
    {A : Type 0} (P : Storage → Type 0) (r : Result ServerError A × Storage)
    → P r.1
    → Returns (λ (a : A) t. P t) r
Returns-after P (ok a, t) h = h
Returns-after P (err e, t) h = tt

module _ (c : Crypto) (now : ℕ) (kind : StoredObjectKind) (id : Bytes) where
  after_catalog :
      {A : Type 0} (call : Exec ServerError Database A) (s : Storage)
      → IsPublished c now kind id s
      → IsPublished c now kind id (on_catalog call s).1
  after_catalog call s here = record {
    content = here.content;
    file = on_catalog-files kind id call s ∙ here.file;
    matches = here.matches;
  }

  -- What an object must be when `exists_object` has found it
  abbrev Found : Bool → Storage → Type 0
  Found true t = IsPublished c now kind id t
  Found false t = Unit {0}

  verify_backfill-Returns :
      (content : Bytes) (s : Storage)
      → read_file kind id s ≡ some content
      → Returns (λ u t. IsPublished c now kind id t) (verify_backfill c now kind id content s)
  unfolding verify_backfill
  verify_backfill-Returns content s file = Returns-reads _ s _ _ λ u same.
      let here : IsPublished c now kind id s = record {
        content = content;
        file = file;
        matches = ground (arith, same);
      } in
      Returns-bind _ (λ row t. IsPublished c now kind id t) s _ _
        (Returns-after (IsPublished c now kind id) _ (
          after_catalog
            (insert_object_if_absent now
              record { object_id = id; kind = kind; encrypted_size = length content })
            s here))
        λ row t there. there

  exists_found-Returns :
      (s : Storage) (o : Option Bytes)
      → read_file kind id s ≡ o
      → Returns Found (exists_found c now kind id o s)
  exists_found-Returns s none free =
      Returns-bind _ (λ (u : Unit {0}) (t : Storage). Unit {0}) s _ _ (Returns-known _ tt)
        λ u t known. tt
  exists_found-Returns s (some content) file =
      Returns-bind _ (λ u t. IsPublished c now kind id t) s _ _
        (verify_backfill-Returns content s file) λ u t here. here

  if_there :
      {A : Type 0} (there : Bool) (call : Exec ServerError Database A) (t : Storage)
      → Found there t
      → Returns
          (λ (a : A) t. IsPublished c now kind id t)
          ((reads (λ s. reject (not there) manifest_not_found (ok tt)) >> on_catalog call) t)
  unfolding ◌>>=◌
  if_there true call t found =
      Returns-after (IsPublished c now kind id) (on_catalog call t) (after_catalog call t found)
  if_there false call t found = tt

-- When the head of a workspace is updated, or the update is answered with a conflict, the manifest
-- that it names is stored, with the content that its identifier is the hash of.
pub update_head-IsPublished :
    (c : Crypto) (now : ℕ) (w : Bytes) (expected_revision : ℕ) (manifest_id : Bytes)
    (updated_by : Option Bytes) (s : Storage)
    → Returns
        (λ (answer : HeadUpdateResult × WorkspaceHead) t. IsPublished c now manifest manifest_id t)
        (update_head c now w expected_revision manifest_id updated_by s)
unfolding update_head exists_object
update_head-IsPublished c now w expected_revision manifest_id updated_by s =
    Returns-bind _ (Found c now manifest manifest_id) s _ _
      (exists_found-Returns c now manifest manifest_id s (read_file manifest manifest_id s) refl)
      λ there t found.
        if_there c now manifest manifest_id there
          (Head.update_head now w expected_revision manifest_id updated_by) t found
