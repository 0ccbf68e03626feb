-- ===== src/Server/Examples/Files.antt =====
-- Objects of a workspace, put and read.
use rustsync.Base.{bytes, [], ◌∷◌, some, ◌≡◌, refl, bytes_cmp}
use rustsync.Base.Map.{get, insert}
use rustsync.Base.Exec.{Result, ok, ◌>>=◌, Returns}
use rustsync.Server.Database.Tables.{new_database, to_i64}
use rustsync.Server.Database.Objects.{blob, manifest, insert_object_if_absent, parse_kind}
use rustsync.Server.Database.Head.{HeadUpdateResult, updated}
use rustsync.Server.Database.Head
use rustsync.Server.Error.{ServerError}
use rustsync.Protocol.Id.{parse_manifest_id, parse_device_id}
use rustsync.Server.Database.Envelopes.{created}
use rustsync.Server.Files.{Storage, put_content, get_content, update_head}
use rustsync.Server.Files.Kept.{Object, after_objects, get_content-put_content}
use rustsync.Server.Files.Published.{IsPublished, update_head-IsPublished}
use rustsync.Server.Examples.{home}
use rustsync.Core.Reconciliation.State.{WorkspaceHead}
use rustsync.Protocol.Auth.{sha256_hex}
use rustsync.Protocol.Access.Examples.{toy, laptop}

abbrev empty_storage : Storage
empty_storage = record { blobs = []; manifests = []; database = new_database }

abbrev note : Object
note = record { kind = blob; id = bytes "blob_41"; content = bytes "A" }

-- A manifest of 32 bytes, and its identifier
abbrev listing : Object
listing = record {
  kind = manifest;
  id = bytes "manifest_303132333435363738396162636465666768696a6b6c6d6e6f70717273747576";
  content = bytes "0123456789abcdefghijklmnopqrstuv";
}

abbrev with_note : Storage
with_note = (put_content toy 1000 note.kind note.id note.content empty_storage).1

note_put :
    put_content toy 1000 note.kind note.id note.content empty_storage ≡ (ok created, with_note)
unfolding put_content ◌>>=◌ get insert bytes_cmp parse_kind sha256_hex insert_object_if_absent
    to_i64
note_put = refl

get_content-put_content_example :
    let later = after_objects toy 1000 (listing ∷ []) with_note in
    get_content toy 1000 note.kind note.id later ≡ (ok note.content, later)
get_content-put_content_example =
    get_content-put_content toy 1000 note (listing ∷ []) empty_storage with_note created note_put

abbrev published : Storage
published = (put_content toy 1000 listing.kind listing.id listing.content with_note).1

-- The laptop moves the head from nothing to the manifest.
abbrev moving : Result ServerError (HeadUpdateResult × WorkspaceHead) × Storage
moving = update_head toy 1000 home 0 listing.id (some laptop.device_id) published

head_moved :
    moving.0
    ≡ ok (
      updated,
      record {
        workspace_id = home;
        manifest_id = some listing.id;
        revision = 1;
        updated_by = some laptop.device_id;
        updated_at = some 1000;
      },
    )
unfolding put_content update_head ◌>>=◌ get insert bytes_cmp parse_kind sha256_hex
    insert_object_if_absent to_i64 Head.update_head parse_manifest_id parse_device_id
head_moved = refl

update_head-IsPublished_example :
    Returns
      (λ (answer : HeadUpdateResult × WorkspaceHead) t. IsPublished toy 1000 manifest listing.id t)
      moving
update_head-IsPublished_example =
    update_head-IsPublished toy 1000 home 0 listing.id (some laptop.device_id) published
