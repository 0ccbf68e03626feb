-- ===== src/Server/Examples/Tables.antt =====
-- Calls on the database of a workspace.
use rustsync.Base.{ℕ, Bytes, bytes, [], ◌∷◌, none, some, ◌≡◌, refl, if◌then◌else◌, ◌==◌}
use rustsync.Base.Map.{get}
use rustsync.Base.Exec.{ok, ◌>>=◌, Settles}
use rustsync.Server.Database.Tables.{new_database, EnvelopeKey, envelope_key_ord, i64_limit}
use rustsync.Server.Database.Head.{updated, conflict, get_head}
use rustsync.Server.Database.Head.Register.{HeadUpdate, IsRequest, Holds, swap, run_update}
use rustsync.Server.Database.Head.Register.{after_updates, update_head-swap, update_head_once}
use rustsync.Server.Database.Envelopes.{created, already_exists, get_key_envelope}
use rustsync.Server.Database.Envelopes.{put_key_envelope}
use rustsync.Server.Database.Envelopes.Register.{Put, run_put, after_puts, put_key_envelope_kept}
use rustsync.Server.Database.Envelopes.Register.{put_key_envelope-write_once, write_once}
use rustsync.Server.Database.Requests.{submit_join_request}
use rustsync.Server.Database.Requests.Pending.{Answered, submit_join_request-Settles}
use rustsync.Server.Database.Access.{save_access_state, create_access_state}
use rustsync.Server.Database.Access.Stored.{Stored, save_access_state-Settles}
use rustsync.Server.Database.Access.Stored.{create_access_state-Settles}
use rustsync.Server.Examples.{home, json, holding, asking}
use rustsync.Server.Examples.Requests.{faithful}
use rustsync.Core.Reconciliation.State.{WorkspaceHead, empty_head}
use rustsync.Protocol.Id.{parse_manifest_id, parse_device_id}
use rustsync.Protocol.Access.Examples.{toy, laptop, founded, granted}

abbrev manifest_id : Bytes
manifest_id = bytes "manifest_0123456789abcdef0123456789abcdef0123456789abcdef0123456789abcdef"

-- An update by the laptop, from a revision
abbrev publish : ℕ → HeadUpdate
publish expected = record {
  now = 1000;
  expected_revision = expected;
  manifest_id = manifest_id;
  updated_by = some laptop.device_id;
}

publish-IsRequest : (n : ℕ) → IsRequest (publish n)
unfolding parse_manifest_id parse_device_id
publish-IsRequest n = record { manifest = refl; device = refl }

new-Holds : Holds home new_database (empty_head home)
unfolding get_head
new-Holds = record { reads_back = refl; written = tt }

update_head-swap_example :
    let (result, after) = run_update home (publish 0) new_database in
    (result ≡ (swap (publish 0) (empty_head home)).0)
    × Holds home after (swap (publish 0) (empty_head home)).1
    × (after ≡ record new_database { workspace_head = after.workspace_head })
update_head-swap_example =
    update_head-swap home (publish 0) new_database (empty_head home) (publish-IsRequest 0) new-Holds

update_head_once_example :
    (current : WorkspaceHead) × ((run_update home (publish 0) (
        after_updates home
          (publish 1 ∷ publish i64_limit ∷ [])
          (run_update home (publish 0) new_database).1)).0
      ≡ ok (conflict, current))
update_head_once_example =
    update_head_once home (publish 0) (publish 0) (publish 1 ∷ publish i64_limit ∷ []) new_database
      (empty_head home) (swap (publish 0) (empty_head home)).1 new-Holds (publish-IsRequest 0)
      (publish-IsRequest 1, (publish-IsRequest i64_limit, tt)) (publish-IsRequest 0) refl
      update_head-swap_first
  where
    update_head-swap_first :
        (run_update home (publish 0) new_database).0
        ≡ ok (updated, (swap (publish 0) (empty_head home)).1)
    update_head-swap_first =
        (update_head-swap home (publish 0) new_database (empty_head home) (publish-IsRequest 0)
          new-Holds).0

abbrev sealing : Put
sealing = record {
  key = record { key_id = bytes "key"; recipient_device_id = laptop.device_id };
  envelope = bytes "sealed";
}

put_key_envelope-write_once_example :
    let db = holding granted in
    let (answer, kept) = write_once sealing.envelope (get sealing.key db.key_envelopes) in
    ((run_put sealing db).0 ≡ ok answer)
    × ((j : EnvelopeKey)
        → get j (run_put sealing db).1.key_envelopes
          ≡ (if j == sealing.key then some kept else get j db.key_envelopes))
    × ((run_put sealing db).1 ≡ record db { key_envelopes = (run_put sealing db).1.key_envelopes })
put_key_envelope-write_once_example = put_key_envelope-write_once sealing (holding granted)

first_put_taken : (run_put sealing new_database).0 ≡ ok created
unfolding put_key_envelope get ◌>>=◌
first_put_taken = refl

put_key_envelope_kept_example :
    let later =
      after_puts
        (record sealing { envelope = bytes "other" } ∷ [])
        (run_put sealing new_database).1 in
    (get_key_envelope sealing.key.key_id sealing.key.recipient_device_id later
      ≡ ok (some sealing.envelope))
    × (run_put sealing later ≡ (ok already_exists, later))
put_key_envelope_kept_example =
    put_key_envelope_kept sealing (record sealing { envelope = bytes "other" } ∷ []) new_database
      created first_put_taken (λ e. cc)

submit_join_request-Settles_example :
    Settles
      (Answered json home asking (holding founded))
      (holding founded)
      (submit_join_request json home asking (holding founded))
submit_join_request-Settles_example =
    submit_join_request-Settles json home asking (holding founded) (faithful.requests asking)

save_access_state-Settles_example :
    Settles
      (λ u after. Stored toy json home granted (holding founded) after)
      (holding founded)
      (save_access_state toy json 1000 home granted (holding founded))
save_access_state-Settles_example =
    save_access_state-Settles toy json 1000 home granted (holding founded) (faithful.states granted)

create_access_state-Settles_example :
    Settles
      (λ u after.
        Stored toy json home founded new_database after × (new_database.access_state ≡ none))
      new_database
      (create_access_state toy json 1000 home founded new_database)
create_access_state-Settles_example =
    create_access_state-Settles toy json 1000 home founded new_database (faithful.states founded)
