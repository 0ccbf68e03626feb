-- ===== src/Server/Database/Access.antt =====
-- `get_access_state`, `create_access_state` and `save_access_state`.
pub mod Stored
use rustsync.Base.{
  ℕ, Bool, true, false, not, if◌then◌else◌, ◌==◌, bytes_ord, Bytes, Option, none, some,
}
use rustsync.Base.Exec.{Exec, Result, ok, err, reject, ok_or, reads, ◌>>=◌, ◌>>◌, pure}
use rustsync.Base.Chain
use rustsync.Server.Error.{ServerError, ServerResult, map_err, access_state_workspace_mismatch}
use rustsync.Server.Error.{invalid_access_state, invalid_stored_access_state_json}
use rustsync.Server.Error.{workspace_already_exists}
use rustsync.Server.Database.Tables.{Database, AccessRow, Json}
use rustsync.Protocol.Device.{Crypto}
use rustsync.Protocol.Access.State.{AccessState, empty}
use rustsync.Protocol.Access.Validation.{validate}

-- `INSERT ... ON CONFLICT(singleton) DO NOTHING`, with whether a row was affected
abbrev insert_row : AccessRow → Option AccessRow → Bool × Option AccessRow
insert_row row none = (true, some row)
insert_row row (some old) = (false, some old)

-- `INSERT ... ON CONFLICT(singleton) DO UPDATE` of the state and of `updated_at`
abbrev upsert_row : AccessRow → Option AccessRow → Option AccessRow
upsert_row row none = some row
upsert_row row (some old) = some record row { created_at = old.created_at }

unfoldable pub insert_access_row : AccessRow → Exec ServerError Database Bool
insert_access_row row db =
    let (affected, stored) = insert_row row db.access_state in
    (ok affected, record db { access_state = stored })

unfoldable pub upsert_access_row : AccessRow → Exec ServerError Database (Unit {0})
upsert_access_row row db = (ok tt, record db { access_state = upsert_row row db.access_state })

module _ (c : Crypto) (json : Json) where
  unfoldable pub validate_state : Bytes → AccessState → ServerResult (Unit {0})
  validate_state workspace s =
      reject (not (s.workspace_id == workspace))
        (access_state_workspace_mismatch workspace s.workspace_id)
        (map_err invalid_access_state (validate c s))

  abbrev read_access_row : Bytes → Option AccessRow → ServerResult AccessState
  read_access_row workspace none = ok (empty workspace)
  read_access_row workspace (some row) =
      Chain.◌>>=◌
        (ok_or (json.access_state_from_slice row.access_state_json)
          invalid_stored_access_state_json)
        λ s. Chain.◌>>◌ (validate_state workspace s) (ok s)

  unfoldable pub get_access_state : Bytes → Database → ServerResult AccessState
  unfolding validate_state
  get_access_state workspace db = read_access_row workspace db.access_state

  unfoldable pub create_access_state :
      (now : ℕ) → Bytes → AccessState → Exec ServerError Database (Unit {0})
  unfolding validate_state insert_access_row
  create_access_state now workspace s = do
    reads λ db. validate_state workspace s
    text ← reads λ db. ok_or (json.access_state_to_vec s) invalid_stored_access_state_json
    affected ←
        insert_access_row record { access_state_json = text; created_at = now; updated_at = now }
    reads λ db. reject (not affected) workspace_already_exists (ok tt)

  unfoldable pub save_access_state :
      (now : ℕ) → Bytes → AccessState → Exec ServerError Database (Unit {0})
  unfolding validate_state upsert_access_row
  save_access_state now workspace s = do
    reads λ db. validate_state workspace s
    text ← reads λ db. ok_or (json.access_state_to_vec s) invalid_stored_access_state_json
    upsert_access_row record { access_state_json = text; created_at = now; updated_at = now }
