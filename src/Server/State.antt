-- ===== src/Server/State.antt =====
-- `AppState` of `crates/rustsync-server/src/state.rs`, as far as it concerns one workspace: the
-- database of the workspace, which the registry of `storage/indexed_fs.rs` opens, and the replay cache.
use rustsync.Base.Exec.{Exec}
use rustsync.Server.Error.{ServerError}
use rustsync.Server.Database.Tables.{Database}
use rustsync.Server.Replay.{Seen}

pub record ServerState : Type 0 where
  pub database : Database
  pub seen : Seen

abbrev pub Handler : Type 0 → Type 0
Handler A = Exec ServerError ServerState A

-- A call on the database, and a call on the replay cache
unfoldable pub on_database : {A : Type 0} → Exec ServerError Database A → Handler A
on_database call s =
    let (result, after) = call s.database in (result, record s { database = after })

unfoldable pub on_seen : {A : Type 0} → Exec ServerError Seen A → Handler A
on_seen call s = let (result, after) = call s.seen in (result, record s { seen = after })
