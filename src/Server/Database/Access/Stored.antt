-- ===== src/Server/Database/Access/Stored.antt =====
-- What the calls on the access state leave, read back by `get_access_state`.
use rustsync.Base.{
  ℕ, true, not, bytes_ord, Bytes, Option, none, some, ◌≡◌, refl, arith, bytes_cmp_iff,
}
use rustsync.Base.Exec.{ok, ◌>>=◌, Settles, Settles-reads, ok_or-some, reject, reads}
use rustsync.Server.Error.{workspace_already_exists}
use rustsync.Server.Database.Tables.{Database, AccessRow, Json}
use rustsync.Server.Database.Access.{validate_state, get_access_state, create_access_state}
use rustsync.Server.Database.Access.{save_access_state, insert_access_row, upsert_access_row}
use rustsync.Protocol.Device.{Crypto}
use rustsync.Protocol.Access.State.{AccessState, is_some}
use rustsync.Protocol.Access.Validation.{validate}

-- What is written for a state is read back as it.
abbrev pub ReadsBack : Json → AccessState → Type 0
ReadsBack json s =
    (text : Bytes)
    → json.access_state_to_vec s ≡ some text
    → json.access_state_from_slice text ≡ some s

-- What a call that stores a state has left
abbrev pub Stored : Crypto → Json → Bytes → AccessState → Database → Database → Type 0
Stored c json w s before after =
    (validate c s ≡ ok tt)
    × (s.workspace_id ≡ w)
    × (get_access_state c json w after ≡ ok s)
    × (is_some after.access_state ≡ true)
    × (after ≡ record before { access_state = after.access_state })

module _ (c : Crypto) (json : Json) (now : ℕ) (w : Bytes) (s : AccessState) where
  validate_state-ok :
      validate_state c json w s ≡ ok tt → (validate c s ≡ ok tt) × (s.workspace_id ≡ w)
  unfolding validate_state
  validate_state-ok e = ground (arith, e, bytes_cmp_iff s.workspace_id w)

  -- The row with the text of the state is read back as the state.
  get_access_state-row :
      (db : Database) (row : AccessRow)
      → validate_state c json w s ≡ ok tt
      → json.access_state_from_slice row.access_state_json ≡ some s
      → Stored c json w s db (record db { access_state = some row })
  unfolding get_access_state
  get_access_state-row db row e back =
      let (valid, here) = validate_state-ok e in (valid, here, rw back (rw e refl), refl, refl)

  saved_row :
      (db : Database) (o : Option AccessRow) (text : Bytes)
      → validate_state c json w s ≡ ok tt
      → json.access_state_from_slice text ≡ some s
      → Settles
          (λ u after. Stored c json w s db after)
          db
          (upsert_access_row
            record { access_state_json = text; created_at = now; updated_at = now }
            (record db { access_state = o }))
  unfolding upsert_access_row
  saved_row db none text e back =
      get_access_state-row db
        record { access_state_json = text; created_at = now; updated_at = now } e back
  saved_row db (some old) text e back =
      get_access_state-row db
        record { access_state_json = text; created_at = old.created_at; updated_at = now } e back

  created_row :
      (db : Database) (o : Option AccessRow) (text : Bytes)
      → validate_state c json w s ≡ ok tt
      → json.access_state_from_slice text ≡ some s
      → Settles
          (λ u after. Stored c json w s db after × (o ≡ none))
          (record db { access_state = o })
          ((insert_access_row
                record { access_state_json = text; created_at = now; updated_at = now }
              >>= λ affected. reads λ db. reject (not affected) workspace_already_exists (ok tt))
            (record db { access_state = o }))
  unfolding insert_access_row ◌>>=◌
  created_row db none text e back = (
    get_access_state-row db record { access_state_json = text; created_at = now; updated_at = now }
        e back,
    refl,
  )
  created_row db (some old) text e back = refl

  -- Saving a state whose text reads back either stores it, valid and of this workspace, so that it is
  -- read back, with no other table changed, or fails and changes nothing.
  pub save_access_state-Settles :
      (db : Database)
      → ReadsBack json s
      → Settles (λ u after. Stored c json w s db after) db (save_access_state c json now w s db)
  unfolding save_access_state
  save_access_state-Settles db back = Settles-reads _ db _ _ λ checked valid.
      Settles-reads _ db _ _ λ text written.
        saved_row db db.access_state text valid (back text (ok_or-some _ _ text written))

  -- Creating the state of a workspace, whose text reads back, stores it where there was none, valid
  -- and of this workspace, so that it is read back, with no other table changed, or fails and changes
  -- nothing.
  pub create_access_state-Settles :
      (db : Database)
      → ReadsBack json s
      → Settles
          (λ u after. Stored c json w s db after × (db.access_state ≡ none))
          db
          (create_access_state c json now w s db)
  unfolding create_access_state
  create_access_state-Settles db back = Settles-reads _ db _ _ λ checked valid.
      Settles-reads _ db _ _ λ text written.
        created_row db db.access_state text valid (back text (ok_or-some _ _ text written))
