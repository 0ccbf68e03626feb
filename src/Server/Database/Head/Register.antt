-- ===== src/Server/Database/Head/Register.antt =====
-- The head of a workspace as a register with compare-and-swap, and `update_head` as its update.
use rustsync.Base.{ℕ, ◌+◌, ◌≤◌, ◌<◌, if◌then◌else◌, ◌==◌, nat_ord}
use rustsync.Base.{
  Bytes, Option, none, some, ◌≡◌, ◌≢◌, refl, ltb, ap, sym, subst, Bool-cases, inl, inr, ◌∙◌, arith,
  List, [], ◌∷◌, All,
}
use rustsync.Base.Exec.{Exec, Result, ok, err, ◌>>=◌}
use rustsync.Server.Error.{ServerError, head_revision, integer_out_of_range}
use rustsync.Server.Error.{head_revision_overflow}
use rustsync.Server.Database.Tables.{Database, HeadRow, i64_limit, to_i64}
use rustsync.Server.Database.Head.{HeadUpdateResult, updated, conflict, get_head, update_head}
use rustsync.Server.Database.Head.{read_row, next_head_revision, write_head, parse_column}
use rustsync.Server.Database.Head.{device_column}
use rustsync.Core.Reconciliation.State.{WorkspaceHead}
use rustsync.Protocol.Id.{parse_manifest_id}

-- One update: what a client asks for, and when
pub record HeadUpdate : Type 0 where
  pub now : ℕ
  pub expected_revision : ℕ
  pub manifest_id : Bytes
  pub updated_by : Option Bytes

abbrev pub run_update :
    Bytes → HeadUpdate → Database → Result ServerError (HeadUpdateResult × WorkspaceHead) × Database
run_update w u db = update_head u.now w u.expected_revision u.manifest_id u.updated_by db

-- The identifiers are identifiers, as their types have it in the source.
pub record IsRequest (u : HeadUpdate) : Type 0 where
  pub manifest : parse_manifest_id u.manifest_id ≡ ok u.manifest_id
  pub device : parse_column device_column u.updated_by ≡ ok u.updated_by

-- The head that an update asks for
abbrev pub new_head : Bytes → HeadUpdate → WorkspaceHead
new_head w u = record {
  workspace_id = w;
  manifest_id = some u.manifest_id;
  revision = u.expected_revision + 1;
  updated_by = u.updated_by;
  updated_at = some u.now;
}

-- The register: a head, and its compare-and-swap, which refuses a revision whose successor does not
-- fit the column
abbrev pub swap : HeadUpdate → Exec ServerError WorkspaceHead (HeadUpdateResult × WorkspaceHead)
swap u h =
    if ltb (u.expected_revision + 1) i64_limit
    then if h.revision == u.expected_revision
      then (ok (updated, new_head h.workspace_id u), new_head h.workspace_id u)
      else (ok (conflict, h), h)
    else if u.expected_revision + 1 == i64_limit
    then (err head_revision_overflow, h)
    else (err (integer_out_of_range head_revision), h)

-- The row, if there is one, has a revision above 0.
abbrev pub HasRevision : Option HeadRow → Type 0
HasRevision none = Unit {0}
HasRevision (some row) = row.revision ≢ 0

-- The database holds the head.
pub record Holds (w : Bytes) (db : Database) (h : WorkspaceHead) : Type 0 where
  pub reads_back : get_head w db ≡ ok h
  pub written : HasRevision db.workspace_head

-- The row that the update writes
abbrev new_row : HeadUpdate → HeadRow
new_row u = record {
  manifest_id = some u.manifest_id;
  revision = u.expected_revision + 1;
  updated_by = u.updated_by;
  updated_at = some u.now;
}

read_row-new_row :
    (w : Bytes) (u : HeadUpdate) → IsRequest u → read_row w (new_row u) ≡ ok (new_head w u)
unfolding read_row
read_row-new_row w u r = ground (arith, r.manifest, r.device)

read_row-revision :
    (w : Bytes) (row : HeadRow) (h : WorkspaceHead)
    → read_row w row ≡ ok h
    → (h.revision ≡ row.revision) × (h.workspace_id ≡ w)
unfolding read_row
read_row-revision w row h e = ground (arith, e)

to_i64-fits : (n : ℕ) → n < i64_limit → to_i64 n head_revision ≡ ok n
unfolding to_i64
to_i64-fits n h = ground arith

next_head_revision-fits : (n : ℕ) → n + 1 < i64_limit → next_head_revision n ≡ ok (n + 1)
unfolding next_head_revision
next_head_revision-fits n h = ground arith

-- What the update has come to after its checks
abbrev Swapped : Bytes → HeadUpdate → Database → WorkspaceHead → Type 0
Swapped w u db h =
    let (result, after) = run_update w u db in
    (result ≡ (swap u h).0)
    × Holds w after (swap u h).1
    × (after ≡ record db { workspace_head = after.workspace_head })

written_row :
    (w : Bytes) (u : HeadUpdate) (db : Database) (h : WorkspaceHead) (o : Option HeadRow)
    → IsRequest u
    → u.expected_revision + 1 < i64_limit
    → get_head w (record db { workspace_head = o }) ≡ ok h
    → HasRevision o
    → Swapped w u (record db { workspace_head = o }) h
unfolding update_head ◌>>=◌ write_head get_head
written_row w u db h none r fits e v =
    let first = to_i64-fits u.expected_revision (omega arith) in
    let next = next_head_revision-fits u.expected_revision fits in
    let row = read_row-new_row w u r in ground (arith, first, next, row, e)
written_row w u db h (some old) r fits e v =
    let first = to_i64-fits u.expected_revision (omega arith) in
    let next = next_head_revision-fits u.expected_revision fits in
    let row = read_row-new_row w u r in
    let same = read_row-revision w old h e in ground (arith, first, next, row, e, v, same)

-- The checks of the revision come before the transaction.
revision_refused :
    (w : Bytes) (u : HeadUpdate) (db : Database) (h : WorkspaceHead)
    → i64_limit ≤ u.expected_revision + 1
    → (run_update w u db ≡ ((swap u h).0, db)) × ((swap u h).1 ≡ h)
unfolding update_head ◌>>=◌ to_i64 next_head_revision
revision_refused w u db h beyond = elim (Bool-cases (u.expected_revision + 1 == i64_limit)) [
  | inl y ↦ (ground (arith, y, beyond), ground (arith, y, beyond))
  | inr n ↦ (ground (arith, n, beyond), ground (arith, n, beyond))
]

-- Against a database that holds a head, an update whose identifiers are identifiers gives what the
-- compare-and-swap of the register gives, leaves a database that holds the head of the register, and
-- changes no other table. A revision whose successor does not fit the column is refused by both.
pub update_head-swap :
    (w : Bytes) (u : HeadUpdate) (db : Database) (h : WorkspaceHead)
    → IsRequest u
    → Holds w db h
    → let (result, after) = run_update w u db in
      (result ≡ (swap u h).0)
      × Holds w after (swap u h).1
      × (after ≡ record db { workspace_head = after.workspace_head })
update_head-swap w u db h r holds = elim (Bool-cases (ltb (u.expected_revision + 1) i64_limit)) [
  | inl y ↦
      written_row w u db h db.workspace_head r (ground (arith, y)) holds.reads_back holds.written
  | inr n ↦
      let (refused, same) = revision_refused w u db h (ground (arith, n)) in
      (
        ap (λ p. p.0) refused,
        subst (λ after. Holds w after (swap u h).1) (sym (ap (λ p. p.1) refused))
            (subst (λ head. Holds w db head) (sym same) holds),
        subst (λ after. after ≡ record db { workspace_head = after.workspace_head })
            (sym (ap (λ p. p.1) refused)) refl,
      )
]

-- The database after updates of any clients
abbrev pub after_updates : Bytes → List HeadUpdate → Database → Database
after_updates w [] db = db
after_updates w (u ∷ us) db = after_updates w us (run_update w u db).1

swap-revision : (u : HeadUpdate) (h : WorkspaceHead) → h.revision ≤ (swap u h).1.revision
swap-revision u h = ground arith

after_updates-revision :
    (w : Bytes) (us : List HeadUpdate) (db : Database) (h : WorkspaceHead)
    → All IsRequest us
    → Holds w db h
    → (later : WorkspaceHead) × Holds w (after_updates w us db) later
      × (h.revision ≤ later.revision)
after_updates-revision w [] db h a holds = (h, holds, omega arith)
after_updates-revision w (u ∷ us) db h (r, a) holds =
    let (result, next, rest) = update_head-swap w u db h r holds in
    let (later, held, more) =
      after_updates-revision w us (run_update w u db).1 (swap u h).1 a next in
    (later, held, omega (arith, more, swap-revision u h))

-- A swap that went through has moved the head past the revision that it expected.
swap-moved :
    (u : HeadUpdate) (h new : WorkspaceHead)
    → (swap u h).0 ≡ ok (updated, new)
    → (u.expected_revision + 1 < i64_limit) × ((swap u h).1.revision ≡ u.expected_revision + 1)
swap-moved u h new e = ground (arith, e)

swap-late :
    (v : HeadUpdate) (h : WorkspaceHead)
    → v.expected_revision + 1 < i64_limit
    → v.expected_revision < h.revision
    → (swap v h).0 ≡ ok (conflict, h)
swap-late v h fits late = ground arith

-- No update is lost: once an update went through, a second one that expects the same revision is
-- answered with a conflict, whatever updates came between, those of revisions that are refused too.
-- The identifiers of all of them are identifiers.
pub update_head_once :
    (w : Bytes) (u v : HeadUpdate) (us : List HeadUpdate) (db : Database) (h new : WorkspaceHead)
    → Holds w db h
    → IsRequest u
    → All IsRequest us
    → IsRequest v
    → v.expected_revision ≡ u.expected_revision
    → (run_update w u db).0 ≡ ok (updated, new)
    → (current : WorkspaceHead) × ((run_update w v (after_updates w us (run_update w u db).1)).0
        ≡ ok (conflict, current))
update_head_once w u v us db h new holds r a q same won =
    let (result, next, rest) = update_head-swap w u db h r holds in
    let (fits, moved) = swap-moved u h new (sym result ∙ won) in
    let (later, held, more) =
      after_updates-revision w us (run_update w u db).1 (swap u h).1 a next in
    let (answer, held_after, rest_after) =
      update_head-swap w v (after_updates w us (run_update w u db).1) later q held in
    (
      later,
      answer ∙ swap-late v later (omega (arith, fits, same)) (omega (arith, moved, more, same)),
    )
