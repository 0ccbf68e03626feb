-- ===== src/Lib.antt =====
-- rustsync keeps a workspace of files in step on several devices, end-to-end encrypted, through a
-- server that only stores. This library models the core of it: who may access a workspace, what is
-- signed, the frame of an encrypted object, and what a synchronisation does with the files.
--
-- Parts of the program, and where they are modelled:
--
--   crates/rustsync-protocol/src/access/state.rs
--     The access state of a workspace, which a log of signed events changes. `Protocol/Access/State`
--     has the state and its queries; `Protocol/Access/Validation` has `validate`, and
--     `Protocol/Access/Apply` has `apply_verified_event`
--     as a computation on the state, one function for each event, with the state that an error
--     leaves. The comparison `status_eq` and its like are the derived `==` of the source.
--   crates/rustsync-protocol/src/access/event.rs, role.rs, permission.rs
--     The events, the permissions they ask for, the bytes that are signed and the checks of a
--     signature: `Protocol/Access/Event`, `Protocol/Access/Role`.
--   crates/rustsync-protocol/src/device/record.rs, join.rs
--     Device records and join requests: `Protocol/Device`, `Protocol/Device/Join`.
--   crates/rustsync-protocol/src/id
--     The parsers of identifiers: `Protocol/Id`.
--   crates/rustsync-protocol/src/object/content.rs, binary.rs
--     Encrypted objects and their binary frame, read by a cursor: `Protocol/Object`.
--   crates/rustsync-protocol/src/manifest.rs
--     The files and directories of a workspace: `Protocol/Manifest`.
--   crates/rustsync-core/src/reconciliation.rs
--     The plan of a synchronisation (`Core/Reconciliation`), the merge of texts
--     (`Core/Reconciliation/Merge`) and the state that is kept between synchronisations
--     (`Core/Reconciliation/State`).
--   crates/rustsync-core/src/manifest/diff.rs
--     The changes between two manifests: `Core/Diff`.
--   crates/rustsync-protocol/src/auth
--     The canonical text of an HTTP request, its signature and the headers: `Protocol/Auth`.
--   crates/rustsync-protocol/src/object/envelope.rs
--     The envelope of a workspace key for one device: `Protocol/Envelope`.
--   crates/rustsync-protocol/src/api/mod.rs
--     The bodies of requests: `Protocol/Api`.
--   crates/rustsync-server/src/auth/replay.rs, middleware.rs
--     The replay cache of the server and the window of timestamps (`Server/Replay`), and
--     `authenticate` (`Server/Auth`).
--   crates/rustsync-server/src/storage/sqlite.rs, migrations/0001_initial.sql
--     The database of one workspace: `Server/Database/Tables` has the tables as a record, and
--     `Server/Database/Head`, `Access`, `Envelopes`, `Requests` and `Objects` have the calls on them, each
--     `INSERT ... ON CONFLICT` as a function of the row that is there.
--   crates/rustsync-server/src/storage/indexed_fs.rs, atomic.rs
--     The files of blobs and manifests, beside the catalog in the database: `Server/Files`. The two
--     kinds of object share their functions, which take the kind.
--   crates/rustsync-server/src/api/access.rs, workspaces.rs
--     The handlers of the access routes, whole: `Server/Api/Events`, `Envelopes`, `JoinRequests`
--     and `Workspaces`, over the state of `Server/State`. `Server/Api/Requests` has the routes and
--     the state after a list of requests.
--   crates/rustsync-server/src/error.rs
--     `Server/Error`: a message that the source formats is a constructor of `Why`.
--   crates/rustsync-protocol/src/error.rs
--     `Protocol/Error`: a message that the source formats is a constructor of `Reason`.
--
-- How they interact: a device signs an event over `signing_payload`; whoever verified the signature
-- hands the event to `apply_verified_event`; the server and the clients ask the state who is an
-- active member and holds which key. A synchronisation plans from three manifests, merges the texts
-- that both sides changed, and stores the result as encrypted objects. A handler of the server reads
-- the access state from the database, has the signature of the request checked against it, records
-- the nonce, and only then calls `apply_verified_event` and saves what it left.
--
-- Conventions. A text is the list of its UTF-8 bytes. A number of the source is a natural number;
-- `u64` additions that the source checks are checked at 2 ^ 64 (`Base/Tests`), and `to_be_bytes`
-- keeps the low 64 bits. A `BTreeMap` is an association list in key order (`Base/Map`).
-- `Base/Exec` is a computation that changes a state and may fail: what was written before an error
-- stays written. The loops of the source are recursions on the lists that they run over. Only the
-- digits of a number take fuel (`Base/Decimal`), as many rounds as the number and one more, which
-- is enough, as reading the digits back shows. The server keeps apart what runs at the same time
-- as far as the source does: a handler is one step, though the source authenticates before it takes
-- a lock, and the locks hold the parts together that read and then change the database.
--
-- Parameters. The SHA-256 hash, base64 and the Ed25519 keys and signatures are other packages: the
-- record `Crypto` of `Protocol/Device`, of which nothing is assumed. `serde_json` is the record
-- `Json` of `Server/Database/Tables`; where a theorem needs that what was written is read back, it
-- says so (`ReadsBack`, `IsFaithful`), and `Server/Examples` has functions for which it holds. The
-- clock and the headers of a request are arguments.
--
-- Not modelled: the text of the JSON, failures of the database engine and of the file system, the
-- migration, the routes on objects, the client, the command line, key generation and encryption, and
-- the files of a device.
pub mod Base
pub mod Protocol
pub mod Core
pub mod Server
