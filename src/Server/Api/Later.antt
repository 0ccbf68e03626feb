-- ===== src/Server/Api/Later.antt =====
-- How the database of a workspace may change from one call of the access routes to the next.
pub mod Handlers
pub mod Writers
use rustsync.Base.{
  ℕ, ◌≤◌, ◌<◌, Bytes, Option, none, some, length, ◌≡◌, ◌≢◌, refl, sym, ◌∙◌, subst, ap, arith, Bool,
  true, false, if◌then◌else◌, ◌==◌, bytes_ord, ==_iff, bytes_cmp_iff,
}
use rustsync.Base.{Bool-cases, inl, inr, [], ◌∷◌, Ord}
use rustsync.Base.Keeps.{IsPreorder}
use rustsync.Base.Map.{BTreeMap, get, remove}
use rustsync.Base.Exec.{Result, ok, err, Settles}
use rustsync.Server.Error.{ServerError}
use rustsync.Server.Database.Tables.{
  Database, AccessRow, JoinRow, EnvelopeKey, envelope_key_ord, Json,
}
use rustsync.Server.Database.Access.{get_access_state, create_access_state}
use rustsync.Server.Database.Access.Stored.{Stored, create_access_state-Settles}
use rustsync.Server.Database.Access.Stored
use rustsync.Server.Database.Envelopes.{put_key_envelope}
use rustsync.Server.Database.Envelopes.Register.{put_key_envelope-write_once, after_puts-kept, Put}
use rustsync.Server.Database.Requests.{remove_join_request}
use rustsync.Server.Database.Requests.Pending
use rustsync.Server.Api.Events.{verify_and_apply_access_event}
use rustsync.Server.Api.Events.Applying.{IsStep, Stepped, verify_and_apply_access_event-Settles}
use rustsync.Server.Api.JoinRequests.{max_pending_join_requests_per_workspace}
use rustsync.Server.Api.JoinRequests.Limit.{IsWithinLimit}
use rustsync.Protocol.Device.{Crypto}
use rustsync.Protocol.Device.Join.{DeviceJoinRequest}
use rustsync.Protocol.Access.Event.{SignedAccessEvent}
use rustsync.Protocol.Access.State.{AccessState, is_some}

-- Steps of the access state, one after the other
pub data Evolves (c : Crypto) (s : AccessState) : AccessState → Type 0 where
  unchanged : Evolves c s s
  step :
      {t u : AccessState}
      → Evolves c s t
      → (event : SignedAccessEvent) → IsStep c t event u
      → Evolves c s u

pub Evolves-trans :
    (c : Crypto) (s t u : AccessState) → Evolves c s t → Evolves c t u → Evolves c s u
Evolves-trans c s t _ a unchanged = a
Evolves-trans c s t u a (step {t = v} b event is_step) =
    step (Evolves-trans c s t v a b) event is_step

-- What is written is read back, for the types that the server writes.
pub record IsFaithful (json : Json) : Type 0 where
  pub states : (s : AccessState) → Stored.ReadsBack json s
  pub requests : (r : DeviceJoinRequest) → Pending.ReadsBack json r

module _ (c : Crypto) (json : Json) (w : Bytes) where
  -- The workspace has the access state.
  pub record HasState (db : Database) (s : AccessState) : Type 0 where
    pub there : is_some db.access_state ≡ true
    pub reads : get_access_state c json w db ≡ ok s

  -- Once there is an access state, it changes by steps only; the number of pending requests stays
  -- within the limit; and a key envelope that is stored stays as it is.
  pub record IsLater (before after : Database) : Type 0 where
    pub access :
        (s : AccessState) → HasState before s → (t : AccessState) × HasState after t × Evolves c s t
    pub pending :
        length before.join_requests ≤ max_pending_join_requests_per_workspace
        → length after.join_requests ≤ max_pending_join_requests_per_workspace
    pub envelopes :
        (k : EnvelopeKey) (envelope : Bytes)
        → get k before.key_envelopes ≡ some envelope
        → get k after.key_envelopes ≡ some envelope

  pub IsLater-same : (db : Database) → IsLater db db
  IsLater-same db = record {
    access = λ s has. (s, has, unchanged);
    pending = λ h. h;
    envelopes = λ k envelope h. h;
  }

  pub IsLater-IsPreorder : IsPreorder IsLater
  IsLater-IsPreorder = record {
    same = IsLater-same;
    further = λ a b d p q. record {
      access = λ s has.
          let (t, then_has, first) = p.access s has in
          let (u, last_has, second) = q.access t then_has in
          (u, last_has, Evolves-trans c s t u first second);
      pending = λ h. q.pending (p.pending h);
      envelopes = λ k envelope h. q.envelopes k envelope (p.envelopes k envelope h);
    };
  }

  -- The access state is read from its own table.
  HasState-row :
      (a b : Database) (s : AccessState)
      → b.access_state ≡ a.access_state
      → HasState a s
      → HasState b s
  unfolding get_access_state
  HasState-row a b s e has = record { there = rw e has.there; reads = rw e has.reads }

  pub IsWithinLimit-IsLater : (a b : Database) → IsWithinLimit a b → IsLater a b
  IsWithinLimit-IsLater a b within = record {
    access = λ s has. (s, HasState-row a b s (ground (arith, within.rest)) has, unchanged);
    pending = within.limit;
    envelopes = λ k envelope h. ground (arith, within.rest, h);
  }

  length-remove : (k : Bytes) (m : BTreeMap Bytes JoinRow) → length (remove k m) ≤ length m
  unfolding remove
  length-remove k [] = omega arith
  length-remove k ((j, v) ∷ m) = ground (arith, length-remove k m)

  pub remove_join_request-IsLater :
      (id : Bytes) (db : Database) → IsLater db (remove_join_request id db).1
  unfolding remove_join_request
  remove_join_request-IsLater id db =
      IsWithinLimit-IsLater db _
        record { limit = λ h. omega (arith, h, length-remove id db.join_requests); rest = refl }

  pub put_key_envelope-IsLater :
      (key_id recipient_device_id envelope : Bytes) (db : Database)
      → IsLater db (put_key_envelope key_id recipient_device_id envelope db).1
  put_key_envelope-IsLater key_id recipient_device_id envelope db =
      let put : Put = record {
        key = record { key_id = key_id; recipient_device_id = recipient_device_id };
        envelope = envelope;
      } in
      let after = (put_key_envelope key_id recipient_device_id envelope db).1 in
      let (answer, kept, rest) = put_key_envelope-write_once put db in
      record {
        access = λ s has. (s, HasState-row db after s (ground (arith, rest)) has, unchanged);
        pending = λ h. ground (arith, rest, h);
        envelopes = after_puts-kept (put ∷ []) db;
      }

  module _ (now : ℕ) (faithful : IsFaithful json) where
    stepped :
        (event : SignedAccessEvent) (db : Database) (r : Result ServerError AccessState × Database)
        → Settles (Stepped c json now w event db) db r
        → IsLater db r.1
    stepped event db (ok t, after) (s, read, is_step, (valid, here, back, there, rest)) = record {
      access = λ a has.
          let same : s ≡ a = cc (read, has.reads) in
          (
            t,
            record { there = there; reads = back },
            step unchanged event (subst (λ x. IsStep c x event t) same is_step),
          );
      pending = λ h. ground (arith, rest, h);
      envelopes = λ k envelope h. ground (arith, rest, h);
    }
    stepped event db (err e, after) same = subst (IsLater db) (sym same) (IsLater-same db)

    pub verify_and_apply_access_event-IsLater :
        (event : SignedAccessEvent) (db : Database)
        → IsLater db (verify_and_apply_access_event c json now w event db).1
    verify_and_apply_access_event-IsLater event db =
        stepped event db _
          (verify_and_apply_access_event-Settles c json now w event db faithful.states)

    created :
        (v : Bytes) (s : AccessState) (db : Database) (r : Result ServerError (Unit {0}) × Database)
        → Settles (λ u after. Stored c json v s db after × (db.access_state ≡ none)) db r
        → IsLater db r.1
    created v s db (ok u, after) ((valid, here, back, there, rest), free) = record {
      access = λ a has.
          let no_state : is_some db.access_state ≡ false = rw free refl in cc (has.there, no_state);
      pending = λ h. ground (arith, rest, h);
      envelopes = λ k envelope h. ground (arith, rest, h);
    }
    created v s db (err e, after) same = subst (IsLater db) (sym same) (IsLater-same db)

    pub create_access_state-IsLater :
        (v : Bytes) (s : AccessState) (db : Database)
        → IsLater db (create_access_state c json now v s db).1
    create_access_state-IsLater v s db =
        created v s db _ (create_access_state-Settles c json now v s db (faithful.states s))
