-- ===== src/Server/Api/JoinRequests/Limit.antt =====
-- How many join requests are pending after `submit_join_request`.
use rustsync.Base.{
  ℕ, ◌≤◌, ◌<◌, Bytes, Option, none, some, List, length, ◌≡◌, ◌≢◌, refl, sym, arith, subst,
}
use rustsync.Base.Keeps.{IsPreorder, Keeps-reads, Keeps-bind}
use rustsync.Base.Exec.{Result, ok, err, Settles}
use rustsync.Server.Error.{ServerError}
use rustsync.Server.Database.Tables.{Database, Json}
use rustsync.Server.Database.Requests.{JoinRequestPutResult, submitted, already_pending, conflict}
use rustsync.Server.Database.Requests.{get_join_request}
use rustsync.Server.Database.Requests
use rustsync.Server.Database.Requests.Pending.{Answered, ReadsBack, submit_join_request-Settles}
use rustsync.Server.Database.Requests.Pending.{length-list_join_requests}
use rustsync.Server.Api.JoinRequests.{submit, submit_within_limit, submit_first, submit_new}
use rustsync.Server.Api.JoinRequests.{submit_or_repeat, submit_locked}
use rustsync.Server.Api.JoinRequests.{max_pending_join_requests_per_workspace}
use rustsync.Protocol.Device.{Crypto}
use rustsync.Protocol.Device.Join.{DeviceJoinRequest}

-- Only the join requests changed, and they are within the limit if they were.
pub record IsWithinLimit (s t : Database) : Type 0 where
  pub limit :
      length s.join_requests ≤ max_pending_join_requests_per_workspace
      → length t.join_requests ≤ max_pending_join_requests_per_workspace
  pub rest : t ≡ record s { join_requests = t.join_requests }

IsWithinLimit-same : (s : Database) → IsWithinLimit s s
IsWithinLimit-same s = record { limit = λ h. h; rest = refl }

pub IsWithinLimit-IsPreorder : IsPreorder IsWithinLimit
IsWithinLimit-IsPreorder = record {
  same = IsWithinLimit-same;
  further = λ s t u p q. record {
    limit = λ h. q.limit (p.limit h);
    rest = ground (arith, p.rest, q.rest);
  };
}

module _ (json : Json) (w : Bytes) (request : DeviceJoinRequest) where
  pending_repeat :
      (db : Database) (r : Result ServerError JoinRequestPutResult × Database)
      → get_join_request json w request.request_id db ≢ ok none
      → Settles (Answered json w request db) db r
      → r.1 ≡ db
  pending_repeat db (ok submitted, after) there a = absurd (there a.0)
  pending_repeat db (ok already_pending, after) there a = a.1
  pending_repeat db (ok conflict, after) there (old, found, differs, same) = same
  pending_repeat db (err e, after) there a = a

  room_left :
      (db : Database) (r : Result ServerError JoinRequestPutResult × Database)
      → length db.join_requests < max_pending_join_requests_per_workspace
      → Settles (Answered json w request db) db r
      → IsWithinLimit db r.1
  room_left db (ok submitted, after) room (free, there, others, rest, longer) = record {
    limit = λ h. rw longer (omega (arith, room));
    rest = rest;
  }
  room_left db (ok already_pending, after) room (found, same) = rw same (IsWithinLimit-same db)
  room_left db (ok conflict, after) room (old, found, differs, same) =
      rw same (IsWithinLimit-same db)
  room_left db (err e, after) room same = rw same (IsWithinLimit-same db)

  module _ (c : Crypto) (now : ℕ) where
    submit-within :
        (db : Database)
        → IsWithinLimit db (Requests.submit_join_request json w request db).1
        → IsWithinLimit db (submit c json now w request db).1
    unfolding submit
    submit-within db within =
        Keeps-bind _ IsWithinLimit-IsPreorder db _ _ within λ result e. IsWithinLimit-same _

    submit_within_limit-within :
        (db : Database) (pending : List DeviceJoinRequest)
        → ReadsBack json request
        → length pending ≡ length db.join_requests
        → IsWithinLimit db (submit_within_limit c json now w request pending db).1
    unfolding submit_within_limit
    submit_within_limit-within db pending back same =
        Keeps-reads _ IsWithinLimit-IsPreorder db _ _ λ u room. submit-within db (
          room_left db _ (ground (arith, room, same))
            (submit_join_request-Settles json w request db back))

    submit_first-within :
        (db : Database) (pending : List DeviceJoinRequest) (o : Option DeviceJoinRequest)
        → ReadsBack json request
        → length pending ≡ length db.join_requests
        → IsWithinLimit db (submit_first c json now w request pending o db).1
    submit_first-within db pending none back same = submit_within_limit-within db pending back same
    submit_first-within db pending (some existing) back same = IsWithinLimit-same db

    submit_or_repeat-within :
        (db : Database) (found : Option DeviceJoinRequest)
        → ReadsBack json request
        → get_join_request json w request.request_id db ≡ ok found
        → IsWithinLimit db (submit_or_repeat c json now w request found db).1
    unfolding submit_new
    submit_or_repeat-within db (some existing) back there =
        let same =
          pending_repeat db _ (λ free. ground (arith, there, free))
            (submit_join_request-Settles json w request db back) in
        submit-within db (subst (IsWithinLimit db) (sym same) (IsWithinLimit-same db))
    submit_or_repeat-within db none back there =
        Keeps-reads _ IsWithinLimit-IsPreorder db _ _ λ pending listed.
          submit_first-within db pending _ back (length-list_join_requests json w db pending listed)

    -- What the part of `submit_join_request` under the lock leaves, whatever it answers
    pub submit_locked-within :
        (db : Database)
        → ReadsBack json request
        → IsWithinLimit db (submit_locked c json now w request db).1
    unfolding submit_locked
    submit_locked-within db back = Keeps-reads _ IsWithinLimit-IsPreorder db _ _ λ state stored.
        Keeps-reads _ IsWithinLimit-IsPreorder db _ _ λ u may.
          Keeps-reads _ IsWithinLimit-IsPreorder db _ _
            λ found there. submit_or_repeat-within db found back there
