-- ===== src/Server/Api/Later/Handlers.antt =====
-- The database that the handlers on key envelopes, and those that read, leave, whatever they answer.
use rustsync.Base.{ℕ, Bytes, []}
use rustsync.Base.Keeps.{IsPreorder, Keeps-reads, Keeps-bind}
use rustsync.Base.Exec.{Exec, ◌>>=◌}
use rustsync.Server.Error.{ServerError}
use rustsync.Server.State.{ServerState, Handler, on_seen, on_database}
use rustsync.Server.Replay.{ReplayKey, check_and_record, max_timestamp_skew_seconds}
use rustsync.Server.Auth.{HttpRequest, AuthenticatedDevice, authenticate, replay_key}
use rustsync.Server.Database.Tables.{Database, Json}
use rustsync.Server.Api.Later.{IsLater, IsLater-IsPreorder, IsLater-same}
use rustsync.Server.Api.Later.{put_key_envelope-IsLater}
use rustsync.Server.Database.Envelopes
use rustsync.Server.Api.Envelopes.{put_key_envelope, fetch_key_envelope}
use rustsync.Server.Api.JoinRequests.{list_join_requests}
use rustsync.Server.Api.Workspaces.{fetch_access_state}
use rustsync.Protocol.Device.{Crypto}
use rustsync.Protocol.Access.Role.{WorkspacePermission, manage_devices, manage_keys, read_objects}

module _ (c : Crypto) (json : Json) (w : Bytes) where
  -- The same of the server's state
  pub record Later (s t : ServerState) : Type 0 where
    pub database : IsLater c json w s.database t.database

  pub Later-IsPreorder : IsPreorder Later
  Later-IsPreorder = record {
    same = λ s. record { database = IsLater-same c json w s.database };
    further = λ a b d p q. record {
      database =
          (IsLater-IsPreorder c json w).further a.database b.database d.database p.database
            q.database;
    };
  }

  pub on_seen-Later :
      (key : ReplayKey) (timestamp : ℕ) (s : ServerState)
      → Later s (on_seen (check_and_record key timestamp max_timestamp_skew_seconds) s).1
  unfolding on_seen
  on_seen-Later key timestamp s = record { database = IsLater-same c json w s.database }

  pub on_database-Later :
      {A : Type 0} (call : Exec ServerError Database A) (s : ServerState)
      → IsLater c json w s.database (call s.database).1
      → Later s (on_database call s).1
  unfolding on_database
  on_database-Later call s h = record { database = h }

  module _ (now : ℕ) where
    pub authenticate-Later :
        (permission : WorkspacePermission) (http : HttpRequest) (s : ServerState)
        → Later s (authenticate c json now w permission http s).1
    unfolding authenticate
    authenticate-Later permission http s = Keeps-reads Later Later-IsPreorder s _ _ λ signed read.
        Keeps-reads Later Later-IsPreorder s _ _ λ u window.
          Keeps-reads Later Later-IsPreorder s _ _ λ state stored.
            Keeps-reads Later Later-IsPreorder s _ _ λ device active.
              Keeps-reads Later Later-IsPreorder s _ _ λ u verified.
                Keeps-bind Later Later-IsPreorder s _ _
                  (on_seen-Later (replay_key c w signed) signed.input.timestamp s)
                  λ u taken.
                    Keeps-reads Later Later-IsPreorder _ _ _ λ u may. Later-IsPreorder.same _

    -- A handler without a body that authenticates first
    asked-Later :
        {A : Type 0} (permission : WorkspacePermission) (http : HttpRequest)
        (rest : AuthenticatedDevice → Handler A) (s : ServerState)
        → ((auth : AuthenticatedDevice) (t : ServerState) → Later t (rest auth t).1)
        → Later s ((authenticate c json now w permission (record http { body = [] }) >>= rest) s).1
    asked-Later permission http rest s h =
        Keeps-bind Later Later-IsPreorder s
          (authenticate c json now w permission (record http { body = [] })) rest
          (authenticate-Later permission (record http { body = [] }) s) λ auth e. h auth _

    pub list_join_requests-Later :
        (http : HttpRequest) (s : ServerState) → Later s (list_join_requests c json now w http s).1
    unfolding list_join_requests
    list_join_requests-Later http s =
        asked-Later manage_devices http _ s λ auth t. Later-IsPreorder.same t

    pub fetch_access_state-Later :
        (http : HttpRequest) (s : ServerState) → Later s (fetch_access_state c json now w http s).1
    unfolding fetch_access_state
    fetch_access_state-Later http s =
        asked-Later read_objects http _ s λ auth t. Later-IsPreorder.same t

    pub fetch_key_envelope-Later :
        (key_id recipient : Bytes) (http : HttpRequest) (s : ServerState)
        → Later s (fetch_key_envelope c json now w key_id recipient http s).1
    unfolding fetch_key_envelope
    fetch_key_envelope-Later key_id recipient http s = asked-Later read_objects http _ s λ auth t.
        Keeps-reads Later Later-IsPreorder t _ _ λ u own.
          Keeps-reads Later Later-IsPreorder t _ _ λ found read.
            Keeps-reads Later Later-IsPreorder t _ _ λ stored there. Later-IsPreorder.same t

    put-Later :
        (key_id recipient envelope : Bytes) (s : ServerState)
        → Later s (on_database (Envelopes.put_key_envelope key_id recipient envelope) s).1
    put-Later key_id recipient envelope s =
        on_database-Later (Envelopes.put_key_envelope key_id recipient envelope) s
          (put_key_envelope-IsLater c json w key_id recipient envelope s.database)

    pub put_key_envelope-Later :
        (key_id recipient : Bytes) (http : HttpRequest) (s : ServerState)
        → Later s (put_key_envelope c json now w key_id recipient http s).1
    unfolding put_key_envelope
    put_key_envelope-Later key_id recipient http s =
        Keeps-reads Later Later-IsPreorder s _ _ λ u small.
          Keeps-reads Later Later-IsPreorder s _ _ λ envelope parsed.
            Keeps-bind Later Later-IsPreorder s _ _ (authenticate-Later manage_keys http s)
              λ auth e.
                let t = (authenticate c json now w manage_keys http s).1 in
                Keeps-reads Later Later-IsPreorder t _ _ λ u own.
                  Keeps-reads Later Later-IsPreorder t _ _ λ u here.
                    Keeps-reads Later Later-IsPreorder t _ _ λ state stored.
                      Keeps-reads Later Later-IsPreorder t _ _ λ sender active.
                        Keeps-reads Later Later-IsPreorder t _ _ λ recipient_device also_active.
                          Keeps-reads Later Later-IsPreorder t _ _ λ u verified.
                            Keeps-reads Later Later-IsPreorder t _ _ λ u current.
                              Keeps-bind Later Later-IsPreorder t _ _
                                (put-Later key_id recipient http.body t)
                                λ result e. Later-IsPreorder.same _
