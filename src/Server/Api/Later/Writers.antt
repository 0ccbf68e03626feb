-- ===== src/Server/Api/Later/Writers.antt =====
-- The database that the handlers on access events, join requests and creation leave, whatever they
-- answer.
use rustsync.Base.{ℕ, Bytes}
use rustsync.Base.Keeps.{Keeps-reads, Keeps-bind}
use rustsync.Server.State.{ServerState, on_database}
use rustsync.Server.Auth.{HttpRequest, authenticate, replay_key}
use rustsync.Server.Database.Tables.{Json}
use rustsync.Server.Database.Access.{create_access_state}
use rustsync.Server.Database.Requests.{remove_join_request}
use rustsync.Server.Api.Later.{IsFaithful}
use rustsync.Server.Api.Later.{verify_and_apply_access_event-IsLater}
use rustsync.Server.Api.Later.{remove_join_request-IsLater, create_access_state-IsLater}
use rustsync.Server.Api.Later.{IsWithinLimit-IsLater}
use rustsync.Server.Api.Later.Handlers.{Later, Later-IsPreorder, on_seen-Later, on_database-Later}
use rustsync.Server.Api.Later.Handlers.{authenticate-Later}
use rustsync.Server.Api.Events.{verify_and_apply_access_event, apply_joining, apply_by_kind}
use rustsync.Server.Api.Events.{apply_access_event, approve_join_request}
use rustsync.Server.Api.JoinRequests.{submit_join_request, submit_locked}
use rustsync.Server.Api.JoinRequests.{verify_join_request_http_signature}
use rustsync.Server.Api.JoinRequests.Limit.{submit_locked-within}
use rustsync.Server.Api.Workspaces.{create_workspace, create_requested, verify_bootstrap_signature}
use rustsync.Protocol.Device.{Crypto}
use rustsync.Protocol.Device.Join.{DeviceJoinRequest}
use rustsync.Protocol.Api.{CreateWorkspaceRequest}
use rustsync.Protocol.Access.Role.{manage_devices}
use rustsync.Protocol.Access.Event.{
  SignedAccessEvent, AccessEvent, workspace_created, device_joined,
}
use rustsync.Protocol.Access.Event.{device_role_changed, device_removed, restricted_key_granted}
use rustsync.Protocol.Access.Event.{restricted_key_revoked}

module _ (c : Crypto) (json : Json) (w : Bytes) (now : ℕ) (faithful : IsFaithful json) where
  verify_and_apply-Later :
      (event : SignedAccessEvent) (s : ServerState)
      → Later c json w s (on_database (verify_and_apply_access_event c json now w event) s).1
  verify_and_apply-Later event s =
      on_database-Later c json w (verify_and_apply_access_event c json now w event) s
        (verify_and_apply_access_event-IsLater c json w now faithful event s.database)

  remove-Later :
      (id : Bytes) (s : ServerState) → Later c json w s (on_database (remove_join_request id) s).1
  remove-Later id s =
      on_database-Later c json w (remove_join_request id) s
        (remove_join_request-IsLater c json w id s.database)

  apply_joining-Later :
      (id : Bytes) (event : SignedAccessEvent) (s : ServerState)
      → Later c json w s (apply_joining c json now w id event s).1
  unfolding apply_joining
  apply_joining-Later id event s =
      let p = Later-IsPreorder c json w in
      Keeps-reads (Later c json w) p s _ _ λ u pending.
        Keeps-bind (Later c json w) p s _ _ (verify_and_apply-Later event s) λ state e.
          let t = (on_database (verify_and_apply_access_event c json now w event) s).1 in
          Keeps-bind (Later c json w) p t _ _ (remove-Later id t) λ u e. p.same _

  apply_by_kind-Later :
      (event : SignedAccessEvent) (kind : AccessEvent) (s : ServerState)
      → Later c json w s (apply_by_kind c json now w event kind s).1
  unfolding apply_by_kind
  apply_by_kind-Later event (device_joined id device role) s = apply_joining-Later id event s
  apply_by_kind-Later event (workspace_created creator) s = verify_and_apply-Later event s
  apply_by_kind-Later event (device_role_changed id new_role) s = verify_and_apply-Later event s
  apply_by_kind-Later event (device_removed id) s = verify_and_apply-Later event s
  apply_by_kind-Later event (restricted_key_granted key_id generation id) s =
      verify_and_apply-Later event s
  apply_by_kind-Later event (restricted_key_revoked key_id generation id) s =
      verify_and_apply-Later event s

  pub apply_access_event-Later :
      (http : HttpRequest) (s : ServerState)
      → Later c json w s (apply_access_event c json now w http s).1
  unfolding apply_access_event
  apply_access_event-Later http s =
      let p = Later-IsPreorder c json w in
      Keeps-reads (Later c json w) p s _ _ λ u small.
        Keeps-reads (Later c json w) p s _ _ λ event parsed.
          Keeps-reads (Later c json w) p s _ _ λ permission needed.
            Keeps-bind (Later c json w) p s _ _ (authenticate-Later c json w now permission http s)
              λ auth e.
                let t = (authenticate c json now w permission http s).1 in
                Keeps-reads (Later c json w) p t _ _
                  λ u own. apply_by_kind-Later event event.event t

  pub approve_join_request-Later :
      (id : Bytes) (http : HttpRequest) (s : ServerState)
      → Later c json w s (approve_join_request c json now w id http s).1
  unfolding approve_join_request
  approve_join_request-Later id http s =
      let p = Later-IsPreorder c json w in
      Keeps-reads (Later c json w) p s _ _ λ u small.
        Keeps-reads (Later c json w) p s _ _ λ request parsed.
          Keeps-reads (Later c json w) p s _ _ λ u same.
            Keeps-bind (Later c json w) p s _ _
              (authenticate-Later c json w now manage_devices http s)
              λ auth e.
                let t = (authenticate c json now w manage_devices http s).1 in
                Keeps-reads (Later c json w) p t _ _ λ u own. apply_joining-Later id request.event t

  verify_join_request_http_signature-Later :
      (http : HttpRequest) (request : DeviceJoinRequest) (s : ServerState)
      → Later c json w s (verify_join_request_http_signature c json now w http request s).1
  unfolding verify_join_request_http_signature
  verify_join_request_http_signature-Later http request s =
      let p = Later-IsPreorder c json w in
      Keeps-reads (Later c json w) p s _ _ λ signed read.
        Keeps-reads (Later c json w) p s _ _ λ u window.
          Keeps-reads (Later c json w) p s _ _ λ u own.
            Keeps-reads (Later c json w) p s _ _
              λ u verified. on_seen-Later c json w (replay_key c w signed) signed.input.timestamp s

  pub submit_join_request-Later :
      (http : HttpRequest) (s : ServerState)
      → Later c json w s (submit_join_request c json now w http s).1
  unfolding submit_join_request
  submit_join_request-Later http s =
      let p = Later-IsPreorder c json w in
      Keeps-reads (Later c json w) p s _ _ λ u small.
        Keeps-reads (Later c json w) p s _ _ λ request parsed.
          Keeps-reads (Later c json w) p s _ _ λ u here.
            Keeps-bind (Later c json w) p s _ _
              (verify_join_request_http_signature-Later http request s)
              λ u e.
                let t = (verify_join_request_http_signature c json now w http request s).1 in
                on_database-Later c json w (submit_locked c json now w request) t (
                  IsWithinLimit-IsLater c json w t.database _ (
                    submit_locked-within json w request c now t.database
                      (faithful.requests request)))

  verify_bootstrap_signature-Later :
      (http : HttpRequest) (request : CreateWorkspaceRequest) (s : ServerState)
      → Later c json w s (verify_bootstrap_signature c json now http request s).1
  unfolding verify_bootstrap_signature
  verify_bootstrap_signature-Later http request s =
      let p = Later-IsPreorder c json w in
      Keeps-reads (Later c json w) p s _ _ λ signed read.
        Keeps-reads (Later c json w) p s _ _ λ u window.
          Keeps-reads (Later c json w) p s _ _ λ device active.
            Keeps-reads (Later c json w) p s _ _ λ has found.
              Keeps-reads (Later c json w) p s _ _ λ u owns.
                Keeps-reads (Later c json w) p s _ _ λ u verified.
                  on_seen-Later c json w (replay_key c request.workspace_id signed)
                    signed.input.timestamp s

  pub create_workspace-Later :
      (http : HttpRequest) (s : ServerState)
      → Later c json w s (create_workspace c json now http s).1
  unfolding create_workspace create_requested
  create_workspace-Later http s =
      let p = Later-IsPreorder c json w in
      Keeps-reads (Later c json w) p s _ _ λ request parsed.
        Keeps-bind (Later c json w) p s _ _ (verify_bootstrap_signature-Later http request s) λ u e.
          let t = (verify_bootstrap_signature c json now http request s).1 in
          Keeps-reads (Later c json w) p t _ _ λ u same.
            Keeps-bind (Later c json w) p t _ _
              (on_database-Later c json w
                (create_access_state c json now request.workspace_id request.access_state) t
                (create_access_state-IsLater c json w now faithful request.workspace_id
                  request.access_state t.database))
              λ u e. p.same _
