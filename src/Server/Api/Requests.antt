-- ===== src/Server/Api/Requests.antt =====
-- The requests to the access routes of one workspace, `routes` of
-- `crates/rustsync-server/src/api/access.rs` and of `api/workspaces.rs`.
pub mod History
pub mod Removed
use rustsync.Base.{ℕ, Bytes, List, [], ◌∷◌}
use rustsync.Server.State.{ServerState}
use rustsync.Server.Auth.{HttpRequest}
use rustsync.Server.Api.Events.{apply_access_event, approve_join_request}
use rustsync.Server.Api.Envelopes.{put_key_envelope, fetch_key_envelope}
use rustsync.Server.Api.JoinRequests.{submit_join_request, list_join_requests}
use rustsync.Server.Api.Workspaces.{create_workspace, fetch_access_state}
use rustsync.Server.Database.Tables.{Json}
use rustsync.Protocol.Device.{Crypto}

-- The routes, with what their paths name
pub data Route : Type 0 where
  creation submission listing event_application state_fetch : Route
  approval : (join_request_id : Bytes) → Route
  envelope_put envelope_fetch : (key_id recipient_device_id : Bytes) → Route

-- A request that comes to a route at a time. The body of a creation names this workspace.
pub record Arrival : Type 0 where
  pub now : ℕ
  pub route : Route
  pub request : HttpRequest

module _ (c : Crypto) (json : Json) (w : Bytes) where
  -- The state that the handler of a route leaves, whatever it answers
  abbrev pub after_route : Route → ℕ → HttpRequest → ServerState → ServerState
  after_route creation now http s = (create_workspace c json now http s).1
  after_route submission now http s = (submit_join_request c json now w http s).1
  after_route listing now http s = (list_join_requests c json now w http s).1
  after_route event_application now http s = (apply_access_event c json now w http s).1
  after_route state_fetch now http s = (fetch_access_state c json now w http s).1
  after_route (approval id) now http s = (approve_join_request c json now w id http s).1
  after_route (envelope_put key_id recipient) now http s =
      (put_key_envelope c json now w key_id recipient http s).1
  after_route (envelope_fetch key_id recipient) now http s =
      (fetch_key_envelope c json now w key_id recipient http s).1

  abbrev pub after_arrivals : List Arrival → ServerState → ServerState
  after_arrivals [] s = s
  after_arrivals (a ∷ rest) s = after_arrivals rest (after_route a.route a.now a.request s)
