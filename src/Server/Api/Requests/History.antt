-- ===== src/Server/Api/Requests/History.antt =====
-- What holds of the database after requests to the access routes, in whatever order they come.
use rustsync.Base.{ℕ, ◌+◌, ◌≤◌, ◌≡◌, ap, Bytes, List, [], ◌∷◌, some, length, arith}
use rustsync.Base.Exec.{ok, Settles-ok}
use rustsync.Server.State.{ServerState}
use rustsync.Server.Auth.{HttpRequest}
use rustsync.Server.Database.Tables.{envelope_key_ord, Json}
use rustsync.Server.Database.Envelopes.{get_key_envelope}
use rustsync.Server.Api.JoinRequests.{max_pending_join_requests_per_workspace}
use rustsync.Server.Api.Requests.{Route, creation, submission, listing, event_application}
use rustsync.Server.Api.Requests.{state_fetch, approval, envelope_put, envelope_fetch}
use rustsync.Server.Api.Requests.{Arrival, after_route, after_arrivals}
use rustsync.Server.Api.Events.Applying.{IsStep}
use rustsync.Server.Api.Later.{IsFaithful, HasState, Evolves, unchanged, step}
use rustsync.Server.Api.Later.Handlers.{Later, Later-IsPreorder, put_key_envelope-Later}
use rustsync.Server.Api.Later.Handlers.{fetch_key_envelope-Later, list_join_requests-Later}
use rustsync.Server.Api.Later.Handlers.{fetch_access_state-Later}
use rustsync.Server.Api.Later.Writers.{apply_access_event-Later, approve_join_request-Later}
use rustsync.Server.Api.Later.Writers.{submit_join_request-Later, create_workspace-Later}
use rustsync.Protocol.Device.{Crypto}
use rustsync.Protocol.Access.Event.{SignedAccessEvent}
use rustsync.Protocol.Access.State.{AccessState}
use rustsync.Protocol.Access.Atomicity.{Applied, apply_verified_event-Settles}
use rustsync.Protocol.Access.Keys.{IsBacked-apply_verified_event}
use rustsync.Protocol.Access.History.{IsSound, IsSound-of}

module _ (c : Crypto) where
  -- A step that applies leaves a sound state, with a higher revision.
  IsStep-IsSound :
      (s t : AccessState) (event : SignedAccessEvent)
      → IsStep c s event t
      → IsSound c s
      → IsSound c t × (t.revision ≡ s.revision + 1)
  IsStep-IsSound s t event is_step sound =
      let (well_formed, later, here, last) =
        Settles-ok (λ u r. Applied c event s r) s _ tt t is_step.applied
          (apply_verified_event-Settles c event s sound.well_formed) in
      (
        IsSound-of c t well_formed
            (IsBacked-apply_verified_event c event s t is_step.applied sound.backed),
        later,
      )

  Evolves-IsSound :
      (s t : AccessState) → Evolves c s t → IsSound c s → IsSound c t × (s.revision ≤ t.revision)
  Evolves-IsSound s _ unchanged sound = (sound, omega arith)
  Evolves-IsSound s t (step {t = v} before event is_step) sound =
      let (between, first) = Evolves-IsSound s v before sound in
      let (last, second) = IsStep-IsSound v t event is_step between in
      (last, omega (arith, first, second))

module _ (c : Crypto) (json : Json) (w : Bytes) (faithful : IsFaithful json) where
  after_route-Later :
      (route : Route) (now : ℕ) (http : HttpRequest) (s : ServerState)
      → Later c json w s (after_route c json w route now http s)
  after_route-Later creation now http s = create_workspace-Later c json w now faithful http s
  after_route-Later submission now http s = submit_join_request-Later c json w now faithful http s
  after_route-Later listing now http s = list_join_requests-Later c json w now http s
  after_route-Later event_application now http s =
      apply_access_event-Later c json w now faithful http s
  after_route-Later state_fetch now http s = fetch_access_state-Later c json w now http s
  after_route-Later (approval id) now http s =
      approve_join_request-Later c json w now faithful id http s
  after_route-Later (envelope_put key_id recipient) now http s =
      put_key_envelope-Later c json w now key_id recipient http s
  after_route-Later (envelope_fetch key_id recipient) now http s =
      fetch_key_envelope-Later c json w now key_id recipient http s

  pub after_arrivals-Later :
      (arrivals : List Arrival) (s : ServerState)
      → Later c json w s (after_arrivals c json w arrivals s)
  after_arrivals-Later [] s = (Later-IsPreorder c json w).same s
  after_arrivals-Later (a ∷ rest) s =
      let t = after_route c json w a.route a.now a.request s in
      (Later-IsPreorder c json w).further s t (after_arrivals c json w rest t)
        (after_route-Later a.route a.now a.request s) (after_arrivals-Later rest t)

  -- Where the texts that the server writes read back: once a workspace has a sound access state, then
  -- after any requests it has one that comes from it by events alone, each signed by a device that is
  -- active before it and applied to the state before it; and that state is sound, of no lower revision.
  pub after_arrivals-access :
      (arrivals : List Arrival) (before : ServerState) (s : AccessState)
      → HasState c json w before.database s
      → IsSound c s
      → (t : AccessState) × HasState c json w (after_arrivals c json w arrivals before).database t
        × Evolves c s t
        × IsSound c t
        × (s.revision ≤ t.revision)
  after_arrivals-access arrivals before s has sound =
      let (t, has_after, evolves) = (after_arrivals-Later arrivals before).database.access s has in
      let (sound_after, later) = Evolves-IsSound c s t evolves sound in
      (t, has_after, evolves, sound_after, later)

  -- Where the texts that the server writes read back: however many requests come, no more join
  -- requests are stored than the limit, if no more were stored at first.
  pub after_arrivals-pending :
      (arrivals : List Arrival) (before : ServerState)
      → length before.database.join_requests ≤ max_pending_join_requests_per_workspace
      → length (after_arrivals c json w arrivals before).database.join_requests
        ≤ max_pending_join_requests_per_workspace
  after_arrivals-pending arrivals before few =
      (after_arrivals-Later arrivals before).database.pending few

  -- Where the texts that the server writes read back: a key envelope that is stored is read as it is
  -- after any requests.
  pub after_arrivals-envelope :
      (arrivals : List Arrival) (before : ServerState) (key_id recipient envelope : Bytes)
      → get_key_envelope key_id recipient before.database ≡ ok (some envelope)
      → get_key_envelope key_id recipient (after_arrivals c json w arrivals before).database
        ≡ ok (some envelope)
  unfolding get_key_envelope
  after_arrivals-envelope arrivals before key_id recipient envelope stored = ap ok (
      (after_arrivals-Later arrivals before).database.envelopes
        record { key_id = key_id; recipient_device_id = recipient } envelope (cc stored))
