-- ===== src/Gateway/Events.antt =====
-- transcription.gateway.ts: what every event of the gateway keeps, in any order of the events.
use nangman_note.Base.{
  ℕ, String, Bool, true, false, Option, none, some, List, [], ◌∷◌, ◌≡◌, refl, arith, Outcome, ok,
  str_eq_refl, or_else,
}
use nangman_note.Gateway.{Hall, Client, RealtimeService, Limits, put, resolve_meeting_id}
use nangman_note.Gateway.Sockets.{
  AuthContext, admit_if, connect_to, connect_with, admit, handle_connection, handle_disconnect,
  refuse_socket, grace_over, grace_with, unregister_socket_auth_expiry, disconnect_expired_socket,
  has, add_to_set, register_socket_auth_expiry, register_expiry,
}
use nangman_note.Gateway.Audio.{
  handle_audio, resume_audio, handle_stop_session, stop_of, stop_running, stopped, stop_failed,
}
use nangman_note.Gateway.Producer.{audio-SameClients, resume-SameSockets}
use nangman_note.Gateway.Kept.{connection-ways}
use nangman_note.Gateway.Sessions.{Await, stream_error, record_session_failure, session_closed}
use nangman_note.Gateway.Grace.{
  IsTidy, Same, Same-IsTidy, admit-IsTidy, left-IsTidy, disarmed-IsFilled,
}

-- What can happen: `audio_resumed` is the second turn of a chunk, with what its awaited call
-- answered, and `services_moved` is any change behind the services, between two turns.
pub data Event (S : Type 0) : Type 0 where
  connected : Bool → Outcome AuthContext → Client → ℕ → Event S
  disconnected : Client → Event S
  grace_passed : String → Event S
  audio_sent : Client → List ℕ → ℕ → Event S
  audio_resumed : Client → String → List ℕ → Await → Outcome Bool → ℕ → Event S
  services_moved : S → Event S
  stop_sent : Client → ℕ → Event S
  stream_failed : String → ℕ → Event S
  stream_closed : String → Event S

module _ {S : Type 0} where
  module _ (service : RealtimeService S) (limits : Limits) where
    disconnect-IsTidy :
        (client : Client) (h : Hall S) → IsTidy h → IsTidy (handle_disconnect service client h)
    unfolding handle_disconnect unregister_socket_auth_expiry
    disconnect-IsTidy client h t =
        left-IsTidy (resolve_meeting_id service.is_uuid client.meeting_id) client.id _
          (record { filled = t.filled })

    connection-IsTidy :
        (allowed : Bool) (auth : Outcome AuthContext) (client : Client) (now : ℕ) (h : Hall S)
        → IsTidy h
        → IsTidy (handle_connection service allowed auth client now h)
    unfolding refuse_socket
    connection-IsTidy allowed auth client now h t =
        connection-ways service IsTidy allowed auth client now h (record { filled = t.filled })
          (λ meeting a. admit-IsTidy client.id meeting a now h t)

    graced-IsTidy :
        (o : Option (List String)) (meeting : String) (h : Hall S)
        → IsTidy h
        → IsTidy (grace_with service o meeting h)
    unfolding grace_with
    graced-IsTidy none meeting h t = record {
      filled = λ m.
          disarmed-IsFilled (h.meeting_clients m) h.pending_session_stops meeting m (t.filled m);
    }
    graced-IsTidy (some clients) meeting h t = record {
      filled = λ m.
          disarmed-IsFilled (h.meeting_clients m) h.pending_session_stops meeting m (t.filled m);
    }

    grace-IsTidy :
        (meeting : String) (h : Hall S) → IsTidy h → IsTidy (grace_over service meeting h)
    unfolding grace_over
    grace-IsTidy meeting h t = graced-IsTidy (h.meeting_clients meeting) meeting h t

    audio-IsTidy :
        (client : Client) (chunk : List ℕ) (now : ℕ) (h : Hall S)
        → IsTidy h
        → IsTidy (handle_audio service limits client chunk now h).1
    audio-IsTidy client chunk now h t =
        Same-IsTidy h (handle_audio service limits client chunk now h).1
          (audio-SameClients service limits client chunk now h) t

    stop-Same :
        (o : Option String) (socket : String) (now : ℕ) (h : Hall S)
        → Same h (stop_of service limits o socket now h).1
    unfolding stop_of stop_running stopped stop_failed disconnect_expired_socket
    stop-Same none socket now h = (refl, refl)
    stop-Same (some meeting) socket now h = ground arith

    unfoldable pub step : Event S → Hall S → Hall S
    step (connected allowed auth client now) h = handle_connection service allowed auth client now h
    step (disconnected client) h = handle_disconnect service client h
    step (grace_passed meeting) h = grace_over service meeting h
    step (audio_sent client chunk now) h = (handle_audio service limits client chunk now h).1
    step (audio_resumed client meeting chunk a answer now) h =
        (resume_audio service limits client meeting chunk a answer now h).1
    step (services_moved s) h = record h { store = s }
    step (stop_sent client now) h = (handle_stop_session service limits client now h).1
    step (stream_failed meeting now) h = stream_error meeting now h
    step (stream_closed meeting) h = session_closed meeting h

    unfoldable pub run : List (Event S) → Hall S → Hall S
    unfolding step
    run [] h = h
    run (e ∷ es) h = run es (step e h)

    step-IsTidy : (e : Event S) (h : Hall S) → IsTidy h → IsTidy (step e h)
    unfolding step handle_stop_session stream_error record_session_failure
    step-IsTidy (connected allowed auth client now) h t =
        connection-IsTidy allowed auth client now h t
    step-IsTidy (disconnected client) h t = disconnect-IsTidy client h t
    step-IsTidy (grace_passed meeting) h t = grace-IsTidy meeting h t
    step-IsTidy (audio_sent client chunk now) h t = audio-IsTidy client chunk now h t
    step-IsTidy (audio_resumed client meeting chunk a answer now) h t =
        let (p, q, r) = resume-SameSockets service limits client meeting chunk a answer now h in
        Same-IsTidy h (resume_audio service limits client meeting chunk a answer now h).1 (q, r) t
    step-IsTidy (services_moved s) h t = record { filled = t.filled }
    step-IsTidy (stop_sent client now) h t =
        let o = resolve_meeting_id service.is_uuid client.meeting_id in
        Same-IsTidy h (stop_of service limits o client.id now h).1 (stop-Same o client.id now h) t
    step-IsTidy (stream_failed meeting now) h t = record { filled = t.filled }
    step-IsTidy (stream_closed meeting) h t = record { filled = t.filled }

    -- Whatever connections, losses of sockets, turns of chunks, stops, stream failures, timers and
    -- changes behind the services follow each other, a meeting with a set of sockets has a socket in it and no timer that is to end
    -- its session.
    pub run-IsTidy : (es : List (Event S)) (h : Hall S) → IsTidy h → IsTidy (run es h)
    unfolding run
    run-IsTidy [] h t = t
    run-IsTidy (e ∷ es) h t = run-IsTidy es (step e h) (step-IsTidy e h t)

    add_to_set-has : (x : String) (xs : List String) → has x (add_to_set x xs) ≡ true
    add_to_set-has x xs = grind (arith, str_eq_refl x)

    connection-admit :
        (auth : AuthContext) (client : Client) (meeting : String) (now : ℕ) (h : Hall S)
        → resolve_meeting_id service.is_uuid client.meeting_id ≡ some meeting
        → service.find_meeting meeting auth.owner_sub h.store ≡ ok tt
        → handle_connection service true (ok auth) client now h ≡ admit client.id meeting auth now h
    unfolding handle_connection connect_to connect_with admit_if
    connection-admit auth client meeting now h e f = rw (e, f) refl

    expiry-store :
        (socket : String) (at : Option ℕ) (now : ℕ) (h : Hall S)
        → (register_socket_auth_expiry socket at now h).store ≡ h.store
    unfolding register_socket_auth_expiry register_expiry unregister_socket_auth_expiry
        disconnect_expired_socket
    expiry-store socket none now h = refl
    expiry-store socket (some at) now h = ground arith

    -- What a socket that is admitted finds.
    admit-kept :
        (auth : AuthContext) (socket meeting : String) (now : ℕ) (h : Hall S)
        → let h' = admit socket meeting auth now h in
          ((clients : List String) × (h'.meeting_clients meeting ≡ some clients)
            × (has socket clients ≡ true))
          × (h'.pending_session_stops meeting ≡ false)
          × ((grace_over service meeting h').store ≡ h.store)
    unfolding admit grace_over grace_with
    admit-kept auth socket meeting now h =
        let users = record h { socket_users = put socket (some auth.owner_sub) h.socket_users } in
        let h2 = register_socket_auth_expiry socket auth.expires_at_ms now users in
        let same = str_eq_refl meeting in
        (
          (
            add_to_set socket (or_else (h2.meeting_clients meeting) []),
            rw same refl,
            add_to_set-has socket (or_else (h2.meeting_clients meeting) []),
          ),
          rw same refl,
          rw same (expiry-store socket auth.expires_at_ms now users),
        )

    -- A socket that is accepted for its meeting is among the meeting's sockets, the timer of an
    -- earlier loss is disarmed, and when that timer's time has come nevertheless, the meeting's
    -- session and everything else behind the services is left as it was.
    pub reconnected-kept :
        (auth : AuthContext) (client : Client) (meeting : String) (now : ℕ) (h : Hall S)
        → resolve_meeting_id service.is_uuid client.meeting_id ≡ some meeting
        → service.find_meeting meeting auth.owner_sub h.store ≡ ok tt
        → let h' = handle_connection service true (ok auth) client now h in
          ((clients : List String) × (h'.meeting_clients meeting ≡ some clients)
            × (has client.id clients ≡ true))
          × (h'.pending_session_stops meeting ≡ false)
          × ((grace_over service meeting h').store ≡ h.store)
    reconnected-kept auth client meeting now h e f =
        rw (connection-admit auth client meeting now h e f)
          (admit-kept auth client.id meeting now h)
