-- ===== src/Gateway/Kept.antt =====
-- transcription.gateway.ts: what connections, losses of sockets and stops leave as it is.
use nangman_note.Base.{
  ℕ, String, Bool, true, false, Option, none, some, List, ◌≡◌, refl, arith, Outcome, ok, thrown,
}
use nangman_note.Gateway.{put, Hall, Client, RealtimeService, Limits, resolve_meeting_id}
use nangman_note.Gateway.Sockets.{
  AuthContext, admit_if, connect_to, connect_with, admit, handle_connection, handle_disconnect,
  refuse_socket, unregister_socket_auth_expiry, disconnect_expired_socket, leave, leave_with, left,
  release_producer, register_socket_auth_expiry, register_expiry,
}
use nangman_note.Gateway.Audio.{handle_stop_session, stop_of, stop_running, stopped, stop_failed}

module _ {S : Type 0} where
  abbrev pub SameRoles : Hall S → Hall S → Type 0
  SameRoles h h' =
      (h'.meeting_producers ≡ h.meeting_producers) × (h'.session_failures ≡ h.session_failures)

  pub expiry-SameRoles :
      (socket : String) (at : Option ℕ) (now : ℕ) (h : Hall S)
      → SameRoles h (register_socket_auth_expiry socket at now h)
        × ((register_socket_auth_expiry socket at now h).meeting_clients ≡ h.meeting_clients)
  unfolding register_socket_auth_expiry register_expiry unregister_socket_auth_expiry
      disconnect_expired_socket
  expiry-SameRoles socket none now h = ((refl, refl), refl)
  expiry-SameRoles socket (some at) now h = ground arith

  leave-failures :
      (socket meeting : String) (o : Option (List String)) (h : Hall S)
      → (leave_with socket meeting o h).session_failures ≡ h.session_failures
  unfolding leave_with
  leave-failures socket meeting none h = refl
  leave-failures socket meeting (some clients) h = ground arith

  released-failures :
      (socket meeting : String) (h : Hall S)
      → (release_producer socket meeting h).session_failures ≡ h.session_failures
  unfolding release_producer
  released-failures socket meeting h = ground arith

  left-failures :
      (o : Option String) (socket : String) (h : Hall S)
      → (left o socket h).session_failures ≡ h.session_failures
  unfolding leave
  left-failures none socket h = refl
  left-failures (some meeting) socket h =
      let h2 = release_producer socket meeting h in
      grind (
        arith,
        leave-failures socket meeting (h2.meeting_clients meeting) h2,
        released-failures socket meeting h,
      )

  admit-SameRoles :
      (socket meeting : String) (auth : AuthContext) (now : ℕ) (h : Hall S)
      → SameRoles h (admit socket meeting auth now h)
  unfolding admit
  admit-SameRoles socket meeting auth now h =
      let users = record h { socket_users = put socket (some auth.owner_sub) h.socket_users } in
      (expiry-SameRoles socket auth.expires_at_ms now users).0

  module _ (service : RealtimeService S) (P : Hall S → Type 0) where
    admitted-ways :
        (r : Outcome (Unit {0})) (socket meeting : String) (auth : AuthContext) (now : ℕ)
        (h : Hall S)
        → P (refuse_socket socket h)
        → P (admit socket meeting auth now h)
        → P (admit_if r socket meeting auth now h)
    unfolding admit_if
    admitted-ways (thrown e) socket meeting auth now h p q = p
    admitted-ways (ok u) socket meeting auth now h p q = q

    connect_with-ways :
        (socket meeting : String) (auth : Outcome AuthContext) (now : ℕ) (h : Hall S)
        → P (refuse_socket socket h)
        → ((a : AuthContext) → P (admit socket meeting a now h))
        → P (connect_with service socket meeting auth now h)
    unfolding connect_with
    connect_with-ways socket meeting (thrown e) now h p q = p
    connect_with-ways socket meeting (ok auth) now h p q =
        admitted-ways (service.find_meeting meeting auth.owner_sub h.store) socket meeting auth now
          h p (q auth)

    connect_to-ways :
        (o : Option String) (socket : String) (auth : Outcome AuthContext) (now : ℕ) (h : Hall S)
        → P (refuse_socket socket h)
        → ((meeting : String) (a : AuthContext) → P (admit socket meeting a now h))
        → P (connect_to service o socket auth now h)
    unfolding connect_to
    connect_to-ways none socket auth now h p q = p
    connect_to-ways (some meeting) socket auth now h p q =
        connect_with-ways socket meeting auth now h p (q meeting)

    -- A connection is refused, or admitted for some meeting.
    pub connection-ways :
        (allowed : Bool) (auth : Outcome AuthContext) (client : Client) (now : ℕ) (h : Hall S)
        → P (refuse_socket client.id h)
        → ((meeting : String) (a : AuthContext) → P (admit client.id meeting a now h))
        → P (handle_connection service allowed auth client now h)
    unfolding handle_connection
    connection-ways false auth client now h p q = p
    connection-ways true auth client now h p q =
        connect_to-ways (resolve_meeting_id service.is_uuid client.meeting_id) client.id auth now h
          p q

  module _ (service : RealtimeService S) (limits : Limits) where
    pub connection-SameRoles :
        (allowed : Bool) (auth : Outcome AuthContext) (client : Client) (now : ℕ) (h : Hall S)
        → SameRoles h (handle_connection service allowed auth client now h)
    unfolding refuse_socket
    connection-SameRoles allowed auth client now h =
        connection-ways service (SameRoles h) allowed auth client now h (refl, refl)
          (λ meeting a. admit-SameRoles client.id meeting a now h)

    pub disconnect-failures :
        (client : Client) (h : Hall S)
        → (handle_disconnect service client h).session_failures ≡ h.session_failures
    unfolding handle_disconnect unregister_socket_auth_expiry
    disconnect-failures client h =
        left-failures (resolve_meeting_id service.is_uuid client.meeting_id) client.id _

    stop_of-SameRoles :
        (o : Option String) (socket : String) (now : ℕ) (h : Hall S)
        → SameRoles h (stop_of service limits o socket now h).1
          × ((stop_of service limits o socket now h).1.meeting_clients ≡ h.meeting_clients)
    unfolding stop_of stop_running stopped stop_failed disconnect_expired_socket
    stop_of-SameRoles none socket now h = ((refl, refl), refl)
    stop_of-SameRoles (some meeting) socket now h = ground arith

    pub stop-SameRoles :
        (client : Client) (now : ℕ) (h : Hall S)
        → SameRoles h (handle_stop_session service limits client now h).1
          × ((handle_stop_session service limits client now h).1.meeting_clients
              ≡ h.meeting_clients)
    unfolding handle_stop_session
    stop-SameRoles client now h =
        stop_of-SameRoles (resolve_meeting_id service.is_uuid client.meeting_id) client.id now h
