-- ===== src/Gateway/Sockets.antt =====
-- transcription.gateway.ts: how sockets come and go, and how long their access tokens last.
use nangman_note.Base.{
  ℕ, String, Bool, true, false, Option, none, some, List, [], ◌∷◌, Outcome, ok, thrown, ◌+◌, leb,
  ◌==◌, not, or_else, if◌then◌else◌, str_eq, any, filter,
}
use nangman_note.Gateway.{
  Hall, Client, RealtimeService, put, tell_socket, drop_socket, resolve_meeting_id,
  access_token_clock_tolerance_ms,
}

abbrev pub has : String → List String → Bool
has x xs = any (str_eq x) xs

-- `Set.add` and `Set.delete`.
abbrev pub add_to_set : String → List String → List String
add_to_set x xs = if has x xs then xs else x ∷ xs

abbrev pub delete_from_set : String → List String → List String
delete_from_set x xs = filter (λ y. not (str_eq x y)) xs

abbrev pub is_empty : List String → Bool
is_empty [] = true
is_empty (x ∷ xs) = false

-- What the handshake of a socket gave: the origin is allowed, and the verified token's owner and
-- expiry, `none` where authentication is off.
pub record AuthContext : Type 0 where
  pub owner_sub : Option String
  pub expires_at_ms : Option ℕ

module _ {S : Type 0} where
  unfoldable pub unregister_socket_auth_expiry : String → Hall S → Hall S
  unregister_socket_auth_expiry socket h = record h {
    socket_auth_expiry_timers = put socket false h.socket_auth_expiry_timers;
    socket_auth_expires_at = put socket none h.socket_auth_expires_at;
  }

  unfoldable pub disconnect_expired_socket : String → Hall S → Hall S
  disconnect_expired_socket socket h = drop_socket socket (tell_socket socket "error" h)

  unfoldable pub register_expiry : String → Option ℕ → ℕ → Hall S → Hall S
  unfolding disconnect_expired_socket
  register_expiry socket none now h = h
  register_expiry socket (some at) now h =
      if at == 0
      then h
      else (let h2 = record h {
        socket_auth_expires_at = put socket (some at) h.socket_auth_expires_at;
      } in
          if leb (at + access_token_clock_tolerance_ms) now
          then disconnect_expired_socket socket h2
          else record h2 {
            socket_auth_expiry_timers = put socket true h2.socket_auth_expiry_timers;
          })

  unfoldable pub register_socket_auth_expiry : String → Option ℕ → ℕ → Hall S → Hall S
  unfolding unregister_socket_auth_expiry register_expiry
  register_socket_auth_expiry socket expires_at_ms now h =
      register_expiry socket expires_at_ms now (unregister_socket_auth_expiry socket h)

  unfoldable pub is_socket_auth_expired : String → ℕ → Hall S → Bool
  is_socket_auth_expired socket now h = elim (h.socket_auth_expires_at socket) [
    | none ↦ false
    | some at ↦ leb (at + access_token_clock_tolerance_ms) now
  ]

  -- A socket whose token and meeting were accepted.
  unfoldable pub admit : String → String → AuthContext → ℕ → Hall S → Hall S
  unfolding register_socket_auth_expiry
  admit socket meeting auth now h =
      let h2 =
        register_socket_auth_expiry socket auth.expires_at_ms now
          (record h { socket_users = put socket (some auth.owner_sub) h.socket_users }) in
      tell_socket socket "connected" (record h2 {
        meeting_clients =
            put meeting (some (add_to_set socket (or_else (h2.meeting_clients meeting) [])))
              h2.meeting_clients;
        pending_session_stops = put meeting false h2.pending_session_stops;
      })

  unfoldable pub refuse_socket : String → Hall S → Hall S
  refuse_socket socket h = drop_socket socket (tell_socket socket "error" h)

  unfoldable pub admit_if : Outcome (Unit {0}) → String → String → AuthContext → ℕ → Hall S → Hall S
  unfolding admit refuse_socket
  admit_if (thrown e) socket meeting auth now h = refuse_socket socket h
  admit_if (ok u) socket meeting auth now h = admit socket meeting auth now h

  unfoldable pub connect_with :
      RealtimeService S → String → String → Outcome AuthContext → ℕ → Hall S → Hall S
  unfolding admit_if
  connect_with service socket meeting (thrown e) now h = refuse_socket socket h
  connect_with service socket meeting (ok auth) now h =
      admit_if (service.find_meeting meeting auth.owner_sub h.store) socket meeting auth now h

  unfoldable pub connect_to :
      RealtimeService S → Option String → String → Outcome AuthContext → ℕ → Hall S → Hall S
  unfolding connect_with
  connect_to service none socket auth now h = refuse_socket socket h
  connect_to service (some meeting) socket auth now h =
      connect_with service socket meeting auth now h

  -- `handleConnection`, with whether the origin is allowed and what the token's verification gave.
  unfoldable pub handle_connection :
      RealtimeService S → Bool → Outcome AuthContext → Client → ℕ → Hall S → Hall S
  unfolding connect_to
  handle_connection service false auth client now h = refuse_socket client.id h
  handle_connection service true auth client now h =
      connect_to service (resolve_meeting_id service.is_uuid client.meeting_id) client.id auth now h

  unfoldable pub release_producer : String → String → Hall S → Hall S
  release_producer socket meeting h =
      if elim (h.meeting_producers meeting) [ none ↦ false | some p ↦ str_eq p socket ]
      then record h { meeting_producers = put meeting none h.meeting_producers }
      else h

  -- The set of the meeting's sockets without the one that left: when it is empty, the session's end
  -- is put off for the grace period.
  unfoldable pub leave_with : String → String → Option (List String) → Hall S → Hall S
  leave_with socket meeting none h = h
  leave_with socket meeting (some clients) h =
      if is_empty (delete_from_set socket clients)
      then record h {
        meeting_clients = put meeting none h.meeting_clients;
        last_backpressure_log_at = put meeting none h.last_backpressure_log_at;
        last_producer_reject_log_at = put meeting none h.last_producer_reject_log_at;
        pending_session_stops = put meeting true h.pending_session_stops;
      }
      else record h {
        meeting_clients = put meeting (some (delete_from_set socket clients)) h.meeting_clients;
      }

  unfoldable pub leave : String → String → Hall S → Hall S
  unfolding release_producer leave_with
  leave socket meeting h =
      let h2 = release_producer socket meeting h in
      leave_with socket meeting (h2.meeting_clients meeting) h2

  abbrev pub left : Option String → String → Hall S → Hall S
  left none socket h = h
  left (some meeting) socket h = leave socket meeting h

  unfoldable pub handle_disconnect : RealtimeService S → Client → Hall S → Hall S
  unfolding unregister_socket_auth_expiry leave
  handle_disconnect service client h =
      left (resolve_meeting_id service.is_uuid client.meeting_id) client.id (
        unregister_socket_auth_expiry client.id
          (record h { socket_users = put client.id none h.socket_users }))

  unfoldable pub grace_with : RealtimeService S → Option (List String) → String → Hall S → Hall S
  grace_with service (some clients) meeting h = record h {
    pending_session_stops = put meeting false h.pending_session_stops;
  }
  grace_with service none meeting h = record h {
    pending_session_stops = put meeting false h.pending_session_stops;
    session_failures = put meeting none h.session_failures;
    meeting_producers = put meeting none h.meeting_producers;
    store =
        if service.has_active_realtime_session meeting h.store
        then (service.stop_realtime_session meeting h.store).1
        else h.store;
  }

  -- The timer of the grace period: the session ends unless a socket has come back.
  unfoldable pub grace_over : RealtimeService S → String → Hall S → Hall S
  unfolding grace_with
  grace_over service meeting h = grace_with service (h.meeting_clients meeting) meeting h
