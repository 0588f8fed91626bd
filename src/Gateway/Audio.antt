-- ===== src/Gateway/Audio.antt =====
-- transcription.gateway.ts: a chunk of audio from a socket, in two turns, up to the `await` for the
-- session and after it, between which anything else may happen; and the request to stop.
use nangman_note.Base.{
  ℕ, String, Bool, true, false, Option, none, some, List, ok, Run, Outcome, catch, ◌>>=◌, ◌>>◌, ◌-◌,
  ltb, ◌==◌, ◌&&◌, not, or_else, if◌then◌else◌, str_eq, length,
}
use nangman_note.Gateway.{
  Hall, Client, RealtimeService, Limits, put, tell_room, tell_socket, resolve_meeting_id,
}
use nangman_note.Gateway.Sockets.{has, is_socket_auth_expired, disconnect_expired_socket}
use nangman_note.Gateway.Sessions.{
  EnsureSessionResult, Await, served, ensure_realtime_session_started, ensured,
}

-- `AudioAckResponse`, with an absent field empty, 0 or false.
pub record AudioAckResponse : Type 0 where
  pub is_ok : Bool
  pub reason : String
  pub retry_after_ms : ℕ
  pub fallback_to_batch : Bool

abbrev pub accepted : AudioAckResponse
accepted = record { is_ok = true; reason = ""; retry_after_ms = 0; fallback_to_batch = false }

abbrev pub rejected : String → AudioAckResponse
rejected reason = record {
  is_ok = false;
  reason = reason;
  retry_after_ms = 0;
  fallback_to_batch = false;
}

-- What a chunk has come to at the end of its first turn.
pub data Turn : Type 0 where
  answered : AudioAckResponse → Turn
  waits : String → Await → Turn

abbrev pub is_connected : String → Option (List String) → Bool
is_connected socket none = false
is_connected socket (some clients) = has socket clients

module _ {S : Type 0} where
  unfoldable pub log_backpressure : String → ℕ → Hall S → Hall S
  log_backpressure meeting now h =
      if ltb (now - or_else (h.last_backpressure_log_at meeting) 0) 3000
      then h
      else record h { last_backpressure_log_at = put meeting (some now) h.last_backpressure_log_at }

  -- The socket that is rejected is logged once per 30 seconds.
  unfoldable pub log_producer_reject : String → ℕ → Hall S → Hall S
  log_producer_reject meeting now h =
      if ltb 30000 (now - or_else (h.last_producer_reject_log_at meeting) 0)
      then record h {
        last_producer_reject_log_at = put meeting (some now) h.last_producer_reject_log_at;
      }
      else h

  -- Another socket of the meeting, still connected, is its producer.
  unfoldable pub is_taken : String → String → Hall S → Bool
  is_taken socket meeting h = elim (h.meeting_producers meeting) [
    | none ↦ false
    | some producer ↦
        not (str_eq producer socket) && is_connected producer (h.meeting_clients meeting)
  ]

  abbrev pub claim : String → String → Hall S → Hall S
  claim socket meeting h = record h {
    meeting_producers = put meeting (some socket) h.meeting_producers;
  }

  module _ (service : RealtimeService S) (limits : Limits) where
    open service use {
      is_uuid, find_meeting, has_active_realtime_session, is_realtime_session_ready,
      feed_realtime_audio, stop_realtime_session, clear_realtime_time_offset,
    }

    abbrev later : String → AudioAckResponse
    later reason = record (rejected reason) { retry_after_ms = limits.backpressure_retry_ms }

    -- The answer to a chunk that the session did not take.
    unfoldable pub not_fed : String → ℕ → Run (Hall S) AudioAckResponse
    unfolding log_backpressure
    not_fed meeting now h =
        if not (is_realtime_session_ready meeting h.store)
        then (ok (later "session-warming"), h)
        else (if not (has_active_realtime_session meeting h.store)
            then (ok (later "session-start-failed"), h)
            else (ok (later "backpressure"), log_backpressure meeting now h))

    unfoldable pub feed : String → List ℕ → ℕ → EnsureSessionResult → Run (Hall S) AudioAckResponse
    unfolding not_fed
    feed meeting chunk now session h =
        if not session.is_ok
        then (
          ok (record {
            is_ok = false;
            reason = session.reason;
            retry_after_ms = limits.backpressure_retry_ms;
            fallback_to_batch = session.fallback_to_batch;
          }),
          h,
        )
        else (let (taken, s) = feed_realtime_audio meeting chunk h.store in
            if taken
            then (ok accepted, record h { store = s })
            else not_fed meeting now (record h { store = s }))

    unfoldable pub produce : String → String → ℕ → Hall S → Turn × Hall S
    unfolding is_taken log_producer_reject
    produce socket meeting now h =
        if is_taken socket meeting h
        then (answered (rejected "another-producer-active"), log_producer_reject meeting now h)
        else (let (a, h2) =
              ensure_realtime_session_started service limits meeting now (claim socket meeting h) in
            (waits meeting a, h2))

    unfoldable pub take_chunk : String → String → List ℕ → ℕ → Hall S → Turn × Hall S
    unfolding produce
    take_chunk socket meeting chunk now h =
        if length chunk == 0
        then (answered accepted, h)
        else (if ltb limits.max_audio_chunk_bytes (length chunk)
            then (answered (later "chunk-too-large"), h)
            else produce socket meeting now h)

    unfoldable pub audio_of : Option String → String → List ℕ → ℕ → Hall S → Turn × Hall S
    unfolding take_chunk is_socket_auth_expired disconnect_expired_socket
    audio_of none socket chunk now h = (answered (rejected "missing-meeting-id"), h)
    audio_of (some meeting) socket chunk now h =
        if is_socket_auth_expired socket now h
        then (answered (rejected "auth-expired"), disconnect_expired_socket socket h)
        else take_chunk socket meeting chunk now h

    -- `handleAudio` up to its `await`; the chunk is what `toBuffer` makes of the payload, empty if
    -- it makes none.
    unfoldable pub handle_audio : Client → List ℕ → ℕ → Hall S → Turn × Hall S
    unfolding audio_of
    handle_audio client chunk now =
        audio_of (resolve_meeting_id is_uuid client.meeting_id) client.id chunk now

    unfoldable pub audio_failed : String → Run (Hall S) AudioAckResponse
    audio_failed socket h =
        (ok (rejected "audio-processing-failed"), tell_socket socket "transcript:error" h)

    -- `handleAudio` after its `await`, with what the awaited call answered.
    unfoldable pub resume_audio :
        Client → String → List ℕ → Await → Outcome Bool → ℕ → Run (Hall S) AudioAckResponse
    unfolding feed audio_failed
    resume_audio client meeting chunk a answer now =
        catch (ensured a answer meeting now >>= feed meeting chunk now)
          (λ e. audio_failed client.id)

    unfoldable pub stop_running : String → Run (Hall S) (Unit {0})
    stop_running meeting h =
        if has_active_realtime_session meeting h.store
        then served (stop_realtime_session meeting) h
        else (ok tt, h)

    unfoldable pub stopped : String → Run (Hall S) AudioAckResponse
    stopped meeting h = (
      ok accepted,
      tell_room meeting "transcript:session-ended" (
          tell_room meeting "connected"
            (record h { store = clear_realtime_time_offset meeting h.store })),
    )

    unfoldable pub stop_failed : String → Run (Hall S) AudioAckResponse
    stop_failed socket h =
        (ok (rejected "stop-session-failed"), tell_socket socket "transcript:error" h)

    unfoldable pub stop_of : Option String → String → ℕ → Run (Hall S) AudioAckResponse
    unfolding stop_running stopped stop_failed is_socket_auth_expired disconnect_expired_socket
    stop_of none socket now h = (ok (rejected ""), h)
    stop_of (some meeting) socket now h =
        if is_socket_auth_expired socket now h
        then (ok (rejected "auth-expired"), disconnect_expired_socket socket h)
        else catch
            (do
              found ←
                  (λ g. (find_meeting meeting (or_else (h.socket_users socket) none) g.store, g))
              stop_running meeting
              stopped meeting)
            (λ e. stop_failed socket) h

    unfoldable pub handle_stop_session : Client → ℕ → Run (Hall S) AudioAckResponse
    unfolding stop_of
    handle_stop_session client now =
        stop_of (resolve_meeting_id is_uuid client.meeting_id) client.id now
