-- ===== src/Gateway/Producer.antt =====
-- transcription.gateway.ts: the sound of one meeting comes from one socket; the two turns of a chunk.
use nangman_note.Base.{
  ℕ, String, Bool, List, ◌≡◌, inl, inr, refl, arith, Outcome, ok, thrown, after, Option-cases,
}
use nangman_note.Gateway.{Hall, Client, RealtimeService, Limits, resolve_meeting_id}
use nangman_note.Gateway.Sockets.{disconnect_expired_socket}
use nangman_note.Gateway.Sessions.{
  EnsureSessionResult, Await, running, starting, switching_full, switching_unstable,
  ensure_realtime_session_started, ensured, start_session, fall_back_full, fall_back_unstable,
  start_or_fall_back, start_failed, start_succeeded, forget_failures, record_session_failure,
  unlock,
}
use nangman_note.Gateway.Audio.{
  claim, feed, not_fed, log_backpressure, produce, take_chunk, audio_of, handle_audio, resume_audio,
  audio_failed, log_producer_reject,
}

module _ {S : Type 0} where
  -- What a call leaves as it is.
  abbrev pub SameSockets : Hall S → Hall S → Type 0
  SameSockets h h' =
      (h'.meeting_producers ≡ h.meeting_producers)
      × (h'.meeting_clients ≡ h.meeting_clients)
      × (h'.pending_session_stops ≡ h.pending_session_stops)

  ensured-SameSockets :
      (a : Await) (answer : Outcome Bool) (meeting : String) (now : ℕ) (h : Hall S)
      → SameSockets h (ensured a answer meeting now h).1
  unfolding ensured fall_back_full fall_back_unstable start_failed start_succeeded
      record_session_failure unlock
  ensured-SameSockets running answer meeting now h = (refl, refl, refl)
  ensured-SameSockets starting (ok b) meeting now h = (refl, refl, refl)
  ensured-SameSockets starting (thrown e) meeting now h = (refl, refl, refl)
  ensured-SameSockets switching_unstable (ok b) meeting now h = ground arith
  ensured-SameSockets switching_unstable (thrown e) meeting now h = (refl, refl, refl)
  ensured-SameSockets switching_full (ok b) meeting now h = ground arith
  ensured-SameSockets switching_full (thrown e) meeting now h = (refl, refl, refl)

  module _ (service : RealtimeService S) (limits : Limits) where
    pub ensure-SameSockets :
        (meeting : String) (now : ℕ) (h : Hall S)
        → SameSockets h (ensure_realtime_session_started service limits meeting now h).1
    unfolding ensure_realtime_session_started start_session start_or_fall_back forget_failures
    ensure-SameSockets meeting now h = grind arith

    feed-SameSockets :
        (meeting : String) (chunk : List ℕ) (now : ℕ) (r : EnsureSessionResult) (h : Hall S)
        → SameSockets h (feed service limits meeting chunk now r h).1
    unfolding feed not_fed log_backpressure
    feed-SameSockets meeting chunk now r h = grind arith

    fed-SameSockets :
        (r : Outcome EnsureSessionResult) (meeting : String) (chunk : List ℕ) (now : ℕ) (h : Hall S)
        → SameSockets h (after r (feed service limits meeting chunk now) h).1
    fed-SameSockets (ok r) meeting chunk now h = feed-SameSockets meeting chunk now r h
    fed-SameSockets (thrown e) meeting chunk now h = (refl, refl, refl)

    -- The second turn of a chunk changes no socket's place.
    pub resume-SameSockets :
        (client : Client) (meeting : String) (chunk : List ℕ) (a : Await) (answer : Outcome Bool)
        (now : ℕ) (h : Hall S)
        → SameSockets h (resume_audio service limits client meeting chunk a answer now h).1
    unfolding resume_audio audio_failed
    resume-SameSockets client meeting chunk a answer now h =
        let (r, h2) = ensured a answer meeting now h in
        grind (
          arith,
          ensured-SameSockets a answer meeting now h,
          fed-SameSockets r meeting chunk now h2,
        )

    produce-Sockets :
        (socket meeting : String) (now : ℕ) (h : Hall S)
        → let h' = (produce service limits socket meeting now h).1 in
          (h'.meeting_clients ≡ h.meeting_clients)
          × (h'.pending_session_stops ≡ h.pending_session_stops)
    unfolding produce log_producer_reject
    produce-Sockets socket meeting now h =
        grind (arith, ensure-SameSockets meeting now (claim socket meeting h))

    pub audio-SameClients :
        (client : Client) (chunk : List ℕ) (now : ℕ) (h : Hall S)
        → let h' = (handle_audio service limits client chunk now h).1 in
          (h'.meeting_clients ≡ h.meeting_clients)
          × (h'.pending_session_stops ≡ h.pending_session_stops)
    unfolding handle_audio audio_of take_chunk disconnect_expired_socket
    audio-SameClients client chunk now h =
        elim (Option-cases (resolve_meeting_id service.is_uuid client.meeting_id)) [
          | inl e ↦ grind arith
          | inr (meeting, e) ↦ grind (arith, produce-Sockets client.id meeting now h)
        ]
