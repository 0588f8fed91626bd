-- ===== src/Gateway/Monopoly.antt =====
-- transcription.gateway.ts: over any events, the sound of a meeting comes from its one producer.
use nangman_note.Base.{
  ℕ, String, Bool, true, false, Option, none, some, List, [], ◌∷◌, ◌≡◌, ◌≢◌, refl, arith, str_eq,
  All, Bool-cases, inl, inr, eq_iff,
}
use nangman_note.Gateway.{Hall, Client, RealtimeService, Limits, resolve_meeting_id}
use nangman_note.Gateway.Sockets.{
  handle_disconnect, refuse_socket, grace_over, grace_with, unregister_socket_auth_expiry,
  disconnect_expired_socket,
}
use nangman_note.Gateway.Sessions.{stream_error, record_session_failure}
use nangman_note.Gateway.Audio.{
  Turn, answered, waits, is_taken, claim, produce, take_chunk, audio_of, handle_audio,
  log_producer_reject,
}
use nangman_note.Gateway.Kept.{connection-ways, stop-SameRoles}
use nangman_note.Gateway.Producer.{ensure-SameSockets, resume-SameSockets}
use nangman_note.Gateway.Roles.{IsProducer, same-IsProducer, admit-IsProducer, left-IsProducer}
use nangman_note.Gateway.Events.{
  Event, connected, disconnected, grace_passed, audio_sent, audio_resumed, services_moved,
  stop_sent, stream_failed, stream_closed, step, run,
}

-- The chunk is answered in its first turn.
abbrev pub is_answered : Turn → Bool
is_answered (answered a) = true
is_answered (waits meeting a) = false

-- The event is not the loss of the socket.
abbrev pub Stays : {S : Type 0} → String → Event S → Type 0
Stays p (disconnected client) = str_eq client.id p ≡ false
Stays p e = Unit {0}

module _ {S : Type 0} where
  claimed-IsProducer :
      (p m socket meeting : String) (h : Hall S)
      → is_taken socket meeting h ≡ false
      → IsProducer p m h
      → IsProducer p m (claim socket meeting h)
  unfolding is_taken
  claimed-IsProducer p m socket meeting h t i = elim (Bool-cases (str_eq m meeting)) [
    | inl e ↦
        let same : m ≡ meeting = (eq_iff m meeting).0 e in
        record {
          is_producer = grind (arith, i.is_producer, i.connected, same, eq_iff p socket);
          connected = i.connected;
        }
    | inr e ↦ record { is_producer = rw e i.is_producer; connected = i.connected }
  ]

  module _ (service : RealtimeService S) (limits : Limits) where
    produce-IsProducer :
        (p m socket meeting : String) (now : ℕ) (h : Hall S)
        → IsProducer p m h
        → IsProducer p m (produce service limits socket meeting now h).1
    unfolding produce log_producer_reject
    produce-IsProducer p m socket meeting now h i = elim (Bool-cases (is_taken socket meeting h)) [
      | inl t ↦ rw t (same-IsProducer p m h _ (ground arith) (ground arith) i)
      | inr t ↦
          let (e, f, g) = ensure-SameSockets service limits meeting now (claim socket meeting h) in
          rw t (
            same-IsProducer p m (claim socket meeting h) _ e f
              (claimed-IsProducer p m socket meeting h t i))
    ]

    audio_of-IsProducer :
        (p m : String) (o : Option String) (socket : String) (chunk : List ℕ) (now : ℕ) (h : Hall S)
        → IsProducer p m h
        → IsProducer p m (audio_of service limits o socket chunk now h).1
    unfolding audio_of take_chunk disconnect_expired_socket
    audio_of-IsProducer p m none socket chunk now h i = i
    audio_of-IsProducer p m (some meeting) socket chunk now h i =
        grind (arith, i, same-IsProducer p m h, produce-IsProducer p m socket meeting now h i)

    grace-IsProducer :
        (p m meeting : String) (h : Hall S)
        → IsProducer p m h
        → IsProducer p m (grace_over service meeting h)
    unfolding grace_over grace_with
    grace-IsProducer p m meeting h i = grind (arith, i.is_producer, i.connected, eq_iff m meeting)

    step-IsProducer :
        (p m : String) (e : Event S) (h : Hall S)
        → Stays p e
        → IsProducer p m h
        → IsProducer p m (step service limits e h)
    unfolding step refuse_socket handle_disconnect unregister_socket_auth_expiry handle_audio
        stream_error record_session_failure
    step-IsProducer p m (connected allowed auth client now) h s i =
        connection-ways service (IsProducer p m) allowed auth client now h
          (same-IsProducer p m h _ refl refl i)
          (λ meeting a. admit-IsProducer p m client.id meeting a now h i)
    step-IsProducer p m (disconnected client) h s i =
        left-IsProducer p m (resolve_meeting_id service.is_uuid client.meeting_id) client.id _ s
          (same-IsProducer p m h _ refl refl i)
    step-IsProducer p m (grace_passed meeting) h s i = grace-IsProducer p m meeting h i
    step-IsProducer p m (audio_sent client chunk now) h s i =
        audio_of-IsProducer p m (resolve_meeting_id service.is_uuid client.meeting_id) client.id
          chunk now h i
    step-IsProducer p m (audio_resumed client meeting chunk a answer now) h s i =
        let (e, f, g) = resume-SameSockets service limits client meeting chunk a answer now h in
        same-IsProducer p m h _ e f i
    step-IsProducer p m (services_moved t) h s i = same-IsProducer p m h _ refl refl i
    step-IsProducer p m (stop_sent client now) h s i =
        let ((e, f), g) = stop-SameRoles service limits client now h in
        same-IsProducer p m h _ e g i
    step-IsProducer p m (stream_failed meeting now) h s i = same-IsProducer p m h _ refl refl i
    step-IsProducer p m (stream_closed meeting) h s i = same-IsProducer p m h _ refl refl i

    pub run-IsProducer :
        (p m : String) (es : List (Event S)) (h : Hall S)
        → All (Stays p) es
        → IsProducer p m h
        → IsProducer p m (run service limits es h)
    unfolding run
    run-IsProducer p m [] h s i = i
    run-IsProducer p m (e ∷ es) h s i =
        run-IsProducer p m es (step service limits e h) s.1 (step-IsProducer p m e h s.0 i)

    taken-answered :
        (p m : String) (client : Client) (chunk : List ℕ) (now : ℕ) (h : Hall S)
        → resolve_meeting_id service.is_uuid client.meeting_id ≡ some m
        → client.id ≢ p
        → IsProducer p m h
        → (is_answered (handle_audio service limits client chunk now h).0 ≡ true)
          × ((handle_audio service limits client chunk now h).1.starting_session
              ≡ h.starting_session)
          × ((handle_audio service limits client chunk now h).1.store ≡ h.store)
    unfolding handle_audio audio_of take_chunk produce log_producer_reject is_taken
        disconnect_expired_socket
    taken-answered p m client chunk now h e n i =
        let taken : is_taken client.id m h ≡ true =
          grind (arith, i.is_producer, i.connected, eq_iff p client.id) in
        ground (arith, e, taken)

    -- While a meeting's producer stays connected, whatever else happens, it stays the producer, and
    -- a chunk that another socket sends for the meeting is answered at once: it neither waits for a
    -- session nor starts one, and nothing behind the services changes.
    pub intruder_answered :
        (p m : String) (es : List (Event S)) (client : Client) (chunk : List ℕ) (now : ℕ)
        (h : Hall S)
        → IsProducer p m h
        → All (Stays p) es
        → resolve_meeting_id service.is_uuid client.meeting_id ≡ some m
        → client.id ≢ p
        → let h' = run service limits es h in
          IsProducer p m h'
          × (is_answered (handle_audio service limits client chunk now h').0 ≡ true)
          × ((handle_audio service limits client chunk now h').1.starting_session
              ≡ h'.starting_session)
          × ((handle_audio service limits client chunk now h').1.store ≡ h'.store)
    intruder_answered p m es client chunk now h i s e n =
        let j = run-IsProducer p m es h s i in
        let (a, b, c) = taken-answered p m client chunk now (run service limits es h) e n j in
        (j, a, b, c)
