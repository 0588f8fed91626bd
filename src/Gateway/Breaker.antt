-- ===== src/Gateway/Breaker.antt =====
-- transcription.gateway.ts: the circuit breaker over any events, and the lock of a start.
use nangman_note.Base.{
  ℕ, String, Bool, true, false, Option, none, some, List, [], ◌∷◌, ◌≡◌, ◌≢◌, ◌≤◌, ◌<◌, ◌-◌, ◌+◌,
  arith, refl, after, Outcome, ok, thrown, str_eq, str_eq_refl, All, Bool-cases, inl, inr, eq_iff,
}
use nangman_note.Gateway.{
  SessionFailures, Hall, Client, RealtimeService, Limits, put, resolve_meeting_id,
}
use nangman_note.Gateway.Sockets.{grace_over, grace_with, disconnect_expired_socket}
use nangman_note.Gateway.Audio.{
  waits, handle_audio, audio_of, take_chunk, produce, resume_audio, audio_failed, feed, not_fed,
  log_backpressure, log_producer_reject, claim,
}
use nangman_note.Gateway.Kept.{connection-SameRoles, disconnect-failures, stop-SameRoles}
use nangman_note.Gateway.Events.{
  Event, connected, disconnected, grace_passed, audio_sent, audio_resumed, services_moved,
  stop_sent, stream_failed, stream_closed, step, run,
}
use nangman_note.Gateway.Sessions.{
  Await, running, starting, switching_full, switching_unstable, failed_again,
  ensure_realtime_session_started, ensured, start_session, fall_back_full, fall_back_unstable,
  start_or_fall_back, start_failed, start_succeeded, forget_failures, record_session_failure,
  unlock, is_open, is_reset, stream_error, EnsureSessionResult,
}

-- The breaker is open at every time before `end`.
abbrev pub IsOpenUntil : ℕ → Option SessionFailures → Type 0
IsOpenUntil end none = ⊥
IsOpenUntil end (some f) = (3 ≤ f.count) × (end ≤ f.last_at + 60000)

-- The time is within the minute that ends at `end`.
abbrev pub Within : ℕ → ℕ → Type 0
Within end now = (now < end) × (end ≤ now + 60000)

-- The start of a session of the meeting that waited did not succeed.
abbrev pub NoStart : String → String → Await → Outcome Bool → Type 0
NoStart m meeting starting (ok b) = str_eq m meeting ≡ false
NoStart m meeting a answer = Unit {0}

-- An event of that minute which is neither a start of a session of the meeting that succeeds, nor
-- the end of the meeting's grace period.
abbrev pub KeepsBreaker : {S : Type 0} → ℕ → String → Event S → Type 0
KeepsBreaker end m (grace_passed meeting) = str_eq m meeting ≡ false
KeepsBreaker end m (audio_sent client chunk now) = Within end now
KeepsBreaker end m (audio_resumed client meeting chunk a answer now) =
    Within end now × NoStart m meeting a answer
KeepsBreaker end m (stream_failed meeting now) = Within end now
KeepsBreaker end m e = Unit {0}

open-is_open :
    (end now : ℕ) (o : Option SessionFailures)
    → now < end
    → IsOpenUntil end o
    → is_open o now ≡ true
open-is_open end now none t b = ground arith
open-is_open end now (some f) t b = ground arith

open-not_reset :
    (end now : ℕ) (o : Option SessionFailures)
    → now < end
    → IsOpenUntil end o
    → is_reset o now ≡ false
open-not_reset end now none t b = ground arith
open-not_reset end now (some f) t b = ground arith

failed-open :
    (end now : ℕ) (o : Option SessionFailures)
    → Within end now
    → IsOpenUntil end o
    → IsOpenUntil end (some (failed_again o now))
failed-open end now none t b = ground arith
failed-open end now (some f) t b = ground arith

put-open :
    (end : ℕ) (m key : String) (c : Option SessionFailures) (f : String → Option SessionFailures)
    → (m ≡ key → IsOpenUntil end c)
    → IsOpenUntil end (f m)
    → IsOpenUntil end (put key c f m)
put-open end m key c f h k = elim (Bool-cases (str_eq m key)) [
  | inl e ↦ rw e (h ((eq_iff m key).0 e))
  | inr e ↦ rw e k
]

module _ {S : Type 0} where
  abbrev IsOpen : ℕ → String → Hall S → Type 0
  IsOpen end m h = IsOpenUntil end (h.session_failures m)

  recorded-IsOpen :
      (end : ℕ) (m meeting : String) (now : ℕ) (h : Hall S)
      → Within end now
      → IsOpen end m h
      → IsOpen end m (record_session_failure meeting now h)
  unfolding record_session_failure
  recorded-IsOpen end m meeting now h t b =
      put-open end m meeting _ h.session_failures
        (λ s. failed-open end now (h.session_failures meeting) t (rw s at b)) b

  ensured-IsOpen :
      (end : ℕ) (m : String) (a : Await) (answer : Outcome Bool) (meeting : String) (now : ℕ)
      (h : Hall S)
      → Within end now
      → NoStart m meeting a answer
      → IsOpen end m h
      → IsOpen end m (ensured a answer meeting now h).1
  unfolding ensured fall_back_full fall_back_unstable start_failed start_succeeded unlock
  ensured-IsOpen end m running answer meeting now h t n b = b
  ensured-IsOpen end m starting (ok r) meeting now h t n b = rw n b
  ensured-IsOpen end m starting (thrown e) meeting now h t n b =
      recorded-IsOpen end m meeting now h t b
  ensured-IsOpen end m switching_unstable (ok r) meeting now h t n b = ground arith
  ensured-IsOpen end m switching_unstable (thrown e) meeting now h t n b = b
  ensured-IsOpen end m switching_full (ok r) meeting now h t n b = ground arith
  ensured-IsOpen end m switching_full (thrown e) meeting now h t n b = b

  module _ (service : RealtimeService S) (limits : Limits) where
    fed-failures :
        (r : Outcome EnsureSessionResult) (meeting : String) (chunk : List ℕ) (now : ℕ) (h : Hall S)
        → (after r (feed service limits meeting chunk now) h).1.session_failures
          ≡ h.session_failures
    unfolding feed not_fed log_backpressure
    fed-failures (ok r) meeting chunk now h = ground arith
    fed-failures (thrown e) meeting chunk now h = refl

    resumed-failures :
        (client : Client) (meeting : String) (chunk : List ℕ) (a : Await) (answer : Outcome Bool)
        (now : ℕ) (h : Hall S)
        → (resume_audio service limits client meeting chunk a answer now h).1.session_failures
          ≡ (ensured a answer meeting now h).1.session_failures
    unfolding resume_audio audio_failed
    resumed-failures client meeting chunk a answer now h =
        let (r, h2) = ensured a answer meeting now h in
        grind (arith, fed-failures r meeting chunk now h2)

    ensure-IsOpen :
        (end : ℕ) (m meeting : String) (now : ℕ) (h : Hall S)
        → now < end
        → IsOpen end m h
        → IsOpen end m (ensure_realtime_session_started service limits meeting now h).1
    unfolding ensure_realtime_session_started start_session start_or_fall_back forget_failures
    ensure-IsOpen end m meeting now h t b =
        elim (Bool-cases (is_reset (h.session_failures meeting) now)) [
          | inl r ↦
              let forgotten : IsOpenUntil end (put meeting none h.session_failures m) =
                put-open end m meeting none h.session_failures
                  (λ s. grind (arith, r, s, open-not_reset end now (h.session_failures m) t b)) b in
              grind (arith, b, forgotten, r)
          | inr r ↦ grind (arith, b, r)
        ]

    audio_of-IsOpen :
        (end : ℕ) (m : String) (o : Option String) (socket : String) (chunk : List ℕ) (now : ℕ)
        (h : Hall S)
        → now < end
        → IsOpen end m h
        → IsOpen end m (audio_of service limits o socket chunk now h).1
    unfolding audio_of take_chunk produce log_producer_reject disconnect_expired_socket
    audio_of-IsOpen end m none socket chunk now h t b = b
    audio_of-IsOpen end m (some meeting) socket chunk now h t b =
        grind (arith, b, ensure-IsOpen end m meeting now (claim socket meeting h) t b)

    grace-IsOpen :
        (end : ℕ) (m meeting : String) (o : Option (List String)) (h : Hall S)
        → str_eq m meeting ≡ false
        → IsOpen end m h
        → IsOpen end m (grace_with service o meeting h)
    unfolding grace_with
    grace-IsOpen end m meeting none h s b = rw s b
    grace-IsOpen end m meeting (some clients) h s b = b

    step-IsOpen :
        (end : ℕ) (m : String) (e : Event S) (h : Hall S)
        → KeepsBreaker end m e
        → IsOpen end m h
        → IsOpen end m (step service limits e h)
    unfolding step grace_over handle_audio stream_error
    step-IsOpen end m (connected allowed auth client now) h u b =
        rw (connection-SameRoles service limits allowed auth client now h).1 b
    step-IsOpen end m (disconnected client) h u b =
        rw (disconnect-failures service limits client h) b
    step-IsOpen end m (grace_passed meeting) h u b =
        grace-IsOpen end m meeting (h.meeting_clients meeting) h u b
    step-IsOpen end m (audio_sent client chunk now) h u b =
        audio_of-IsOpen end m (resolve_meeting_id service.is_uuid client.meeting_id) client.id chunk
          now h u.0 b
    step-IsOpen end m (audio_resumed client meeting chunk a answer now) h ((t, v), n) b =
        rw (resumed-failures client meeting chunk a answer now h)
          (ensured-IsOpen end m a answer meeting now h (t, v) n b)
    step-IsOpen end m (services_moved s) h u b = b
    step-IsOpen end m (stop_sent client now) h u b =
        rw (stop-SameRoles service limits client now h).0.1 b
    step-IsOpen end m (stream_failed meeting now) h u b = recorded-IsOpen end m meeting now h u b
    step-IsOpen end m (stream_closed meeting) h u b = b

    run-IsOpen :
        (end : ℕ) (m : String) (es : List (Event S)) (h : Hall S)
        → All (KeepsBreaker end m) es
        → IsOpen end m h
        → IsOpen end m (run service limits es h)
    unfolding run
    run-IsOpen end m [] h u b = b
    run-IsOpen end m (e ∷ es) h u b =
        run-IsOpen end m es (step service limits e h) u.1 (step-IsOpen end m e h u.0 b)

    open-no_start :
        (end : ℕ) (m : String) (client : Client) (chunk : List ℕ) (now : ℕ) (h : Hall S)
        → now < end
        → IsOpen end m h
        → (handle_audio service limits client chunk now h).0 ≢ waits m starting
    unfolding handle_audio audio_of take_chunk produce ensure_realtime_session_started start_session
        start_or_fall_back
    open-no_start end m client chunk now h t b =
        grind (arith, open-is_open end now (h.session_failures m) t b)

    -- When a session of a meeting fails within a minute of a failure that was at least the second
    -- counted one, then in the minute from then on no chunk from any socket starts a session for the
    -- meeting, whatever happens until then, except that a start that was waiting already succeeds
    -- or that the grace period of the meeting passes.
    pub unstable_session-not_started :
        (m : String) (t : ℕ) (f : SessionFailures) (es : List (Event S)) (client : Client)
        (chunk : List ℕ) (now : ℕ) (h : Hall S)
        → h.session_failures m ≡ some f
        → 2 ≤ f.count
        → t - f.last_at < 60000
        → All (KeepsBreaker (t + 60000) m) es
        → now < t + 60000
        → (handle_audio service limits client chunk now
            (run service limits es (stream_error m t h))).0
          ≢ waits m starting
    unfolding stream_error record_session_failure
    unstable_session-not_started m t f es client chunk now h e c l u n =
        let opened : IsOpen (t + 60000) m (stream_error m t h) = grind (arith, e, str_eq_refl m) in
        open-no_start (t + 60000) m client chunk now (run service limits es (stream_error m t h)) n
          (run-IsOpen (t + 60000) m es (stream_error m t h) u opened)

    -- The lock of a start is released when its call is answered, whatever the answer.
    pub ensured-unlocked :
        (answer : Outcome Bool) (meeting : String) (now : ℕ) (h : Hall S)
        → (ensured starting answer meeting now h).1.starting_session meeting ≡ false
    unfolding ensured start_failed start_succeeded record_session_failure unlock
    ensured-unlocked (ok b) meeting now h = rw (str_eq_refl meeting) refl
    ensured-unlocked (thrown e) meeting now h = rw (str_eq_refl meeting) refl
