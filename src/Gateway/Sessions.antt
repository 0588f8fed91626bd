-- ===== src/Gateway/Sessions.antt =====
-- transcription.gateway.ts: when a meeting's realtime session starts. After three failures that
-- follow each other closely no session is started for a while.
use nangman_note.Base.{
  ℕ, String, Bool, true, false, Option, none, some, ok, thrown, Outcome, Run, ◌+◌, ◌-◌, ltb, leb,
  ◌&&◌, ◌||◌, not, if◌then◌else◌,
}
use nangman_note.Gateway.{Hall, SessionFailures, RealtimeService, Limits, put, tell_room}

pub record EnsureSessionResult : Type 0 where
  pub is_ok : Bool
  pub reason : String
  pub fallback_to_batch : Bool

-- What `ensureRealtimeSessionStarted` waits for: nothing, as a session runs or starts already,
-- `switchMeetingToBatchFallback`, as the breaker is open or the limit reached, or
-- `startRealtimeSession`.
pub data Await : Type 0 where
  running switching_unstable switching_full starting : Await

abbrev pub started : EnsureSessionResult
started = record { is_ok = true; reason = ""; fallback_to_batch = false }

abbrev pub circuit_failure_threshold : ℕ
circuit_failure_threshold = 3

abbrev pub circuit_reset_ms : ℕ
circuit_reset_ms = 60000

abbrev pub failed_again : Option SessionFailures → ℕ → SessionFailures
failed_again none now = record { count = 1; last_at = now }
failed_again (some f) now =
    if ltb (now - f.last_at) 60000
    then record { count = f.count + 1; last_at = now }
    else record { count = 1; last_at = now }

abbrev pub is_reset : Option SessionFailures → ℕ → Bool
is_reset none now = false
is_reset (some f) now = ltb circuit_reset_ms (now - f.last_at)

abbrev pub is_open : Option SessionFailures → ℕ → Bool
is_open none now = false
is_open (some f) now = not (is_reset (some f) now) && leb circuit_failure_threshold f.count

module _ {S : Type 0} where
  -- A call of a service.
  abbrev pub served : {A : Type 0} → Run S A → Run (Hall S) A
  served m h = let (r, s) = m h.store in (r, record h { store = s })

  unfoldable pub record_session_failure : String → ℕ → Hall S → Hall S
  record_session_failure meeting now h = record h {
    session_failures =
        put meeting (some (failed_again (h.session_failures meeting) now)) h.session_failures;
  }

  -- The callbacks of a session: its stream failed, and it was closed.
  unfoldable pub stream_error : String → ℕ → Hall S → Hall S
  unfolding record_session_failure
  stream_error meeting now h =
      tell_room meeting "transcript:error" (record_session_failure meeting now h)

  abbrev pub session_closed : String → Hall S → Hall S
  session_closed meeting h = tell_room meeting "transcript:session-ended" h

  abbrev tell_if : Bool → String → String → Hall S → Hall S
  tell_if b meeting event h = if b then tell_room meeting event h else h

  unfoldable pub fall_back_unstable : Bool → String → Hall S → EnsureSessionResult × Hall S
  fall_back_unstable switched meeting h = (
    record { is_ok = false; reason = "session-start-failed"; fallback_to_batch = switched },
    tell_if switched meeting "transcript:fallback" h,
  )

  unfoldable pub fall_back_full : Bool → String → Hall S → EnsureSessionResult × Hall S
  fall_back_full switched meeting h = (
    record { is_ok = false; reason = "realtime-capacity-exceeded"; fallback_to_batch = switched },
    tell_if switched meeting "connected" (tell_if switched meeting "transcript:fallback" h),
  )

  unfoldable pub unlock : String → Hall S → Hall S
  unlock meeting h = record h { starting_session = put meeting false h.starting_session }

  unfoldable pub start_succeeded : String → Hall S → EnsureSessionResult × Hall S
  unfolding unlock
  start_succeeded meeting h = (
    started,
    unlock meeting (
        tell_room meeting "connected"
          (record h { session_failures = put meeting none h.session_failures })),
  )

  unfoldable pub start_failed : String → ℕ → Hall S → EnsureSessionResult × Hall S
  unfolding record_session_failure unlock
  start_failed meeting now h = (
    record { is_ok = false; reason = "session-start-failed"; fallback_to_batch = false },
    unlock meeting (tell_room meeting "transcript:error" (record_session_failure meeting now h)),
  )

  -- The lock of a start is held from before its call.
  unfoldable pub start_session : String → Hall S → Await × Hall S
  start_session meeting h =
      (starting, record h { starting_session = put meeting true h.starting_session })

  unfoldable pub forget_failures : String → Bool → Hall S → Hall S
  forget_failures meeting false h = h
  forget_failures meeting true h = record h {
    session_failures = put meeting none h.session_failures;
  }

  module _ (service : RealtimeService S) (limits : Limits) where
    open service use {has_active_realtime_session, get_active_realtime_session_count}

    unfoldable pub start_or_fall_back : String → Hall S → Await × Hall S
    unfolding start_session
    start_or_fall_back meeting h =
        if leb limits.max_concurrent_realtime_sessions (get_active_realtime_session_count h.store)
        then (switching_full, h)
        else start_session meeting h

    -- `ensureRealtimeSessionStarted` up to its first `await`.
    unfoldable pub ensure_realtime_session_started : String → ℕ → Hall S → Await × Hall S
    unfolding start_or_fall_back forget_failures
    ensure_realtime_session_started meeting now h =
        if has_active_realtime_session meeting h.store || h.starting_session meeting
        then (running, h)
        else (if is_open (h.session_failures meeting) now
            then (switching_unstable, h)
            else start_or_fall_back meeting
                (forget_failures meeting (is_reset (h.session_failures meeting) now) h))

  -- `ensureRealtimeSessionStarted` after the `await`, with what the call answered; a call for the
  -- batch fallback that throws leaves the function.
  unfoldable pub ensured :
      Await → Outcome Bool → String → ℕ → Hall S → Outcome EnsureSessionResult × Hall S
  unfolding fall_back_unstable fall_back_full start_succeeded start_failed
  ensured running answer meeting now h = (ok started, h)
  ensured starting (ok b) meeting now h = let (r, h2) = start_succeeded meeting h in (ok r, h2)
  ensured starting (thrown e) meeting now h = let (r, h2) = start_failed meeting now h in (ok r, h2)
  ensured switching_unstable (ok b) meeting now h =
      let (r, h2) = fall_back_unstable b meeting h in (ok r, h2)
  ensured switching_unstable (thrown e) meeting now h = (thrown e, h)
  ensured switching_full (ok b) meeting now h =
      let (r, h2) = fall_back_full b meeting h in (ok r, h2)
  ensured switching_full (thrown e) meeting now h = (thrown e, h)
