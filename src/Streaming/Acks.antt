-- ===== src/Streaming/Acks.antt =====
-- frontend/domains/transcription/lib/audioStreamingRuntime.ts: what an acknowledgement, a missing
-- one and a retry timer do, and `handleAck` of hooks/useAudioStreaming.ts, which drains after each
-- acknowledgement. `Event` is what can happen to a runtime between its
-- start and `stopStreaming`.
use nangman_note.Base.{
  ℕ, ◌+◌, ◌-◌, max, min, Bool, true, false, Option, none, some, List, [], ◌∷◌, ◌&&◌, ltb, leb, ◌==◌,
  if◌then◌else◌, or_else, any, keep_if, not,
}
use nangman_note.Streaming.Policy.{
  AckReason, backpressure, session_warming, session_start_failed, ack_timeout, AudioAckResponse,
  max_consecutive_timeouts, capacity_exceeded, ack_delayed, client_ack_timeout, from_server,
  AckError, fallback, warning, is_backpressure, is_capacity_fallback_ack, get_ack_error_message,
}
use nangman_note.Streaming.Runtime.{
  Refs, PendingChunk, stopped, max_chunk_retries, default_retry_after_ms, max_retry_after_ms,
  request_realtime_session_stop, notify_audio_streaming_fallback, cleanup_audio_streaming_runtime,
  stop_for_realtime_instability, buffer_pending_chunk, drain_pending_chunks, handle_audio_chunk,
}

-- `map.delete(ackId)` and `map.get(ackId)`.
abbrev pub delete_timer : ℕ → List ℕ → List ℕ
delete_timer i [] = []
delete_timer i (j ∷ js) = keep_if (not (i == j)) j (delete_timer i js)

abbrev pub delete_chunk : ℕ → List (ℕ × PendingChunk) → List (ℕ × PendingChunk)
delete_chunk i [] = []
delete_chunk i ((j, c) ∷ cs) = keep_if (not (i == j)) (j, c) (delete_chunk i cs)

abbrev pub get_chunk : ℕ → List (ℕ × PendingChunk) → Option PendingChunk
get_chunk i [] = none
get_chunk i ((j, c) ∷ cs) = if i == j then some c else get_chunk i cs

-- The entries of one acknowledgement are removed and its slot is freed.
abbrev pub release : ℕ → Refs → Refs
release i r = record r {
  ack_timeouts = delete_timer i r.ack_timeouts;
  chunk_by_ack_id = delete_chunk i r.chunk_by_ack_id;
  in_flight_ack_count = r.in_flight_ack_count - 1;
}

abbrev pub no_response : AudioAckResponse
no_response = record {
  ok = false;
  reason = ack_timeout;
  retry_after = none;
  fallback_to_batch = false;
  is_batch_mode = false;
}

abbrev is_retryable_rejection : AckReason → Bool
is_retryable_rejection session_warming = true
is_retryable_rejection backpressure = true
is_retryable_rejection session_start_failed = true
is_retryable_rejection _ = false

abbrev accept : Option PendingChunk → Refs → Refs
accept none r = r
accept (some c) r =
    if ltb r.last_accepted_seq c.seq then record r { last_accepted_seq = c.seq } else r

-- A chunk that was rejected for now goes back into the buffer, unless a newer one was accepted or
-- its retries are used up; the server's delay is kept within its bounds.
abbrev pub requeue : Option PendingChunk → AudioAckResponse → ℕ → Refs → Refs
requeue none response now r = r
requeue (some c) response now r =
    if is_retryable_rejection response.reason
      && (ltb r.last_accepted_seq c.seq && ltb c.retries max_chunk_retries)
    then record (buffer_pending_chunk (record c { retries = c.retries + 1 }) r) {
      retry_backoff_until = max r.retry_backoff_until (
          now
          + min max_retry_after_ms
              (max default_retry_after_ms (or_else response.retry_after default_retry_after_ms)));
    }
    else r

abbrev pub count_backpressure : Bool → Refs → Refs
count_backpressure true r = record r { consecutive_backpressure = r.consecutive_backpressure + 1 }
count_backpressure false r = r

abbrev pub report : AckError → Bool → Refs → Refs
report (fallback reason message) pressed r = stop_for_realtime_instability message reason r
report (warning message) true r = record r { error = some message }
report (warning message) false r = record r { consecutive_backpressure = 0; error = some message }

unfoldable pub reject : Option PendingChunk → AudioAckResponse → ℕ → Refs → Refs
reject sent response now r =
    let r' = count_backpressure (is_backpressure response.reason) (requeue sent response now r) in
    report (get_ack_error_message response r'.consecutive_backpressure)
      (is_backpressure response.reason) r'

-- The capacity fallback does not go through the guard.
abbrev fall_back_to_batch : AudioAckResponse → Refs → Refs
fall_back_to_batch response r =
    record (cleanup_audio_streaming_runtime (
      notify_audio_streaming_fallback (from_server response.reason)
        (request_realtime_session_stop r))) { state = stopped; error = some capacity_exceeded }

abbrev pub respond : Option PendingChunk → AudioAckResponse → ℕ → Refs → Refs
respond sent response now r =
    if response.ok
    then record (accept sent (record r { consecutive_backpressure = 0 })) { error = none }
    else (if is_capacity_fallback_ack response
        then fall_back_to_batch response r
        else reject sent response now r)

unfoldable pub handle_audio_ack_response : ℕ → Option AudioAckResponse → ℕ → Refs → Refs
unfolding reject
handle_audio_ack_response i ack now r =
    if any (λ j. i == j) r.ack_timeouts
    then respond (get_chunk i r.chunk_by_ack_id) (or_else ack no_response) now
        (record (release i r) { consecutive_timeout = 0 })
    else r

-- `processAck`.
unfoldable pub process_ack : ℕ → Option AudioAckResponse → ℕ → Refs → Refs
unfolding handle_audio_ack_response drain_pending_chunks
process_ack i ack now r = drain_pending_chunks now (handle_audio_ack_response i ack now r)

-- The callback of `createAudioAckTimeout`. The chunk is not sent again.
abbrev give_up_if_silent : Refs → Refs
give_up_if_silent r =
    if leb max_consecutive_timeouts r.consecutive_timeout
    then stop_for_realtime_instability ack_delayed client_ack_timeout r
    else r

unfoldable pub on_ack_timeout : ℕ → Refs → Refs
unfolding stop_for_realtime_instability
on_ack_timeout i r =
    if any (λ j. i == j) r.ack_timeouts
    then give_up_if_silent
        (record (release i r) { consecutive_timeout = r.consecutive_timeout + 1 })
    else r

abbrev set_connected : Bool → Option Bool → Option Bool
set_connected b none = none
set_connected b (some old) = some b

pub data Event : Type 0 where
  captured : List ℕ → ℕ → Event
  acknowledged : ℕ → Option AudioAckResponse → ℕ → Event
  timed_out : ℕ → Event
  retry_timer : ℕ → Event
  connection : Bool → Event

unfoldable pub step : Event → Refs → Refs
unfolding handle_audio_chunk process_ack on_ack_timeout drain_pending_chunks
step (captured payload now) r = handle_audio_chunk payload now r
step (acknowledged i ack now) r = process_ack i ack now r
step (timed_out i) r = on_ack_timeout i r
step (retry_timer now) r = drain_pending_chunks now (record r { retry_drain_timer = none })
step (connection b) r = record r { socket = set_connected b r.socket }

unfoldable pub run : List Event → Refs → Refs
run [] r = r
run (e ∷ es) r = run es (step e r)
