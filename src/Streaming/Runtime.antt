-- ===== src/Streaming/Runtime.antt =====
-- frontend/domains/transcription/lib/audioStreamingRuntime.ts, and the closures of
-- hooks/useAudioStreaming.ts that join its functions. The clock is an argument, `now`. A browser
-- timer is its pending callback: an acknowledgement's timer is pending while its id is in
-- `ack_timeouts`. The audio graph (context, worklet, source node) is left out.
use nangman_note.Base.{
  ℕ, ◌+◌, ◌-◌, Bool, true, false, Option, none, some, List, [], ◌∷◌, ◌++◌, not, ◌&&◌, ltb, leb,
  ◌==◌, if◌then◌else◌, length, or_else, is_some,
}
use nangman_note.Streaming.Policy.{
  Message, network_delayed, connection_lost, FallbackReason, client_network_saturation,
  client_connection_lost, should_fallback_for_saturation,
}

pub data AudioStreamingState : Type 0 where
  idle streaming stopping stopped failed : AudioStreamingState

pub record PendingChunk : Type 0 where
  pub payload : List ℕ
  pub seq : ℕ
  pub retries : ℕ

abbrev pub max_pending_chunks : ℕ
max_pending_chunks = 300

abbrev pub max_chunk_retries : ℕ
max_chunk_retries = 50

abbrev pub default_retry_after_ms : ℕ
default_retry_after_ms = 200

abbrev pub max_retry_after_ms : ℕ
max_retry_after_ms = 5000

abbrev pub max_disconnected_ms : ℕ
max_disconnected_ms = 45000

-- What leaves the runtime: a chunk for the socket, the request to stop the session, and the call
-- of the fallback callback.
pub data Effect : Type 0 where
  send : ℕ → PendingChunk → Effect
  stop_session : Effect
  fall_back : FallbackReason → Effect

-- The refs, the hook's two states, and what was sent, the latest first. `socket` is null or a
-- socket that is connected or not.
pub record Refs : Type 0 where
  pub socket : Option Bool
  pub has_fallback_callback : Bool
  pub fallback_notified : Bool
  pub in_flight_ack_count : ℕ
  pub next_ack_id : ℕ
  pub ack_timeouts : List ℕ
  pub chunk_by_ack_id : List (ℕ × PendingChunk)
  pub pending_chunks : List PendingChunk
  pub next_chunk_seq : ℕ
  pub last_accepted_seq : ℕ
  pub disconnected_at : Option ℕ
  pub consecutive_timeout : ℕ
  pub consecutive_backpressure : ℕ
  pub saturation_start_at : Option ℕ
  pub retry_backoff_until : ℕ
  pub retry_drain_timer : Option ℕ
  pub stopped_by_guard : Bool
  pub state : AudioStreamingState
  pub error : Option Message
  pub outbox : List Effect

-- `socket?.connected`.
abbrev pub is_connected : Option Bool → Bool
is_connected none = false
is_connected (some b) = b

abbrev put : Bool → Effect → List Effect → List Effect
put true e out = e ∷ out
put false e out = out

abbrev pub request_realtime_session_stop : Refs → Refs
request_realtime_session_stop r = record r {
  outbox = put (is_connected r.socket) stop_session r.outbox;
}

abbrev pub notify_audio_streaming_fallback : FallbackReason → Refs → Refs
notify_audio_streaming_fallback reason r = if r.fallback_notified then r else record r {
  fallback_notified = true;
  outbox = put r.has_fallback_callback (fall_back reason) r.outbox;
}

abbrev pub clear_audio_ack_trackers : Refs → Refs
clear_audio_ack_trackers r = record r {
  retry_drain_timer = none;
  retry_backoff_until = 0;
  ack_timeouts = [];
  chunk_by_ack_id = [];
  pending_chunks = [];
  next_chunk_seq = 1;
  last_accepted_seq = 0;
  disconnected_at = none;
  in_flight_ack_count = 0;
  consecutive_timeout = 0;
  consecutive_backpressure = 0;
  saturation_start_at = none;
}

abbrev pub cleanup_audio_streaming_runtime : Refs → Refs
cleanup_audio_streaming_runtime r = record (clear_audio_ack_trackers r) {
  socket = none;
  has_fallback_callback = false;
  fallback_notified = false;
}

-- The part of `startAudioStreamingRuntime` that sets the refs, with the hook's state after it.
unfoldable pub start_audio_streaming_runtime : Bool → Bool → Refs → Refs
start_audio_streaming_runtime connected has_callback r = record (clear_audio_ack_trackers r) {
  socket = some connected;
  has_fallback_callback = has_callback;
  fallback_notified = false;
  stopped_by_guard = false;
  state = streaming;
  error = none;
}

-- `stopForRealtimeInstability` of the hook, with `markStoppedByGuard` at its head.
unfoldable pub stop_for_realtime_instability : Message → FallbackReason → Refs → Refs
stop_for_realtime_instability message reason r =
    if r.stopped_by_guard
    then r
    else record (cleanup_audio_streaming_runtime (
        notify_audio_streaming_fallback reason
          (request_realtime_session_stop (record r { stopped_by_guard = true })))) {
            state = stopped;
            error = some message;
          }

-- `splice` at the first item with a larger seq; at the end if there is none.
unfoldable pub insert_by_seq : PendingChunk → List PendingChunk → List PendingChunk
insert_by_seq c [] = c ∷ []
insert_by_seq c (x ∷ xs) = if ltb c.seq x.seq then c ∷ x ∷ xs else x ∷ insert_by_seq c xs

abbrev pub last_seq_or : ℕ → List PendingChunk → ℕ
last_seq_or d [] = d
last_seq_or d (x ∷ xs) = last_seq_or x.seq xs

-- `!last || pending.seq > last.seq`.
abbrev pub is_newest : PendingChunk → List PendingChunk → Bool
is_newest c [] = true
is_newest c (x ∷ xs) = ltb (last_seq_or x.seq xs) c.seq

-- `while (buffer.length > MAX) buffer.shift();`
unfoldable pub drop_oldest : List PendingChunk → List PendingChunk
drop_oldest [] = []
drop_oldest (x ∷ xs) =
    let rest = drop_oldest xs in if ltb max_pending_chunks (length (x ∷ xs)) then rest else x ∷ xs

unfoldable pub buffer_chunks : PendingChunk → List PendingChunk → List PendingChunk
unfolding insert_by_seq drop_oldest
buffer_chunks c buffer =
    drop_oldest (if is_newest c buffer then buffer ++ c ∷ [] else insert_by_seq c buffer)

abbrev pub buffer_pending_chunk : PendingChunk → Refs → Refs
buffer_pending_chunk c r = record r { pending_chunks = buffer_chunks c r.pending_chunks }

unfoldable pub send_audio_chunk : PendingChunk → Refs → Refs
send_audio_chunk c r =
    if is_connected r.socket
    then record r {
      next_ack_id = r.next_ack_id + 1;
      in_flight_ack_count = r.in_flight_ack_count + 1;
      ack_timeouts = r.ack_timeouts ++ r.next_ack_id ∷ [];
      chunk_by_ack_id = r.chunk_by_ack_id ++ (r.next_ack_id, c) ∷ [];
      outbox = send r.next_ack_id c ∷ r.outbox;
    }
    else buffer_pending_chunk c r

-- One round of the loop: the head is discarded if a newer chunk was accepted, and sent if not.
abbrev pub drain_head : PendingChunk → List PendingChunk → Refs → Refs
drain_head head rest r =
    if leb head.seq r.last_accepted_seq
    then record r { pending_chunks = rest }
    else send_audio_chunk head (record r { pending_chunks = rest })

-- The loop, over the chunks that are pending when it starts. A socket that is connected stays so
-- while it runs, so nothing is buffered meanwhile.
unfoldable pub drain_loop : List PendingChunk → Refs → Refs
unfolding send_audio_chunk
drain_loop [] r = r
drain_loop (head ∷ rest) r =
    let more = drain_loop rest (drain_head head rest r) in
    if r.in_flight_ack_count == 0 then more else r

unfoldable pub handle_saturated_audio_queue : ℕ → Refs → Refs
unfolding stop_for_realtime_instability
handle_saturated_audio_queue now r =
    if is_some r.saturation_start_at
    then (if should_fallback_for_saturation r.saturation_start_at now
        then stop_for_realtime_instability network_delayed client_network_saturation r
        else r)
    else record r { saturation_start_at = some now }

abbrev pub is_empty : List PendingChunk → Bool
is_empty [] = true
is_empty (c ∷ cs) = false

abbrev pub judge_saturation : ℕ → Refs → Refs
judge_saturation now r =
    if not (is_empty r.pending_chunks) && ltb 0 r.in_flight_ack_count
    then handle_saturated_audio_queue now r
    else record r { saturation_start_at = none }

unfoldable pub drain_pending_chunks : ℕ → Refs → Refs
unfolding drain_loop handle_saturated_audio_queue
drain_pending_chunks now r =
    if is_connected r.socket
    then (if ltb now r.retry_backoff_until
        then record r {
          retry_drain_timer = some (or_else r.retry_drain_timer (r.retry_backoff_until - now));
        }
        else judge_saturation now (
            drain_loop r.pending_chunks
              (record r { retry_backoff_until = 0; retry_drain_timer = none })))
    else r

-- `now - disconnectedAt >= MAX`, once the time of the disconnection is known.
abbrev pub guard_disconnection : ℕ → Option ℕ → Refs → Refs
guard_disconnection now none r = record r { disconnected_at = some now }
guard_disconnection now (some t) r =
    if leb (t + max_disconnected_ms) now
    then stop_for_realtime_instability connection_lost client_connection_lost r
    else r

unfoldable pub handle_audio_chunk : List ℕ → ℕ → Refs → Refs
unfolding drain_pending_chunks stop_for_realtime_instability
handle_audio_chunk [] now r = r
handle_audio_chunk (b ∷ bs) now r =
    let c : PendingChunk = record { payload = b ∷ bs; seq = r.next_chunk_seq; retries = 0 } in
    let buffered = buffer_pending_chunk c (record r { next_chunk_seq = r.next_chunk_seq + 1 }) in
    if is_connected r.socket
    then drain_pending_chunks now (record buffered { disconnected_at = none })
    else guard_disconnection now r.disconnected_at buffered
