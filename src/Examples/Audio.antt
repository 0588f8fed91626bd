-- ===== src/Examples/Audio.antt =====
-- The theorems on the audio stream at concrete runs.
use nangman_note.Base.{◌≤◌, ◌<◌, true, false, none, some, List, [], ◌∷◌, ◌≡◌, refl}
use nangman_note.Streaming.Policy.{AudioAckResponse, ack_timeout}
use nangman_note.Streaming.Runtime.{
  Refs, PendingChunk, idle, start_audio_streaming_runtime, drain_loop, drain_pending_chunks,
  send_audio_chunk, handle_audio_chunk,
}
use nangman_note.Streaming.Acks.{
  Event, captured, acknowledged, timed_out, step, run, get_chunk, handle_audio_ack_response,
}
use nangman_note.Streaming.Order.Invariant.{IsOrdered}
use nangman_note.Streaming.Order.Steps.{start-run-IsOrdered, accepted-ascends}
use nangman_note.Streaming.Fallback.{fallbacks, fallback_once}

abbrev fresh : Refs
fresh = record {
  socket = none;
  has_fallback_callback = false;
  fallback_notified = false;
  in_flight_ack_count = 0;
  next_ack_id = 0;
  ack_timeouts = [];
  chunk_by_ack_id = [];
  pending_chunks = [];
  next_chunk_seq = 0;
  last_accepted_seq = 0;
  disconnected_at = none;
  consecutive_timeout = 0;
  consecutive_backpressure = 0;
  saturation_start_at = none;
  retry_backoff_until = 0;
  retry_drain_timer = none;
  stopped_by_guard = false;
  state = idle;
  error = none;
  outbox = [];
}

abbrev started : Refs
started = start_audio_streaming_runtime true true fresh

abbrev received : AudioAckResponse
received = record {
  ok = true;
  reason = ack_timeout;
  retry_after = none;
  fallback_to_batch = false;
  is_batch_mode = false;
}

abbrev some_events : List Event
some_events =
    captured (1 ∷ []) 10
    ∷ captured (2 ∷ []) 20
    ∷ acknowledged 0 (some received) 30
    ∷ timed_out 1
    ∷ []

start-run-IsOrdered_example : IsOrdered (run some_events started)
start-run-IsOrdered_example = start-run-IsOrdered true true fresh some_events

started-IsOrdered : IsOrdered started
unfolding start_audio_streaming_runtime run
started-IsOrdered = start-run-IsOrdered true true fresh []

abbrev one_sent : Refs
one_sent = run (captured (1 ∷ []) 10 ∷ []) started

one_sent-IsOrdered : IsOrdered one_sent
one_sent-IsOrdered = start-run-IsOrdered true true fresh (captured (1 ∷ []) 10 ∷ [])

accepted-ascends_example :
    (d : PendingChunk) × (get_chunk 0 one_sent.chunk_by_ack_id ≡ some d)
    × (one_sent.last_accepted_seq < d.seq)
    × ((handle_audio_ack_response 0 (some received) 20 one_sent).last_accepted_seq ≡ d.seq)
    × ((handle_audio_ack_response 0 (some received) 20 one_sent).in_flight_ack_count ≡ 0)
unfolding run step start_audio_streaming_runtime handle_audio_chunk drain_pending_chunks
    send_audio_chunk nangman_note.Streaming.Runtime.buffer_chunks drain_loop
accepted-ascends_example = accepted-ascends 0 20 one_sent received one_sent-IsOrdered refl refl

fallback_once_example : fallbacks (run some_events started).outbox ≤ 1
fallback_once_example = fallback_once true true fresh some_events
