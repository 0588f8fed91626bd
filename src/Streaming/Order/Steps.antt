-- ===== src/Streaming/Order/Steps.antt =====
-- Every event keeps the order of the audio (audioStreamingRuntime.ts, useAudioStreaming.ts).
use nangman_note.Base.{
  ℕ, ◌+◌, ◌-◌, ◌<◌, Bool, true, false, Option, none, some, List, [], ◌∷◌, ◌≡◌, refl, arith, inl,
  inr, any, ◌==◌, Bool-cases, or_else,
}
use nangman_note.Streaming.Policy.{
  is_backpressure, get_ack_error_message, AudioAckResponse, AckError, fallback, warning,
  connection_lost, client_connection_lost, ack_delayed, client_ack_timeout,
}
use nangman_note.Streaming.Runtime.{
  Refs, PendingChunk, handle_audio_chunk, buffer_chunks, buffer_pending_chunk,
  start_audio_streaming_runtime, guard_disconnection,
}
use nangman_note.Streaming.Acks.{
  handle_audio_ack_response, process_ack, on_ack_timeout, Event, step, run, captured, acknowledged,
  timed_out, retry_timer, connection, reject, report, requeue, release, respond, count_backpressure,
  no_response, get_chunk, delete_timer, delete_chunk,
}
use nangman_note.Streaming.Order.Buffer.{
  Ascending, Ascending-le, Ascending-buffer_new, Ascending-buffer_again, length-buffer_chunks,
}
use nangman_note.Streaming.Order.Invariant.{
  IsOrdered, InFlight-cases, queue, start-IsOrdered, stop-IsOrdered, drain-IsOrdered,
}

Ascending-queue_new :
    (fs : List (ℕ × PendingChunk)) (lo hi : ℕ) (c : PendingChunk) (cs : List PendingChunk)
    → c.seq ≡ hi
    → Ascending lo (queue fs cs) hi
    → Ascending lo (queue fs (buffer_chunks c cs)) (hi + 1)
Ascending-queue_new [] lo hi c cs e a = Ascending-buffer_new lo hi c cs e a
Ascending-queue_new ((i, d) ∷ fs) lo hi c cs e a = (a.0, Ascending-queue_new fs d.seq hi c cs e a.1)

-- Capturing a chunk, before it is decided what is sent.
captured-IsOrdered :
    (c : PendingChunk) (r : Refs)
    → c.seq ≡ r.next_chunk_seq
    → IsOrdered r
    → IsOrdered (buffer_pending_chunk c (record r { next_chunk_seq = r.next_chunk_seq + 1 }))
captured-IsOrdered c r e h = record {
  in_flight = h.in_flight;
  ascending =
      Ascending-queue_new r.chunk_by_ack_id r.last_accepted_seq r.next_chunk_seq c r.pending_chunks
        e h.ascending;
  bounded = length-buffer_chunks c r.pending_chunks;
}

guard-IsOrdered :
    (now : ℕ) (t : Option ℕ) (r : Refs) → IsOrdered r → IsOrdered (guard_disconnection now t r)
guard-IsOrdered now none r h = ground arith
guard-IsOrdered now (some t) r h =
    ground (arith, stop-IsOrdered connection_lost client_connection_lost r h)

chunk-IsOrdered :
    (payload : List ℕ) (now : ℕ) (r : Refs)
    → IsOrdered r
    → IsOrdered (handle_audio_chunk payload now r)
unfolding handle_audio_chunk
chunk-IsOrdered [] now r h = h
chunk-IsOrdered (b ∷ bs) now r h =
    let c : PendingChunk = record { payload = b ∷ bs; seq = r.next_chunk_seq; retries = 0 } in
    let r' = buffer_pending_chunk c (record r { next_chunk_seq = r.next_chunk_seq + 1 }) in
    let h' = captured-IsOrdered c r refl h in
    ground (
      arith,
      drain-IsOrdered now (record r' { disconnected_at = none }),
      guard-IsOrdered now r.disconnected_at r' h',
    )

-- The one chunk that an acknowledgement is about, and what is left once its slot is freed.
pub record IsFreed (i : ℕ) (r : Refs) (d : PendingChunk) : Type 0 where
  pub sent : get_chunk i r.chunk_by_ack_id ≡ some d
  pub timers : delete_timer i r.ack_timeouts ≡ []
  pub chunks : delete_chunk i r.chunk_by_ack_id ≡ []
  pub count : r.in_flight_ack_count - 1 ≡ 0
  pub newer : r.last_accepted_seq < d.seq
  pub later : Ascending d.seq r.pending_chunks r.next_chunk_seq

pub known-IsFreed :
    (i : ℕ) (r : Refs)
    → IsOrdered r
    → any (λ j. i == j) r.ack_timeouts ≡ true
    → (d : PendingChunk) × IsFreed i r d
known-IsFreed i r h known =
    elim (InFlight-cases r.in_flight_ack_count r.ack_timeouts r.chunk_by_ack_id h.in_flight) [
      | inl (n, t, k) ↦ absurd (ground arith)
      | inr (j, d, n, t, k) ↦ (d, ground arith)
    ]

release-IsOrdered :
    (i n : ℕ) (r : Refs) (d : PendingChunk)
    → IsOrdered r
    → IsFreed i r d
    → IsOrdered (record (release i r) { consecutive_timeout = n })
release-IsOrdered i n r d h f =
    ground (arith, Ascending-le r.last_accepted_seq d.seq r.next_chunk_seq r.pending_chunks)

on_ack_timeout-IsOrdered : (i : ℕ) (r : Refs) → IsOrdered r → IsOrdered (on_ack_timeout i r)
unfolding on_ack_timeout
on_ack_timeout-IsOrdered i r h = elim (Bool-cases (any (λ j. i == j) r.ack_timeouts)) [
  | inl known ↦
      let (d, f) = known-IsFreed i r h known in
      let h' = release-IsOrdered i (r.consecutive_timeout + 1) r d h f in
      ground (
        arith,
        stop-IsOrdered ack_delayed client_ack_timeout
            (record (release i r) { consecutive_timeout = r.consecutive_timeout + 1 }),
      )
  | inr unknown ↦ ground arith
]

report-IsOrdered :
    (e : AckError) (pressed : Bool) (r : Refs) → IsOrdered r → IsOrdered (report e pressed r)
report-IsOrdered (fallback reason message) pressed r h = stop-IsOrdered message reason r h
report-IsOrdered (warning message) true r h = ground arith
report-IsOrdered (warning message) false r h = ground arith

requeue-IsOrdered :
    (i now : ℕ) (r : Refs) (d : PendingChunk) (response : AudioAckResponse)
    → IsOrdered r
    → IsFreed i r d
    → IsOrdered (requeue (some d) response now (record (release i r) { consecutive_timeout = 0 }))
requeue-IsOrdered i now r d response h f = ground (
  arith,
  release-IsOrdered i 0 r d h f,
  length-buffer_chunks (record d { retries = d.retries + 1 }) r.pending_chunks,
  Ascending-buffer_again r.last_accepted_seq r.next_chunk_seq (record d { retries = d.retries + 1 })
      r.pending_chunks,
)

count-IsOrdered : (b : Bool) (r : Refs) → IsOrdered r → IsOrdered (count_backpressure b r)
count-IsOrdered true r h = ground arith
count-IsOrdered false r h = h

reject-IsOrdered :
    (i now : ℕ) (r : Refs) (d : PendingChunk) (response : AudioAckResponse)
    → IsOrdered r
    → IsFreed i r d
    → IsOrdered (reject (some d) response now (record (release i r) { consecutive_timeout = 0 }))
unfolding reject
reject-IsOrdered i now r d response h f =
    let pressed = is_backpressure response.reason in
    let r' =
      count_backpressure pressed
        (requeue (some d) response now (record (release i r) { consecutive_timeout = 0 })) in
    report-IsOrdered (get_ack_error_message response r'.consecutive_backpressure) pressed r' (
      count-IsOrdered pressed
        (requeue (some d) response now (record (release i r) { consecutive_timeout = 0 }))
        (requeue-IsOrdered i now r d response h f))

respond-IsOrdered :
    (i now : ℕ) (r : Refs) (d : PendingChunk) (response : AudioAckResponse)
    → IsOrdered r
    → IsFreed i r d
    → IsOrdered (respond (some d) response now (record (release i r) { consecutive_timeout = 0 }))
respond-IsOrdered i now r d response h f =
    ground (arith, reject-IsOrdered i now r d response h f, release-IsOrdered i 0 r d h f)

ack-IsOrdered :
    (i : ℕ) (ack : Option AudioAckResponse) (now : ℕ) (r : Refs)
    → IsOrdered r
    → IsOrdered (handle_audio_ack_response i ack now r)
unfolding handle_audio_ack_response
ack-IsOrdered i ack now r h = elim (Bool-cases (any (λ j. i == j) r.ack_timeouts)) [
  | inl known ↦
      let (d, f) = known-IsFreed i r h known in
      rw (known, f.sent) (respond-IsOrdered i now r d (or_else ack no_response) h f)
  | inr unknown ↦ rw unknown h
]

-- Whatever happens to a runtime, its audio stays in order: the records of what is in flight agree
-- and hold at most one chunk, that chunk and the pending ones ascend strictly from above the last
-- number that the server accepted, and at most 300 chunks are pending.
pub step-IsOrdered : (e : Event) (r : Refs) → IsOrdered r → IsOrdered (step e r)
unfolding step
step-IsOrdered (captured payload now) r h = chunk-IsOrdered payload now r h
step-IsOrdered (acknowledged i ack now) r h =
    unfold process_ack in
    (drain-IsOrdered now (handle_audio_ack_response i ack now r) (ack-IsOrdered i ack now r h))
step-IsOrdered (timed_out i) r h = on_ack_timeout-IsOrdered i r h
step-IsOrdered (retry_timer now) r h =
    drain-IsOrdered now (record r { retry_drain_timer = none }) (ground arith)
step-IsOrdered (connection b) r h = ground arith

run-IsOrdered : (es : List Event) (r : Refs) → IsOrdered r → IsOrdered (run es r)
unfolding run
run-IsOrdered [] r h = h
run-IsOrdered (e ∷ es) r h = run-IsOrdered es (step e r) (step-IsOrdered e r h)

-- From the start of streaming on, after any events at all, the audio is in order.
pub start-run-IsOrdered :
    (connected has_callback : Bool) (r : Refs) (es : List Event)
    → IsOrdered (run es (start_audio_streaming_runtime connected has_callback r))
start-run-IsOrdered connected has_callback r es =
    run-IsOrdered es (start_audio_streaming_runtime connected has_callback r)
      (start-IsOrdered connected has_callback r)

-- In a runtime that is in order, a chunk that the server acknowledges as received is newer than
-- all that it received before, and its number becomes the last accepted one.
pub accepted-ascends :
    (i now : ℕ) (r : Refs) (response : AudioAckResponse)
    → IsOrdered r
    → any (λ j. i == j) r.ack_timeouts ≡ true
    → response.ok ≡ true
    → (d : PendingChunk) × (get_chunk i r.chunk_by_ack_id ≡ some d)
      × (r.last_accepted_seq < d.seq)
      × ((handle_audio_ack_response i (some response) now r).last_accepted_seq ≡ d.seq)
      × ((handle_audio_ack_response i (some response) now r).in_flight_ack_count ≡ 0)
unfolding handle_audio_ack_response
accepted-ascends i now r response h known good =
    let (d, f) = known-IsFreed i r h known in (d, f.sent, f.newer, ground arith, ground arith)
