-- ===== src/Streaming/Fallback.antt =====
-- The fallback to batch transcription (`stopForRealtimeInstability`, the capacity fallback and
-- `cleanupAudioStreamingRuntime` in audioStreamingRuntime.ts and useAudioStreaming.ts).
use nangman_note.Base.{
  ℕ, suc, ◌+◌, ◌≤◌, Bool, true, false, Option, none, some, List, [], ◌∷◌, ◌≡◌, refl, arith, inl,
  ◌⊎◌, ◌∙◌, or_else,
}
use nangman_note.Streaming.Policy.{
  AudioAckResponse, AckError, fallback, warning, FallbackReason, Message, network_delayed,
  client_network_saturation, connection_lost, client_connection_lost, ack_delayed,
  client_ack_timeout, is_backpressure, get_ack_error_message,
}
use nangman_note.Streaming.Runtime.{
  Refs, PendingChunk, Effect, send, stop_session, fall_back, drain_loop, drain_pending_chunks,
  handle_audio_chunk, judge_saturation, handle_saturated_audio_queue, stop_for_realtime_instability,
  guard_disconnection, drain_head, buffer_pending_chunk, start_audio_streaming_runtime,
}
use nangman_note.Streaming.Acks.{
  handle_audio_ack_response, process_ack, on_ack_timeout, Event, step, run, captured, acknowledged,
  timed_out, retry_timer, connection, reject, report, requeue, count_backpressure, respond,
  get_chunk, no_response, release,
}

abbrev pub fallbacks : List Effect → ℕ
fallbacks [] = 0
fallbacks (send i c ∷ out) = fallbacks out
fallbacks (stop_session ∷ out) = fallbacks out
fallbacks (fall_back reason ∷ out) = suc (fallbacks out)

-- The callback was not called since `n` calls were counted, or it was called once and is gone.
abbrev pub IsOnce : ℕ → Refs → Type 0
IsOnce n r =
    (fallbacks r.outbox ≡ n) ⊎ ((fallbacks r.outbox ≡ suc n) × (r.has_fallback_callback ≡ false))

module _ (n : ℕ) where
  stop-IsOnce :
      (message : Message) (reason : FallbackReason) (r : Refs)
      → IsOnce n r
      → IsOnce n (stop_for_realtime_instability message reason r)
  unfolding stop_for_realtime_instability
  stop-IsOnce message reason r h = ground arith

  drain_loop-IsOnce : (cs : List PendingChunk) (r : Refs) → IsOnce n r → IsOnce n (drain_loop cs r)
  unfolding drain_loop
  drain_loop-IsOnce [] r h = h
  drain_loop-IsOnce (c ∷ cs) r h = ground (arith, drain_loop-IsOnce cs (drain_head c cs r))

  judge-IsOnce : (now : ℕ) (r : Refs) → IsOnce n r → IsOnce n (judge_saturation now r)
  unfolding handle_saturated_audio_queue
  judge-IsOnce now r h = ground (arith, stop-IsOnce network_delayed client_network_saturation r h)

  drain-IsOnce : (now : ℕ) (r : Refs) → IsOnce n r → IsOnce n (drain_pending_chunks now r)
  unfolding drain_pending_chunks
  drain-IsOnce now r h = ground (
    arith,
    judge-IsOnce now (
        drain_loop r.pending_chunks
          (record r { retry_backoff_until = 0; retry_drain_timer = none })),
    drain_loop-IsOnce r.pending_chunks
        (record r { retry_backoff_until = 0; retry_drain_timer = none }),
  )

  guard-IsOnce :
      (now : ℕ) (t : Option ℕ) (r : Refs) → IsOnce n r → IsOnce n (guard_disconnection now t r)
  guard-IsOnce now none r h = ground arith
  guard-IsOnce now (some t) r h =
      ground (arith, stop-IsOnce connection_lost client_connection_lost r h)

  chunk-IsOnce :
      (payload : List ℕ) (now : ℕ) (r : Refs)
      → IsOnce n r
      → IsOnce n (handle_audio_chunk payload now r)
  unfolding handle_audio_chunk
  chunk-IsOnce [] now r h = h
  chunk-IsOnce (b ∷ bs) now r h =
      let c : PendingChunk = record { payload = b ∷ bs; seq = r.next_chunk_seq; retries = 0 } in
      let r' = buffer_pending_chunk c (record r { next_chunk_seq = r.next_chunk_seq + 1 }) in
      ground (
        arith,
        drain-IsOnce now (record r' { disconnected_at = none }),
        guard-IsOnce now r.disconnected_at r',
      )

  report-IsOnce :
      (e : AckError) (pressed : Bool) (r : Refs) → IsOnce n r → IsOnce n (report e pressed r)
  report-IsOnce (fallback reason message) pressed r h = stop-IsOnce message reason r h
  report-IsOnce (warning message) true r h = ground arith
  report-IsOnce (warning message) false r h = ground arith

  requeue-IsOnce :
      (sent : Option PendingChunk) (response : AudioAckResponse) (now : ℕ) (b : Bool) (r : Refs)
      → IsOnce n r
      → IsOnce n (count_backpressure b (requeue sent response now r))
  requeue-IsOnce none response now true r h = ground arith
  requeue-IsOnce none response now false r h = ground arith
  requeue-IsOnce (some c) response now true r h = ground arith
  requeue-IsOnce (some c) response now false r h = ground arith

  respond-IsOnce :
      (sent : Option PendingChunk) (response : AudioAckResponse) (now : ℕ) (r : Refs)
      → IsOnce n r
      → IsOnce n (respond sent response now r)
  unfolding reject
  respond-IsOnce sent response now r h =
      let pressed = is_backpressure response.reason in
      let r' = count_backpressure pressed (requeue sent response now r) in
      ground (
        arith,
        report-IsOnce (get_ack_error_message response r'.consecutive_backpressure) pressed r',
        requeue-IsOnce sent response now pressed r h,
      )

  ack-IsOnce :
      (i : ℕ) (ack : Option AudioAckResponse) (now : ℕ) (r : Refs)
      → IsOnce n r
      → IsOnce n (handle_audio_ack_response i ack now r)
  unfolding handle_audio_ack_response
  ack-IsOnce i ack now r h = ground (
    arith,
    respond-IsOnce (get_chunk i r.chunk_by_ack_id) (or_else ack no_response) now
        (record (release i r) { consecutive_timeout = 0 }),
  )

  timeout-IsOnce : (i : ℕ) (r : Refs) → IsOnce n r → IsOnce n (on_ack_timeout i r)
  unfolding on_ack_timeout
  timeout-IsOnce i r h = ground (
    arith,
    stop-IsOnce ack_delayed client_ack_timeout
        (record (release i r) { consecutive_timeout = r.consecutive_timeout + 1 }),
  )

  step-IsOnce : (e : Event) (r : Refs) → IsOnce n r → IsOnce n (step e r)
  unfolding step
  step-IsOnce (captured payload now) r h = chunk-IsOnce payload now r h
  step-IsOnce (acknowledged i ack now) r h =
      unfold process_ack in
      (drain-IsOnce now (handle_audio_ack_response i ack now r) (ack-IsOnce i ack now r h))
  step-IsOnce (timed_out i) r h = timeout-IsOnce i r h
  step-IsOnce (retry_timer now) r h = drain-IsOnce now (record r { retry_drain_timer = none }) h
  step-IsOnce (connection b) r h = h

  run-IsOnce : (es : List Event) (r : Refs) → IsOnce n r → IsOnce n (run es r)
  unfolding run
  run-IsOnce [] r h = h
  run-IsOnce (e ∷ es) r h = run-IsOnce es (step e r) (step-IsOnce e r h)

-- In one session of streaming the page is told at most once to fall back to batch transcription,
-- whatever happens and however often a guard fires.
pub fallback_once :
    (connected has_callback : Bool) (r : Refs) (es : List Event)
    → fallbacks (run es (start_audio_streaming_runtime connected has_callback r)).outbox
      ≤ suc (fallbacks r.outbox)
unfolding start_audio_streaming_runtime
fallback_once connected has_callback r es = ground (
  arith,
  run-IsOnce (fallbacks r.outbox) es (start_audio_streaming_runtime connected has_callback r)
      (inl refl),
)

-- The state after a fallback: the socket and the callback are let go.
abbrev pub IsDetached : List Effect → Refs → Type 0
IsDetached out r = (r.socket ≡ none) × (r.has_fallback_callback ≡ false) × (r.outbox ≡ out)

stop-IsDetached :
    (out : List Effect) (message : Message) (reason : FallbackReason) (r : Refs)
    → IsDetached out r
    → IsDetached out (stop_for_realtime_instability message reason r)
unfolding stop_for_realtime_instability
stop-IsDetached out message reason r h = ground arith

drain-IsDetached :
    (out : List Effect) (now : ℕ) (r : Refs)
    → IsDetached out r
    → IsDetached out (drain_pending_chunks now r)
unfolding drain_pending_chunks
drain-IsDetached out now r h = ground arith

report-IsDetached :
    (out : List Effect) (e : AckError) (pressed : Bool) (r : Refs)
    → IsDetached out r
    → IsDetached out (report e pressed r)
report-IsDetached out (fallback reason message) pressed r h = stop-IsDetached out message reason r h
report-IsDetached out (warning message) true r h = ground arith
report-IsDetached out (warning message) false r h = ground arith

requeue-IsDetached :
    (out : List Effect) (sent : Option PendingChunk) (response : AudioAckResponse) (now : ℕ)
    (b : Bool) (r : Refs)
    → IsDetached out r
    → IsDetached out (count_backpressure b (requeue sent response now r))
requeue-IsDetached out none response now true r h = ground arith
requeue-IsDetached out none response now false r h = ground arith
requeue-IsDetached out (some c) response now true r h = ground arith
requeue-IsDetached out (some c) response now false r h = ground arith

ack-IsDetached :
    (out : List Effect) (i : ℕ) (ack : Option AudioAckResponse) (now : ℕ) (r : Refs)
    → IsDetached out r
    → IsDetached out (handle_audio_ack_response i ack now r)
unfolding handle_audio_ack_response reject
ack-IsDetached out i ack now r h =
    let response = or_else ack no_response in
    let sent = get_chunk i r.chunk_by_ack_id in
    let pressed = is_backpressure response.reason in
    let r₀ : Refs = record (release i r) { consecutive_timeout = 0 } in
    let r' = count_backpressure pressed (requeue sent response now r₀) in
    ground (
      arith,
      report-IsDetached out (get_ack_error_message response r'.consecutive_backpressure) pressed r',
      requeue-IsDetached out sent response now pressed r₀,
    )

step-IsDetached :
    (out : List Effect) (e : Event) (r : Refs) → IsDetached out r → IsDetached out (step e r)
unfolding step
step-IsDetached out (captured [] now) r h = unfold handle_audio_chunk in h
step-IsDetached out (captured (b ∷ bs) now) r h =
    unfold handle_audio_chunk stop_for_realtime_instability in (ground arith)
step-IsDetached out (acknowledged i ack now) r h =
    unfold process_ack in
    (drain-IsDetached out now (handle_audio_ack_response i ack now r)
      (ack-IsDetached out i ack now r h))
step-IsDetached out (timed_out i) r h =
    unfold on_ack_timeout stop_for_realtime_instability in (ground arith)
step-IsDetached out (retry_timer now) r h =
    drain-IsDetached out now (record r { retry_drain_timer = none }) h
step-IsDetached out (connection b) r h = ground arith

-- Once the runtime has let go of its socket, as every fallback does, no event makes it send
-- anything, until streaming is started again.
pub detached_is_silent :
    (es : List Event) (r : Refs)
    → r.socket ≡ none
    → r.has_fallback_callback ≡ false
    → (run es r).outbox ≡ r.outbox
unfolding run
detached_is_silent [] r s c = refl
detached_is_silent (e ∷ es) r s c =
    let d = step-IsDetached r.outbox e r (s, c, refl) in
    detached_is_silent es (step e r) d.0 d.1 ∙ d.2
