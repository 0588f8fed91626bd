-- ===== src/Streaming/Order/Invariant.antt =====
-- At any time at most one chunk waits for its acknowledgement, and it comes before all that are
-- pending: the invariant of the runtime, kept by whatever happens.
use nangman_note.Base.{
  ℕ, ◌≤◌, ◌<◌, Bool, true, none, List, [], ◌∷◌, ◌≡◌, refl, arith, length, inl, inr, ◌⊎◌,
}
use nangman_note.Streaming.Policy.{Message, FallbackReason}
use nangman_note.Streaming.Runtime.{
  Refs, PendingChunk, max_pending_chunks, is_connected, stop_for_realtime_instability,
  send_audio_chunk, drain_loop, drain_pending_chunks, handle_saturated_audio_queue,
  judge_saturation, start_audio_streaming_runtime,
}
use nangman_note.Streaming.Order.Buffer.{Ascending}

-- The three records of what is in flight agree, and hold at most one entry.
abbrev pub InFlight : ℕ → List ℕ → List (ℕ × PendingChunk) → Type 0
InFlight n [] [] = n ≡ 0
InFlight n (i ∷ []) ((j, c) ∷ []) = (n ≡ 1) × (i ≡ j)
InFlight n _ _ = ⊥

-- The chunk in flight, then those that are pending.
abbrev pub queue : List (ℕ × PendingChunk) → List PendingChunk → List PendingChunk
queue [] cs = cs
queue ((i, c) ∷ rest) cs = c ∷ queue rest cs

pub record IsOrdered (r : Refs) : Type 0 where
  pub in_flight : InFlight r.in_flight_ack_count r.ack_timeouts r.chunk_by_ack_id
  pub ascending :
      Ascending r.last_accepted_seq (queue r.chunk_by_ack_id r.pending_chunks) r.next_chunk_seq
  pub bounded : length r.pending_chunks ≤ max_pending_chunks

pub start-IsOrdered :
    (connected has_callback : Bool) (r : Refs)
    → IsOrdered (start_audio_streaming_runtime connected has_callback r)
unfolding start_audio_streaming_runtime
start-IsOrdered connected has_callback r = ground arith

pub stop-IsOrdered :
    (message : Message) (reason : FallbackReason) (r : Refs)
    → IsOrdered r
    → IsOrdered (stop_for_realtime_instability message reason r)
unfolding stop_for_realtime_instability
stop-IsOrdered message reason r h = ground arith

saturated-IsOrdered :
    (now : ℕ) (r : Refs) → IsOrdered r → IsOrdered (handle_saturated_audio_queue now r)
unfolding handle_saturated_audio_queue
saturated-IsOrdered now r h = ground arith

-- With nothing in flight and a connected socket, the loop sends the oldest chunk and stops: the
-- test for a chunk that is older than an accepted one never discards anything.
pub drain_loop-sends :
    (head : PendingChunk) (rest : List PendingChunk) (r : Refs)
    → is_connected r.socket ≡ true
    → r.in_flight_ack_count ≡ 0
    → r.last_accepted_seq < head.seq
    → drain_loop (head ∷ rest) r ≡ send_audio_chunk head (record r { pending_chunks = rest })
unfolding drain_loop send_audio_chunk
drain_loop-sends head [] r c n l = ground arith
drain_loop-sends head (x ∷ rest) r c n l = ground arith

-- Nothing is in flight, or one chunk is.
pub InFlight-cases :
    (n : ℕ) (ts : List ℕ) (cs : List (ℕ × PendingChunk))
    → InFlight n ts cs
    → ((n ≡ 0) × (ts ≡ []) × (cs ≡ []))
      ⊎ ((i : ℕ) × (c : PendingChunk) × (n ≡ 1) × (ts ≡ i ∷ []) × (cs ≡ (i, c) ∷ []))
InFlight-cases n [] [] h = inl (h, refl, refl)
InFlight-cases n (i ∷ []) ((j, c) ∷ []) h = inr (i, c, h.0, refl, ground arith)
InFlight-cases n [] (x ∷ cs) h = absurd h
InFlight-cases n (i ∷ []) [] h = absurd h
InFlight-cases n (i ∷ []) (x ∷ y ∷ cs) h = absurd h
InFlight-cases n (i ∷ j ∷ ts) cs h = absurd h

drain_loop-IsOrdered :
    (cs : List PendingChunk) (r : Refs)
    → r.pending_chunks ≡ cs
    → is_connected r.socket ≡ true
    → IsOrdered r
    → IsOrdered (drain_loop cs r)
unfolding send_audio_chunk
drain_loop-IsOrdered [] r e c h = unfold drain_loop in h
drain_loop-IsOrdered (head ∷ rest) r e c h =
    elim (InFlight-cases r.in_flight_ack_count r.ack_timeouts r.chunk_by_ack_id h.in_flight) [
      | inl (n, t, k) ↦ ground (arith, drain_loop-sends head rest r)
      | inr (i, d, n, t, k) ↦ unfold drain_loop in (ground arith)
    ]

judge-IsOrdered : (now : ℕ) (r : Refs) → IsOrdered r → IsOrdered (judge_saturation now r)
judge-IsOrdered now r h = ground (arith, saturated-IsOrdered now r h)

pub drain-IsOrdered : (now : ℕ) (r : Refs) → IsOrdered r → IsOrdered (drain_pending_chunks now r)
unfolding drain_pending_chunks
drain-IsOrdered now r h = ground (
  arith,
  judge-IsOrdered now (
      drain_loop r.pending_chunks (record r { retry_backoff_until = 0; retry_drain_timer = none })),
  drain_loop-IsOrdered r.pending_chunks
      (record r { retry_backoff_until = 0; retry_drain_timer = none }),
)
