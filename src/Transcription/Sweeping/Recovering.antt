-- ===== src/Transcription/Sweeping/Recovering.antt =====
-- What the sweep over stuck meetings comes to.
use nangman_note.Base.{
  ℕ, List, [], ◌∷◌, Outcome, Failure, ok, thrown, Run, for_each, filter, not, ◌&&◌, is_some, ◌≡◌,
  refl, arith,
}
use nangman_note.Meeting.Entity.{MeetingEntity, is_processing, is_recording, is_regenerating}
use nangman_note.Meeting.Context.{World, Services}
use nangman_note.Transcription.Sweeping.{
  SweepHost, is_stalled, is_abandoned, is_stale_regeneration, sweep, recover_candidate,
  close_recording, recover_abandoned_recording_meetings, recover_stalled_regenerating_meetings,
}

module _ {S : Type 0} where
  -- A loop whose body does not throw does not throw.
  for_each-ok :
      {A : Type 0} (xs : List A) (f : A → Run S (Unit {0}))
      → ((x : A) (s : S) → (f x s).0 ≡ ok tt)
      → (s : S) → (for_each xs f s).0 ≡ ok tt
  for_each-ok [] f h s = refl
  for_each-ok (x ∷ xs) f h s = grind (arith, h x s, for_each-ok xs f h (f x s).1)

-- The three queries of the sweep.
abbrev pub stalled_rows : {S : Type 0} → Services S → S → Outcome (List MeetingEntity)
stalled_rows services =
    services.meetings.rows.find (λ m. is_processing m.status && not (is_some m.deleted_at))

module _ {S : Type 0} (host : SweepHost S) where
  open host use {collector}
  open collector use {services}

  close_recording-ok :
      (now : ℕ) (m : MeetingEntity) (w : World S) → (close_recording host now m w).0 ≡ ok tt
  close_recording-ok now m w = ground arith

  -- Closing the recordings that were left alone never throws once they have been looked up,
  -- whatever becomes of each of them.
  pub abandoned-ok :
      (now : ℕ) (w : World S) (ms : List MeetingEntity)
      → services.meetings.rows.find
          (λ m. is_recording m.status && not (is_some m.deleted_at))
          w.store
        ≡ ok ms
      → (recover_abandoned_recording_meetings host now w).0 ≡ ok tt
  unfolding recover_abandoned_recording_meetings
  abandoned-ok now w ms h = grind (
    arith,
    for_each-ok (filter (is_abandoned now) ms) (close_recording host now) (close_recording-ok now)
        w,
  )

  -- A sweep that finds no candidate changes nothing.
  pub sweep_idle :
      (now : ℕ) (w : World S) (stalled recording regenerating : List MeetingEntity)
      → stalled_rows services w.store ≡ ok stalled
      → services.meetings.rows.find
          (λ m. is_recording m.status && not (is_some m.deleted_at))
          w.store
        ≡ ok recording
      → services.meetings.rows.find
          (λ m. is_regenerating m.processing_phase && not (is_some m.deleted_at))
          w.store
        ≡ ok regenerating
      → filter (is_stalled now) stalled ≡ []
      → filter (is_abandoned now) recording ≡ []
      → filter (is_stale_regeneration now) regenerating ≡ []
      → sweep host now w ≡ (ok tt, w)
  unfolding sweep recover_abandoned_recording_meetings recover_stalled_regenerating_meetings
  sweep_idle now w stalled recording regenerating f g h a b c = ground arith

  -- An exception in the recovery of one stalled meeting ends the sweep: the meetings behind it,
  -- the recordings that were left alone and the stale regenerations are not taken up.
  pub sweep_stops :
      (now : ℕ) (w w' : World S) (stalled ms : List MeetingEntity) (m : MeetingEntity) (e : Failure)
      → stalled_rows services w.store ≡ ok stalled
      → filter (is_stalled now) stalled ≡ m ∷ ms
      → recover_candidate host now m w ≡ (thrown e, w')
      → sweep host now w ≡ (thrown e, w')
  unfolding sweep
  sweep_stops now w w' stalled ms m e f g h = ground arith
