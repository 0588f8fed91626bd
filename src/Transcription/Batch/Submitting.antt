-- ===== src/Transcription/Batch/Submitting.antt =====
-- What queueing a job does: `queueBatchJobForMeeting`, `submitPersistedBatchJob` and
-- `resumeExistingBatchJob` of transcription.service.ts.
use nangman_note.Base.{
  String, Option, none, ◌∷◌, Failure, ok, thrown, message, bad_gateway, ◌≡◌, inl, inr, refl, arith,
  outcome-cases,
}
use nangman_note.Meeting.Entity.{MeetingEntity}
use nangman_note.Meeting.Context.{World}
use nangman_note.Meeting.Lifecycle.{find_by_id, update_processing_phase}
use nangman_note.Transcription.Entity.{TranscriptionJobEntity}
use nangman_note.Transcription.Batch.{
  BatchHost, submit_persisted_batch_job, with_submission, enter_transcribing,
}

module _ {S : Type 0} (host : BatchHost S) where
  open host use {services}

  -- When the provider refuses a job, the caller gets a 502 with the provider's message, nothing
  -- is polled, no event goes out, and the store is as the provider's call left it.
  pub submit-refused :
      (job : TranscriptionJobEntity) (m : MeetingEntity) (owner_sub : Option String) (w : World S)
      {e : Failure}
      → (host.submit_batch_job job w.store).0 ≡ thrown e
      → submit_persisted_batch_job host job m owner_sub w ≡ (
        thrown (bad_gateway (message e)),
        record w { store = (host.submit_batch_job job w.store).1 },
      )
  unfolding submit_persisted_batch_job
  submit-refused job m owner_sub w h = ground arith

  enter_transcribing-polls :
      (meeting_id : String) (owner_sub : Option String) (w : World S)
      → ((enter_transcribing host meeting_id owner_sub w).0 ≡ ok tt)
        × ((enter_transcribing host meeting_id owner_sub w).1.polls ≡ w.polls)
  unfolding find_by_id update_processing_phase
  enter_transcribing-polls meeting_id owner_sub w = (ground arith, ground arith)

  -- A job that was submitted is polled once it is saved, and the row that was saved bears the
  -- provider's answer and no error.
  pub submit-polled :
      (job job' : TranscriptionJobEntity) (m : MeetingEntity) (owner_sub : Option String)
      (w w' : World S)
      → submit_persisted_batch_job host job m owner_sub w ≡ (ok job', w')
      → (w'.polls ≡ (m.id, job'.id) ∷ w.polls)
        × ((saved : TranscriptionJobEntity) × (saved.error_message ≡ none)
            × ((services.jobs.save saved (host.submit_batch_job job w.store).1).0 ≡ ok job'))
  unfolding submit_persisted_batch_job
  submit-polled job job' m owner_sub w w' h =
      elim (outcome-cases (host.submit_batch_job job w.store).0) [
        | inl (s, e) ↦
            (grind (arith, enter_transcribing-polls), (with_submission s job, refl, ground arith))
        | inr (e, f) ↦ absurd (ground arith)
      ]
