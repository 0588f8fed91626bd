-- ===== src/Transcription/Batch/Uploads/Queueing.antt =====
-- What confirming, recovering and reconciling an upload come to: `processBatchUpload` of
-- transcription.service.ts.
use nangman_note.Base.{
  ℕ, String, true, false, Option, none, some, Failure, ok, thrown, bad_request, is_some, ◌≡◌, inl,
  inr, refl, arith, outcome-cases,
}
use nangman_note.Meeting.Entity.{MeetingEntity, completed}
use nangman_note.Meeting.Context.{World, is_meeting}
use nangman_note.Meeting.Lifecycle.{find_by_id}
use nangman_note.Transcription.Entity.{TranscriptionUploadEntity, TranscriptionUploadStatus}
use nangman_note.Transcription.Batch.{BatchHost, is_upload_of, queue_batch_job_for_meeting}
use nangman_note.Transcription.Batch.Uploads.{
  UploadOptions, UploadRecovery, with_missing_object, with_object, process_new_upload,
  confirm_batch_upload, reconcile_pending_batch_upload, ensure_batch_meeting,
  recover_pending_batch_upload,
}

module _ {S : Type 0} (host : BatchHost S) where
  open host use {services}

  -- Reconciling an upload of an accepted batch meeting that has no job and whose recording has
  -- not arrived yet changes nothing but what asking the object store did.
  pub reconcile_waits :
      (meeting_id upload_id : String) (owner_sub : Option String) (now : ℕ) (w : World S)
      (m : MeetingEntity) (upload : TranscriptionUploadEntity)
      → ensure_batch_meeting host meeting_id owner_sub w ≡ (ok m, w)
      → services.uploads.find_one (is_upload_of m.id upload_id) w.store ≡ ok (some upload)
      → upload.transcription_job_id ≡ none
      → (host.object_exists upload.bucket upload.s3_key w.store).0 ≡ ok false
      → reconcile_pending_batch_upload host meeting_id upload_id owner_sub now w ≡ (
        ok (record { queued = false; object_present = false; job_id = none }),
        record w { store = (host.object_exists upload.bucket upload.s3_key w.store).1 },
      )
  unfolding reconcile_pending_batch_upload
  reconcile_waits meeting_id upload_id owner_sub now w m upload f g j e = ground arith

  -- Recovering an upload of an accepted batch meeting that has no job and whose recording is
  -- missing gives it up: nothing is queued, and its row is saved as failed, with an error.
  pub recover_gives_up :
      (meeting_id upload_id : String) (owner_sub : Option String) (now : ℕ) (w w' : World S)
      (m : MeetingEntity) (upload : TranscriptionUploadEntity) (r : UploadRecovery)
      → ensure_batch_meeting host meeting_id owner_sub w ≡ (ok m, w)
      → services.uploads.find_one (is_upload_of m.id upload_id) w.store ≡ ok (some upload)
      → upload.transcription_job_id ≡ none
      → (host.object_exists upload.bucket upload.s3_key w.store).0 ≡ ok false
      → recover_pending_batch_upload host meeting_id upload_id owner_sub now w ≡ (ok r, w')
      → (r.queued ≡ false)
        × ((saved : TranscriptionUploadEntity) × (saved.status ≡ TranscriptionUploadStatus.failed)
            × (is_some saved.error_message ≡ true)
            × (w'.store
                ≡ (services.uploads.save saved
                    (host.object_exists upload.bucket upload.s3_key w.store).1).1))
  unfolding recover_pending_batch_upload
  recover_gives_up meeting_id upload_id owner_sub now w w' m upload r f g j e h =
      (ground arith, (with_missing_object upload, refl, refl, ground arith))

  -- When the recording of an upload without a job is there but queueing its job throws,
  -- processing the upload throws too: the exception is never swallowed.
  pub queue_failure-thrown :
      (m : MeetingEntity) (upload : TranscriptionUploadEntity) (owner_sub : Option String)
      (options : UploadOptions) (now : ℕ) (w w1 : World S) {e : Failure}
      → (host.object_exists upload.bucket upload.s3_key w.store).0 ≡ ok true
      → queue_batch_job_for_meeting host m upload.media_uri m.language_code owner_sub
          upload.start_offset now
          (record w {
            store =
                (services.uploads.save
                  (with_object now upload)
                  (host.object_exists upload.bucket upload.s3_key w.store).1).1;
          })
        ≡ (thrown e, w1)
      → ((f : Failure) × ((process_new_upload host m upload owner_sub options now w).0 ≡ thrown f))
  unfolding process_new_upload
  queue_failure-thrown m upload owner_sub options now w w1 h q =
      elim (outcome-cases (process_new_upload host m upload owner_sub options now w).0) [
        | inl (x, g) ↦ absurd (ground arith)
        | inr x ↦ x
      ]

  -- No upload of a completed meeting can be confirmed: the attempt throws and changes nothing.
  pub completed_meeting-refused :
      (meeting_id upload_id : String) (owner_sub : Option String) (now : ℕ) (w : World S)
      (m : MeetingEntity)
      → services.meetings.rows.find_one (is_meeting meeting_id owner_sub) w.store ≡ ok (some m)
      → m.status ≡ completed
      → (e : Failure) × (confirm_batch_upload host meeting_id upload_id owner_sub now w
          ≡ (thrown e, w))
  unfolding confirm_batch_upload ensure_batch_meeting find_by_id
  completed_meeting-refused meeting_id upload_id owner_sub now w m f c = (
    bad_request "Batch transcription can no longer be queued for completed meetings",
    ground arith,
  )
