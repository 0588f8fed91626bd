-- ===== src/Transcription/Batch/Uploads.antt =====
-- `ensureBatchMeeting`, `processBatchUpload` and the three calls that confirm, recover and
-- reconcile an upload.
pub mod Queueing
use nangman_note.Base.{
  ℕ, String, Bool, true, false, Option, none, some, Outcome, Failure, ok, thrown, message,
  bad_request, Run, return, throw, when, or_throw, or_else, is_some, if◌then◌else◌, not, ◌>>=◌,
  ◌>>◌,
}
use nangman_note.Meeting.Entity.{MeetingEntity, is_completed, is_batch, batch}
use nangman_note.Meeting.Context.{World, stored, reading}
use nangman_note.Meeting.Lifecycle.{find_by_id}
use nangman_note.Transcription.Entity.{
  TranscriptionJobEntity, TranscriptionUploadEntity, uploaded, job_queued,
  TranscriptionUploadStatus,
}
use nangman_note.Transcription.Batch.{
  BatchHost, has_id, is_upload_of, recover_or_resume_existing_batch_job,
  queue_batch_job_for_meeting,
}

pub record UploadOptions : Type 0 where
  pub mark_missing_object_as_failed : Bool
  pub throw_on_missing_object : Bool

pub record UploadResult : Type 0 where
  pub job : Option TranscriptionJobEntity
  pub object_present : Bool

-- `{ queued, objectPresent, jobId }`.
pub record UploadRecovery : Type 0 where
  pub queued : Bool
  pub object_present : Bool
  pub job_id : Option String

abbrev pub recovery_of : UploadResult → UploadRecovery
recovery_of r = record {
  queued = is_some r.job;
  object_present = r.object_present;
  job_id = elim r.job [ none ↦ none | some job ↦ some job.id ];
}

abbrev pub missing_object_error : String
missing_object_error = "Uploaded audio file is not available yet. Retry after the upload finishes."

-- The upload as it is saved on each way.
abbrev pub with_missing_object : TranscriptionUploadEntity → TranscriptionUploadEntity
with_missing_object upload = record upload {
  status = TranscriptionUploadStatus.failed;
  error_message =
      some (or_else upload.error_message "Uploaded audio file not found during recovery");
}

abbrev pub with_object : ℕ → TranscriptionUploadEntity → TranscriptionUploadEntity
with_object now upload = record upload {
  status = uploaded;
  confirmed_at = some (or_else upload.confirmed_at now);
  error_message = none;
}

abbrev pub with_job : String → ℕ → TranscriptionUploadEntity → TranscriptionUploadEntity
with_job job_id now upload = record upload {
  status = job_queued;
  transcription_job_id = some job_id;
  job_queued_at = some now;
  error_message = none;
}

abbrev pub with_queue_failure : Failure → TranscriptionUploadEntity → TranscriptionUploadEntity
with_queue_failure e upload = record upload {
  status = TranscriptionUploadStatus.failed;
  error_message = some (message e);
}

module _ {S : Type 0} (host : BatchHost S) where
  open host use {services}

  -- `updatePrompt(id, { transcriptionMode: BATCH }, ownerSub)`, which sets nothing else.
  unfoldable pub switch_to_batch : String → Option String → Run (World S) MeetingEntity
  switch_to_batch meeting_id owner_sub = do
    m ← find_by_id services meeting_id owner_sub
    stored (services.meetings.rows.save (record m { transcription_mode = batch }))

  unfoldable pub ensure_batch_meeting : String → Option String → Run (World S) MeetingEntity
  unfolding switch_to_batch
  ensure_batch_meeting meeting_id owner_sub = do
    m ← find_by_id services meeting_id owner_sub
    if is_completed m.status
        then throw
            (bad_request "Batch transcription can no longer be queued for completed meetings")
        else (if is_batch m.transcription_mode
            then return m
            else (reading (λ s. ok (host.has_active_session meeting_id s)) >>= λ active.
                if active
                then throw
                    (bad_request "Realtime transcription session is still active for this meeting")
                else switch_to_batch meeting_id owner_sub))

  abbrev pub find_existing_upload_job :
      TranscriptionUploadEntity → Run (World S) (Option TranscriptionJobEntity)
  find_existing_upload_job upload = elim upload.transcription_job_id [
    | none ↦ return none
    | some id ↦ reading (services.jobs.find_one (has_id id))
  ]

  abbrev pub without_object : TranscriptionUploadEntity → UploadOptions → Run (World S) UploadResult
  without_object upload options = do
    when options.mark_missing_object_as_failed
        (stored (services.uploads.save (with_missing_object upload)) >> return tt)
    when options.throw_on_missing_object (throw (bad_request missing_object_error))
    return (record { job = none; object_present = false })

  -- The job is queued, and the upload saved with it; a failure is saved and thrown on.
  abbrev pub queued_or_failed :
      Outcome TranscriptionJobEntity → TranscriptionUploadEntity → ℕ → Run (World S) UploadResult
  queued_or_failed (thrown e) upload now w =
      (stored (services.uploads.save (with_queue_failure e upload)) >> throw e) w
  queued_or_failed (ok job) upload now w =
      elim (stored (services.uploads.save (with_job job.id now upload)) w).0 [
        | ok saved ↦ (
          ok (record { job = some job; object_present = true }),
          (stored (services.uploads.save (with_job job.id now upload)) w).1,
        )
        | thrown e ↦
            (stored (services.uploads.save (with_queue_failure e (with_job job.id now upload)))
                >> throw e)
              (stored (services.uploads.save (with_job job.id now upload)) w).1
      ]

  abbrev pub queue_upload :
      MeetingEntity → TranscriptionUploadEntity → Option String → ℕ → Run (World S) UploadResult
  queue_upload m upload owner_sub now w =
      let (r, w') =
        queue_batch_job_for_meeting host m upload.media_uri m.language_code owner_sub
          upload.start_offset now w in
      queued_or_failed r upload now w'

  unfoldable pub process_new_upload :
      MeetingEntity
      → TranscriptionUploadEntity
      → Option String
      → UploadOptions
      → ℕ
      → Run (World S) UploadResult
  process_new_upload m upload owner_sub options now = do
    exists ← stored (host.object_exists upload.bucket upload.s3_key)
    if not exists
        then without_object upload options
        else (stored (services.uploads.save (with_object now upload))
            >> queue_upload m (with_object now upload) owner_sub now)

  unfoldable pub process_batch_upload :
      MeetingEntity → String → Option String → UploadOptions → ℕ → Run (World S) UploadResult
  unfolding process_new_upload
  process_batch_upload m upload_id owner_sub options now = do
    found ← reading (services.uploads.find_one (is_upload_of m.id upload_id))
    upload ← or_throw found (bad_request "Upload session not found for this meeting")
    existing ← find_existing_upload_job upload
    elim existing [
      | some job ↦ recover_or_resume_existing_batch_job host job m owner_sub >>= λ recovered.
          return (record { job = some recovered; object_present = true })
      | none ↦ process_new_upload m upload owner_sub options now
    ]

  unfoldable pub confirm_batch_upload :
      String → String → Option String → ℕ → Run (World S) TranscriptionJobEntity
  unfolding ensure_batch_meeting process_batch_upload
  confirm_batch_upload meeting_id upload_id owner_sub now = do
    m ← ensure_batch_meeting meeting_id owner_sub
    result ←
        process_batch_upload m upload_id owner_sub
          (record { mark_missing_object_as_failed = false; throw_on_missing_object = true }) now
    or_throw result.job (bad_request missing_object_error)

  unfoldable pub recover_pending_batch_upload :
      String → String → Option String → ℕ → Run (World S) UploadRecovery
  unfolding ensure_batch_meeting process_batch_upload
  recover_pending_batch_upload meeting_id upload_id owner_sub now = do
    m ← ensure_batch_meeting meeting_id owner_sub
    result ←
        process_batch_upload m upload_id owner_sub
          (record { mark_missing_object_as_failed = true; throw_on_missing_object = false }) now
    return (recovery_of result)

  unfoldable pub reconcile_pending_batch_upload :
      String → String → Option String → ℕ → Run (World S) UploadRecovery
  unfolding ensure_batch_meeting process_batch_upload
  reconcile_pending_batch_upload meeting_id upload_id owner_sub now = do
    m ← ensure_batch_meeting meeting_id owner_sub
    result ←
        process_batch_upload m upload_id owner_sub
          (record { mark_missing_object_as_failed = false; throw_on_missing_object = false }) now
    return (recovery_of result)
