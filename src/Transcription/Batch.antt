-- ===== src/Transcription/Batch.antt =====
-- transcription/application/transcription.service.ts: an uploaded recording is checked, queued as a
-- job, and submitted to the provider. The lock of `withUploadLock` and the log lines are left out,
-- the clock is an argument.
pub mod Submitting
pub mod Uploads
use nangman_note.Base.{
  ℕ, zero, suc, String, Bool, true, false, Option, none, some, List, ◌∷◌, Outcome, Failure, ok,
  thrown, message, bad_gateway, bad_request, Run, return, throw, modify, read, catch, when,
  or_throw, or_else, if◌then◌else◌, is_some, not, ◌&&◌, ◌>>=◌, ◌>>◌, ◌<>◌, str_eq, starts_with,
  trim, truthy, leb, ◌||◌, ◌==◌,
}
use Prim.Native.Char.{Char, code}
use Prim.Native.String
use nangman_note.Meeting.Entity.{
  MeetingEntity, transcribing, is_completed, is_batch, batch, MeetingTranscriptionMode,
}
use nangman_note.Meeting.Context.{World, Services, stored, reading}
use nangman_note.Meeting.Lifecycle.{find_by_id, update_processing_phase, no_phase_options}
use nangman_note.Transcription.Entity.{
  TranscriptionJobEntity, TranscriptionJobStatus, TranscriptionUploadEntity,
  TranscriptionUploadStatus, queued, processing, completed, failed, uploaded, job_queued,
  submission_pending_error, is_submission_pending, has_collection_failure,
}

-- The answer of `submitBatchJob`.
pub record Submission : Type 0 where
  pub provider_job_id : String
  pub status : TranscriptionJobStatus

-- What is called besides the meeting service: the batch provider, the streaming provider, the
-- object store, and `randomUUID`.
pub record BatchHost (S : Type 0) : Type 0 where
  pub services : Services S
  pub submit_batch_job : TranscriptionJobEntity → Run S Submission
  pub has_active_session : String → S → Bool
  pub object_exists : String → String → Run S Bool
  pub random_uuid : Run S String

abbrev pub is_alphanumeric : Char → Bool
is_alphanumeric c =
    let n = code c in (leb 48 n && leb n 57) || (leb 65 n && leb n 90) || (leb 97 n && leb n 122)

abbrev pub keep_chars : (Char → Bool) → String → String
keep_chars p String.[] = String.[]
keep_chars p (String.◌∷◌ c s) = let rest = keep_chars p s in if p c then String.◌∷◌ c rest else rest

abbrev pub take_chars : ℕ → String → String
take_chars zero s = String.[]
take_chars (suc n) String.[] = String.[]
take_chars (suc n) (String.◌∷◌ c s) = String.◌∷◌ c (take_chars n s)

abbrev pub build_provider_job_id : String → String → String
build_provider_job_id meeting_id job_id =
    "aws-transcribe-"
    <> (take_chars 20 (keep_chars is_alphanumeric meeting_id)
        <> ("-" <> keep_chars (λ c. not (code c == 45)) job_id))

-- `requestedLanguageCode?.trim() || 'ko-KR'`.
abbrev pub language_of : Option String → String
language_of none = "ko-KR"
language_of (some text) = if truthy (trim text) then trim text else "ko-KR"

-- `where: { meetingId, mediaUri }` and `where: { id, meetingId }`.
unfoldable pub is_job_of_media : String → String → TranscriptionJobEntity → Bool
is_job_of_media meeting_id media_uri job =
    str_eq job.meeting_id meeting_id && str_eq job.media_uri media_uri

unfoldable pub is_upload_of : String → String → TranscriptionUploadEntity → Bool
is_upload_of meeting_id upload_id upload =
    str_eq upload.id upload_id && str_eq upload.meeting_id meeting_id

unfoldable pub has_id : String → TranscriptionJobEntity → Bool
has_id id job = str_eq job.id id

-- The condition of `resumeExistingBatchJob`.
abbrev pub needs_polling : TranscriptionJobStatus → TranscriptionJobEntity → Bool
needs_polling queued job = true
needs_polling processing job = true
needs_polling completed job = not (is_some job.collected_at)
needs_polling failed job = has_collection_failure job.error_message

-- The job that is created, with the time of the database as its two times.
abbrev pub new_job :
    MeetingEntity → String → String → String → Option ℕ → ℕ → TranscriptionJobEntity
new_job m job_id media_uri language_code start_offset now = record {
  id = job_id;
  meeting_id = m.id;
  provider_job_id = build_provider_job_id m.id job_id;
  status = queued;
  media_uri = media_uri;
  idempotency_key = some media_uri;
  language_code = language_code;
  transcript_uri = none;
  error_message = some submission_pending_error;
  collected_at = none;
  start_offset = start_offset;
  created_at = now;
  updated_at = now;
}

abbrev pub with_submission : Submission → TranscriptionJobEntity → TranscriptionJobEntity
with_submission s job = record job {
  provider_job_id = s.provider_job_id;
  status = s.status;
  error_message = none;
}

module _ {S : Type 0} (host : BatchHost S) where
  open host use {services}

  -- `startBatchPolling`, which is not awaited.
  abbrev pub start_batch_polling : String → String → Run (World S) (Unit {0})
  start_batch_polling meeting_id job_id =
      modify (λ w. record w { polls = (meeting_id, job_id) ∷ w.polls })

  -- An exception of `m` becomes a `BadGatewayException` with its message.
  abbrev pub as_bad_gateway : {A : Type 0} → Run (World S) A → Run (World S) A
  as_bad_gateway m = catch m (λ e. throw (bad_gateway (message e)))

  -- The phase of the meeting; a failure is logged only.
  abbrev pub enter_transcribing : String → Option String → Run (World S) (Unit {0})
  enter_transcribing meeting_id owner_sub =
      catch
        (find_by_id services meeting_id owner_sub >>= λ current.
          when (not (is_completed current.status)) (
            update_processing_phase services meeting_id (some transcribing) owner_sub
              no_phase_options
            >> return tt))
        (λ e. return tt)

  unfoldable pub submit_persisted_batch_job :
      TranscriptionJobEntity → MeetingEntity → Option String → Run (World S) TranscriptionJobEntity
  submit_persisted_batch_job job m owner_sub = do
    submission ← as_bad_gateway (stored (host.submit_batch_job job))
    saved ← as_bad_gateway (stored (services.jobs.save (with_submission submission job)))
    enter_transcribing m.id owner_sub
    start_batch_polling m.id saved.id
    return saved

  unfoldable pub resume_existing_batch_job : TranscriptionJobEntity → Run (World S) (Unit {0})
  resume_existing_batch_job job =
      when (needs_polling job.status job) (start_batch_polling job.meeting_id job.id)

  unfoldable pub recover_or_resume_existing_batch_job :
      TranscriptionJobEntity → MeetingEntity → Option String → Run (World S) TranscriptionJobEntity
  unfolding submit_persisted_batch_job resume_existing_batch_job
  recover_or_resume_existing_batch_job job m owner_sub =
      if is_submission_pending job.error_message
      then submit_persisted_batch_job job m owner_sub
      else (resume_existing_batch_job job >> return job)

  -- The insert, or the job that another call has inserted meanwhile.
  abbrev pub insert_or_raced :
      TranscriptionJobEntity → MeetingEntity → Option String → Run (World S) TranscriptionJobEntity
  insert_or_raced job m owner_sub w = elim (stored (services.jobs.save job) w).0 [
    | ok saved ↦ submit_persisted_batch_job saved m owner_sub (stored (services.jobs.save job) w).1
    | thrown e ↦
        (reading (services.jobs.find_one (is_job_of_media m.id job.media_uri)) >>= λ raced.
        elim raced [
          | some other_job ↦ recover_or_resume_existing_batch_job other_job m owner_sub
          | none ↦ throw e
        ])
          (stored (services.jobs.save job) w).1
  ]

  unfoldable pub queue_batch_job_for_meeting :
      MeetingEntity
      → String
      → Option String
      → Option String
      → Option ℕ
      → ℕ
      → Run (World S) TranscriptionJobEntity
  unfolding recover_or_resume_existing_batch_job submit_persisted_batch_job
  queue_batch_job_for_meeting m media_uri language_code owner_sub start_offset now = do
    existing ← reading (services.jobs.find_one (is_job_of_media m.id media_uri))
    elim existing [
      | some job ↦ recover_or_resume_existing_batch_job job m owner_sub
      | none ↦ stored host.random_uuid >>= λ job_id.
          insert_or_raced (new_job m job_id media_uri (language_of language_code) start_offset now)
            m owner_sub
    ]
