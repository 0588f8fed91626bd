-- ===== src/Transcription/Entity.antt =====
-- transcription/domain: the job and upload entities, their enums, and the `where` clause of a job
-- that is not settled.
use nangman_note.Base.{
  ℕ, String, Bool, true, false, Option, none, some, not, ◌&&◌, is_some, str_eq, starts_with,
}

pub data TranscriptionJobStatus : Type 0 where
  queued processing completed failed : TranscriptionJobStatus

pub data TranscriptionUploadStatus : Type 0 where
  issued uploaded job_queued failed : TranscriptionUploadStatus

-- Times are milliseconds. The offset, a float of seconds in the source, is in milliseconds too.
pub record TranscriptionJobEntity : Type 0 where
  pub id : String
  pub meeting_id : String
  pub provider_job_id : String
  pub status : TranscriptionJobStatus
  pub media_uri : String
  pub idempotency_key : Option String
  pub language_code : String
  pub transcript_uri : Option String
  pub error_message : Option String
  pub collected_at : Option ℕ
  pub start_offset : Option ℕ
  pub created_at : ℕ
  pub updated_at : ℕ

pub record TranscriptionUploadEntity : Type 0 where
  pub id : String
  pub meeting_id : String
  pub bucket : String
  pub s3_key : String
  pub media_uri : String
  pub status : TranscriptionUploadStatus
  pub content_type : String
  pub transcription_job_id : Option String
  pub error_message : Option String
  pub confirmed_at : Option ℕ
  pub job_queued_at : Option ℕ
  pub expires_at : Option ℕ
  pub start_offset : Option ℕ
  pub created_at : ℕ

abbrev pub collection_failure_prefix : String
collection_failure_prefix = "Result collection failed: "

abbrev pub submission_pending_error : String
submission_pending_error = "AWS transcription submission pending"

-- `errorMessage LIKE 'Result collection failed: %'`, which NULL does not meet.
abbrev pub has_collection_failure : Option String → Bool
has_collection_failure none = false
has_collection_failure (some text) = starts_with text collection_failure_prefix

-- `job.errorMessage === TRANSCRIPTION_SUBMISSION_PENDING_ERROR`.
abbrev pub is_submission_pending : Option String → Bool
is_submission_pending none = false
is_submission_pending (some text) = str_eq text submission_pending_error

-- The three alternatives of the clause, by status.
abbrev pub is_unsettled : TranscriptionJobStatus → TranscriptionJobEntity → Bool
is_unsettled queued job = true
is_unsettled processing job = true
is_unsettled completed job = not (is_some job.collected_at)
is_unsettled failed job = has_collection_failure job.error_message

unfoldable pub unsettled_transcription_job : String → TranscriptionJobEntity → Bool
unsettled_transcription_job meeting_id job =
    str_eq job.meeting_id meeting_id && is_unsettled job.status job

-- `status: In([ISSUED, UPLOADED])`.
abbrev pub is_pending : TranscriptionUploadStatus → Bool
is_pending issued = true
is_pending uploaded = true
is_pending _ = false

unfoldable pub pending_upload : String → TranscriptionUploadEntity → Bool
pending_upload meeting_id upload = str_eq upload.meeting_id meeting_id && is_pending upload.status

-- `where: { meetingId }`.
unfoldable pub job_of_meeting : String → TranscriptionJobEntity → Bool
job_of_meeting meeting_id job = str_eq job.meeting_id meeting_id
