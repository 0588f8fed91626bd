-- ===== src/Examples/Uploading.antt =====
-- The theorems on uploads and their jobs at concrete rows and answers.
use nangman_note.Base.{Bool, true, false, none, some, Outcome, ok, thrown, Failure, other}
use nangman_note.Meeting.Entity.{MeetingEntity, processing, completed, batch}
use nangman_note.Meeting.Context.{World}
use nangman_note.Transcription.Entity.{
  TranscriptionJobEntity, TranscriptionUploadEntity, TranscriptionJobStatus,
  TranscriptionUploadStatus,
}
use nangman_note.Transcription.Batch.{BatchHost, Submission}
use nangman_note.Transcription.Batch.Uploads.{
  UploadOptions, UploadResult, recover_pending_batch_upload,
}
use nangman_note.Examples.Db.{Db, db_services, a_meeting, a_job, an_upload, world_with}

-- A host, by the answers of the provider and of the object store.
abbrev host_of : Outcome Submission → Bool → BatchHost Db
host_of answer present = record {
  services = db_services;
  submit_batch_job = λ job s. (answer, s);
  has_active_session = λ id s. false;
  object_exists = λ bucket key s. (ok present, s);
  random_uuid = λ s. (ok "j-2", s);
}

abbrev outage : Failure
outage = other "throttled"

abbrev accepted : Submission
accepted = record { provider_job_id = "aws-1"; status = TranscriptionJobStatus.queued }

abbrev refusing : BatchHost Db
refusing = host_of (thrown outage) true

abbrev accepting : BatchHost Db
accepting = host_of (ok accepted) true

abbrev empty_bucket : BatchHost Db
empty_bucket = host_of (ok accepted) false

abbrev busy_meeting : MeetingEntity
busy_meeting = a_meeting processing batch

abbrev running_job : TranscriptionJobEntity
running_job = a_job TranscriptionJobStatus.processing none

abbrev with_running_job : World Db
with_running_job = world_with (some busy_meeting) (some running_job) none

abbrev with_upload : World Db
with_upload = world_with (some busy_meeting) none (some an_upload)

abbrev lenient : UploadOptions
lenient = record { mark_missing_object_as_failed = false; throw_on_missing_object = false }

abbrev not_there : UploadResult
not_there = record { job = none; object_present = false }

abbrev given_up : World Db
given_up = (recover_pending_batch_upload empty_bucket "m1" "up1" none 400 with_upload).1

abbrev with_done_meeting : World Db
with_done_meeting = world_with (some (a_meeting completed batch)) none (some an_upload)
