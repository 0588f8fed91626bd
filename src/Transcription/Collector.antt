-- ===== src/Transcription/Collector.antt =====
-- transcription/application/transcription-result-collector.service.ts: jobs are polled, their
-- results collected once, and the meeting is moved on when all of its jobs are settled. Log lines,
-- the request context and the advisory lock of `withJobCollectionLock` are left out. The clock is
-- an argument, `now`.
pub mod Generating
pub mod Collecting
pub mod Polling
pub mod Recovery
pub mod Finishing
pub mod Quiet
use nangman_note.Base.{
  ℕ, suc, ◌+◌, String, Bool, true, false, Option, none, some, List, [], ◌∷◌, Outcome, Failure, ok,
  thrown, message, other, Run, Repository, return, throw, catch, or_throw, when, for_each, or_else,
  is_some, if◌then◌else◌, ltb, leb, ◌==◌, not, ◌&&◌, ◌||◌, ◌>>=◌, ◌>>◌, filter, length, ◌<>◌,
  starts_with, str_eq, truthy, in_transaction,
}
use nangman_note.Meeting.Entity.{
  MeetingEntity, completed, generating, MeetingStatusChangedEvent, is_processing, is_generating,
}
use nangman_note.Meeting.Context.{World, Services, stored, reading}
use nangman_note.Meeting.Lifecycle.{
  find_by_id, update_status, update_processing_phase, mark_needs_attention, no_phase_options,
}
use nangman_note.Transcription.Entity.{
  TranscriptionJobStatus, TranscriptionJobEntity, TranscriptionUploadStatus, issued,
  TranscriptionUploadEntity, collection_failure_prefix, unsettled_transcription_job, pending_upload,
}
use nangman_note.Transcription.Segments.{Segment, items_to_segments, place_segments, TranscribeItem}

-- The result of `getJobStatus` of the batch provider's port.
pub record JobStatusResult : Type 0 where
  pub status : TranscriptionJobStatus
  pub transcript_uri : Option String
  pub error_message : Option String

-- A transcript that was fetched, parsed and found to have the right shape.
pub record Transcript : Type 0 where
  pub items : List TranscribeItem
  pub speakers : String → Option String

-- What the collector calls besides the meeting service: the batch provider, the file store, and
-- the table of segments, whose calls stand in one transaction; `parse_time` is `parseFloat`.
pub record Collaborators (S : Type 0) : Type 0 where
  pub services : Services S
  pub get_job_status : String → Run S JobStatusResult
  pub fetch_transcript : String → Run S Transcript
  pub parse_time : String → ℕ
  pub default_confidence : ℕ
  pub last_end_time_before : String → ℕ → S → Outcome (Option ℕ)
  pub delete_job_segments : String → String → Run S (Unit {0})
  pub save_segments : String → List Segment → Run S (Unit {0})
  pub delete_audio_file : String → Run S (Unit {0})
  pub generate_for_pipeline : String → Run (World S) (Unit {0})

pub record CollectResult : Type 0 where
  pub success : Bool
  pub segment_count : ℕ

abbrev pub failed_result : CollectResult
failed_result = record { success = false; segment_count = 0 }

-- `{ success: segmentCount !== null, segmentCount: segmentCount ?? 0 }`.
abbrev pub collect_result : Option ℕ → CollectResult
collect_result n = record { success = is_some n; segment_count = or_else n 0 }

abbrev pub pending_upload_window_ms : ℕ
pending_upload_window_ms = 900000

abbrev pub max_job_lifetime_ms : ℕ
max_job_lifetime_ms = 21600000

-- An upload whose link is still valid, or that was made in the last quarter of an hour.
abbrev pub is_recent_by_status : TranscriptionUploadStatus → Option ℕ → ℕ → ℕ → Bool
is_recent_by_status issued (some expires_at) created_at now = ltb now expires_at
is_recent_by_status issued none created_at now = ltb now (created_at + pending_upload_window_ms)
is_recent_by_status _ expires_at created_at now = ltb now (created_at + pending_upload_window_ms)

abbrev pub is_recent_pending : ℕ → TranscriptionUploadEntity → Bool
is_recent_pending now upload =
    is_recent_by_status upload.status upload.expires_at upload.created_at now

abbrev pub no_items {ℓ} : {A : Type ℓ} → List A → Bool
no_items [] = true
no_items (x ∷ xs) = false

-- `where: { id: jobId }`.
unfoldable pub is_job : String → TranscriptionJobEntity → Bool
is_job id job = str_eq job.id id

-- The answer of the provider, copied into the job: a text that is absent or empty changes nothing.
abbrev pub or_kept : Option String → Option String → Option String
or_kept none old = old
or_kept (some new) old = if truthy new then some new else old

abbrev pub with_status : JobStatusResult → TranscriptionJobEntity → TranscriptionJobEntity
with_status result job = record job {
  status = result.status;
  transcript_uri = or_kept result.transcript_uri job.transcript_uri;
  error_message = or_kept result.error_message job.error_message;
}

module _ {S : Type 0} (host : Collaborators S) where
  open host use {services}

  unfoldable pub emit_generating_phase : String → Option String → Run (World S) (Unit {0})
  emit_generating_phase meeting_id owner_sub = do
    current ← find_by_id services meeting_id owner_sub
    when (is_processing current.status) (
        update_processing_phase services meeting_id (some generating) owner_sub no_phase_options
        >> return tt)

  -- `try { meeting = findById(…); status } catch { return; }`: whether to go on.
  abbrev is_in_processing : String → Option String → Run (World S) Bool
  is_in_processing meeting_id owner_sub =
      catch (find_by_id services meeting_id owner_sub >>= λ m. return (is_processing m.status))
        (λ e. return false)

  unfoldable pub emit_generating_phase_if_all_jobs_settled :
      String → Option String → ℕ → Run (World S) (Unit {0})
  unfolding emit_generating_phase
  emit_generating_phase_if_all_jobs_settled meeting_id owner_sub now = do
    processing ← is_in_processing meeting_id owner_sub
    when processing (do
      pending_count ← reading (services.jobs.count (unsettled_transcription_job meeting_id))
      when (pending_count == 0) (do
        pending_uploads ← reading (services.uploads.find (pending_upload meeting_id))
        when (no_items (filter (is_recent_pending now) pending_uploads))
            (emit_generating_phase meeting_id owner_sub)))

  unfoldable pub retrigger_generation_if_stuck :
      String → Option String → ℕ → Run (World S) (Unit {0})
  unfolding emit_generating_phase_if_all_jobs_settled
  retrigger_generation_if_stuck meeting_id owner_sub now =
      catch
        (find_by_id services meeting_id owner_sub >>= λ m.
          when (is_processing m.status)
            (emit_generating_phase_if_all_jobs_settled meeting_id owner_sub now))
        (λ e. return tt)

  -- The offset of a job: its own, or the end of what was saved before the job was made.
  abbrev pub offset_of : TranscriptionJobEntity → Run S ℕ
  offset_of job s = elim job.start_offset [
    | some offset ↦ (ok offset, s)
    | none ↦
        ((λ t. (host.last_end_time_before job.meeting_id job.created_at t, t)) >>= λ last.
        return (or_else last 0))
          s
  ]

  -- `mergeBatchSegments`: the job's old segments go before the offset is read.
  unfoldable pub merge_batch_segments : TranscriptionJobEntity → List Segment → Run S (Unit {0})
  merge_batch_segments job segments = in_transaction (do
    host.delete_job_segments job.meeting_id job.id
    offset ← offset_of job
    when (not (length segments == 0))
        (host.save_segments job.meeting_id (place_segments job.id offset segments)))

  unfoldable pub parse_and_save_results : TranscriptionJobEntity → Option String → Run (World S) ℕ
  parse_and_save_results job transcript_uri = do
    uri ← or_throw transcript_uri (other "Completed transcription job has no transcript URI")
    transcript ← stored (host.fetch_transcript uri)
    let segments =
        items_to_segments host.parse_time host.default_confidence transcript.speakers
          transcript.items
    stored (merge_batch_segments job segments)
    return (length segments)
