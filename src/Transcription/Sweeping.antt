-- ===== src/Transcription/Sweeping.antt =====
-- transcription/application/stalled-meeting-recovery.service.ts: the sweep that looks for meetings
-- that are stuck. The advisory lock of `withRecoveryLock`, the request context and the log lines
-- are left out, the clock is an argument.
pub mod Recovering
use nangman_note.Base.{
  ℕ, ◌+◌, String, Bool, true, false, Option, none, some, List, [], ◌∷◌, Outcome, Failure, ok,
  thrown, Run, Repository, return, catch, when, for_each, is_some, if◌then◌else◌, not, leb, ◌&&◌,
  ◌||◌, ◌>>=◌, ◌>>◌, filter, str_eq,
}
use nangman_note.Meeting.Entity.{
  MeetingEntity, is_processing, is_recording, is_regenerating, is_batch, completed,
}
use nangman_note.Meeting.Context.{World, Services, stored, reading}
use nangman_note.Meeting.Lifecycle.{find_by_id, update_status, update_processing_phase, complete}
use nangman_note.Transcription.Entity.{
  TranscriptionJobEntity, TranscriptionJobStatus, TranscriptionUploadEntity, is_submission_pending,
  queued, processing, job_of_meeting,
}
use nangman_note.Transcription.Collector.{Collaborators, retrigger_generation_if_stuck, is_job}
use nangman_note.Transcription.Collector.Recovery.{
  recover_missing_batch_job, recover_stalled_batch_job,
}
use nangman_note.Transcription.Batch.{
  BatchHost, resume_existing_batch_job, submit_persisted_batch_job,
}
use nangman_note.Transcription.Batch.Uploads.{UploadRecovery, recover_pending_batch_upload}

abbrev pub stalled_threshold_ms : ℕ
stalled_threshold_ms = 3600000

abbrev pub abandoned_recording_threshold_ms : ℕ
abandoned_recording_threshold_ms = 86400000

abbrev pub regenerating_stale_ms : ℕ
regenerating_stale_ms = 1800000

-- `time <= now - age`, on times that never go below zero.
abbrev pub is_older : ℕ → ℕ → ℕ → Bool
is_older age now time = leb (time + age) now

abbrev pub has_ended_before : ℕ → ℕ → Option ℕ → Bool
has_ended_before age now none = false
has_ended_before age now (some t) = is_older age now t

-- The meetings that each part of the sweep takes up; a deleted one is found by none of them.
abbrev pub is_stalled : ℕ → MeetingEntity → Bool
is_stalled now m =
    not (is_some m.deleted_at) && has_ended_before stalled_threshold_ms now m.ended_at

abbrev pub is_abandoned : ℕ → MeetingEntity → Bool
is_abandoned now m =
    not (is_some m.deleted_at)
    && (is_older abandoned_recording_threshold_ms now m.started_at
        && is_older abandoned_recording_threshold_ms now m.updated_at)

abbrev pub is_stale_regeneration : ℕ → MeetingEntity → Bool
is_stale_regeneration now m =
    not (is_some m.deleted_at) && is_older regenerating_stale_ms now m.updated_at

-- `shouldRecoverJob`.
abbrev pub should_recover_by_status : TranscriptionJobStatus → ℕ → ℕ → Bool
should_recover_by_status queued updated_at now = is_older stalled_threshold_ms now updated_at
should_recover_by_status processing updated_at now = is_older stalled_threshold_ms now updated_at
should_recover_by_status _ updated_at now = true

unfoldable pub should_recover_job : ℕ → TranscriptionJobEntity → Bool
should_recover_job now job =
    not (is_some job.collected_at) && should_recover_by_status job.status job.updated_at now

-- `find` of the jobs sorts them by the time of their creation; `has_result` tells whether
-- `resultRepository.findOne` finds a row.
pub record SweepHost (S : Type 0) : Type 0 where
  pub collector : Collaborators S
  pub batch : BatchHost S
  pub has_result : String → S → Outcome Bool

-- `where: { id: jobId }`, and `where: { meetingId }`.
unfoldable pub upload_of_meeting : String → TranscriptionUploadEntity → Bool
upload_of_meeting meeting_id upload = str_eq upload.meeting_id meeting_id

module _ {S : Type 0} (host : SweepHost S) where
  open host use {collector}
  open collector use {services}

  -- Of the transcription service, on the same meeting service and tables.
  abbrev pub batch_host : BatchHost S
  batch_host = record host.batch { services = services }

  unfoldable pub recover_pending_batch_submission :
      String → Option String → Run (World S) (Option TranscriptionJobEntity)
  recover_pending_batch_submission job_id owner_sub = do
    found ← reading (services.jobs.find_one (is_job job_id))
    elim found [
      | none ↦ return none
      | some job ↦
          if is_submission_pending job.error_message
          then (find_by_id services job.meeting_id owner_sub >>= λ m.
              submit_persisted_batch_job batch_host job m owner_sub >>= λ j. return (some j))
          else (resume_existing_batch_job batch_host job >> return (some job))
    ]

  -- A result is there already: the meeting is completed.
  abbrev pub unless_result : MeetingEntity → Run (World S) (Unit {0}) → Run (World S) (Unit {0})
  unless_result m rest = do
    exists ← reading (host.has_result m.id)
    if exists then (update_status services m.id completed none >> return tt) else rest

  unfoldable pub recover_realtime_meeting : MeetingEntity → ℕ → Run (World S) (Unit {0})
  recover_realtime_meeting m now =
      unless_result m (retrigger_generation_if_stuck collector m.id m.owner_sub now)

  abbrev pub recover_missing : MeetingEntity → Run (World S) (Unit {0})
  recover_missing m = recover_missing_batch_job collector m.id m.owner_sub

  -- Behind the `try` around the recovery of an upload.
  abbrev pub after_upload : Option UploadRecovery → MeetingEntity → Run (World S) (Unit {0})
  after_upload (some r) m = if r.queued then return tt else recover_missing m
  after_upload none m = recover_missing m

  abbrev pub recover_without_jobs : MeetingEntity → ℕ → Run (World S) (Unit {0})
  recover_without_jobs m now = do
    latest ← reading (services.uploads.find_latest (upload_of_meeting m.id))
    elim latest [
      | none ↦ recover_missing m
      | some upload ↦
          catch
            (recover_pending_batch_upload batch_host m.id upload.id m.owner_sub now >>= λ r.
              return (some r))
            (λ e. return none)
          >>= λ r. after_upload r m
    ]

  abbrev pub recover_one_job : MeetingEntity → TranscriptionJobEntity → ℕ → Run (World S) (Unit {0})
  recover_one_job m job now =
      if is_submission_pending job.error_message
      then (recover_pending_batch_submission job.id m.owner_sub >> return tt)
      else (recover_stalled_batch_job collector m.id job.id m.owner_sub now >> return tt)

  -- The loop over the jobs, and the generation if none of them was to be recovered.
  abbrev pub recover_jobs :
      MeetingEntity → List TranscriptionJobEntity → ℕ → Run (World S) (Unit {0})
  recover_jobs m [] now = retrigger_generation_if_stuck collector m.id m.owner_sub now
  recover_jobs m (job ∷ jobs) now = for_each (job ∷ jobs) (λ j. recover_one_job m j now)

  unfoldable pub recover_meeting : MeetingEntity → ℕ → Run (World S) (Unit {0})
  recover_meeting m now = unless_result m (
      reading (services.jobs.find (job_of_meeting m.id)) >>= λ jobs. elim jobs [
        | [] ↦ recover_without_jobs m now
        | job ∷ more ↦ recover_jobs m (filter (should_recover_job now) (job ∷ more)) now
      ])

  abbrev pub recover_candidate : ℕ → MeetingEntity → Run (World S) (Unit {0})
  recover_candidate now m =
      if is_batch m.transcription_mode
      then recover_meeting m now
      else recover_realtime_meeting m now

  -- The body of the loop over the recordings that were left alone.
  abbrev pub close_recording : ℕ → MeetingEntity → Run (World S) (Unit {0})
  close_recording now m =
      catch
        (complete services m.id
            (record { skip_transcription = true; mark_attention_required = true }) m.owner_sub now
          >> return tt)
        (λ e. return tt)

  unfoldable pub recover_abandoned_recording_meetings : ℕ → Run (World S) (Unit {0})
  recover_abandoned_recording_meetings now = do
    recording ←
        reading
          (services.meetings.rows.find (λ m. is_recording m.status && not (is_some m.deleted_at)))
    for_each (filter (is_abandoned now) recording) (close_recording now)

  unfoldable pub recover_stalled_regenerating_meetings : ℕ → Run (World S) (Unit {0})
  recover_stalled_regenerating_meetings now = do
    regenerating ← reading (
        services.meetings.rows.find
          (λ m. is_regenerating m.processing_phase && not (is_some m.deleted_at)))
    for_each (filter (is_stale_regeneration now) regenerating) (λ m.
        catch
          (update_processing_phase services m.id none m.owner_sub
              (record { needs_attention = none; status = some completed; completion_state = none })
            >> return tt)
          (λ e. return tt))

  unfoldable pub sweep : ℕ → Run (World S) (Unit {0})
  unfolding recover_meeting recover_realtime_meeting recover_abandoned_recording_meetings
      recover_stalled_regenerating_meetings
  sweep now = do
    stalled ←
        reading
          (services.meetings.rows.find (λ m. is_processing m.status && not (is_some m.deleted_at)))
    for_each (filter (is_stalled now) stalled) (recover_candidate now)
    recover_abandoned_recording_meetings now
    recover_stalled_regenerating_meetings now
