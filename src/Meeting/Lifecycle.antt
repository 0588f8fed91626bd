-- ===== src/Meeting/Lifecycle.antt =====
-- meeting/application/meeting.service.ts: the operations that move a meeting through its states.
-- The clock is an argument, `now`; log lines are left out.
pub mod Ending
pub mod Status
pub mod Rows
use nangman_note.Base.{
  ℕ, String, Bool, true, false, Option, none, some, not_found, Run, return, or_throw, ◌>>=◌, ◌>>◌,
  or_else, if◌then◌else◌, ltb, ◌==◌, not, ◌&&◌, ◌||◌,
}
use nangman_note.Meeting.Entity.{
  MeetingStatus, processing, MeetingProcessingPhase, uploading, generating, MeetingCompletionState,
  attention_required, MeetingEntity, MeetingStatusPhase, phase, MeetingStatusChangedEvent,
  is_completed, is_batch,
}
use nangman_note.Meeting.Context.{World, Services, stored, reading, emit, is_meeting}
use nangman_note.Transcription.Entity.{unsettled_transcription_job, pending_upload, job_of_meeting}

-- The `next` argument of `updateLifecycle`: an absent field is `none`, and null is `some none`.
pub record LifecyclePatch : Type 0 where
  pub status : Option MeetingStatus
  pub processing_phase : Option (Option MeetingProcessingPhase)
  pub needs_attention : Option Bool
  pub completion_state : Option (Option MeetingCompletionState)
  pub ended_at : Option ℕ

-- The assignments to the entity.
unfoldable pub apply_patch : LifecyclePatch → MeetingEntity → MeetingEntity
apply_patch next m = record m {
  status = or_else next.status m.status;
  processing_phase = or_else next.processing_phase m.processing_phase;
  needs_attention = or_else next.needs_attention m.needs_attention;
  completion_state = or_else next.completion_state m.completion_state;
  ended_at = elim next.ended_at [ none ↦ m.ended_at | some t ↦ some t ];
}

abbrev pub status_event : MeetingEntity → Option MeetingStatusPhase → MeetingStatusChangedEvent
status_event m p = record {
  meeting_id = m.id;
  status = m.status;
  phase = p;
  owner_sub = m.owner_sub;
  needs_attention = m.needs_attention;
  completion_state = m.completion_state;
}

-- `updated.processingPhase ?? (updated.status === COMPLETED ? 'completed' : undefined)`.
abbrev pub phase_of : Option MeetingProcessingPhase → Bool → Option MeetingStatusPhase
phase_of (some p) done = some (phase p)
phase_of none true = some MeetingStatusPhase.completed
phase_of none false = none

pub record CompleteOptions : Type 0 where
  pub skip_transcription : Bool
  pub mark_attention_required : Bool

pub record PhaseOptions : Type 0 where
  pub needs_attention : Option Bool
  pub status : Option MeetingStatus
  pub completion_state : Option (Option MeetingCompletionState)

abbrev pub no_phase_options : PhaseOptions
no_phase_options = record { needs_attention = none; status = none; completion_state = none }

-- The patches that `complete` saves on its two ways.
abbrev awaiting_upload : Bool → ℕ → LifecyclePatch
awaiting_upload settled now = record {
  status = some processing;
  processing_phase = some (some (if settled then generating else uploading));
  needs_attention = some false;
  completion_state = some none;
  ended_at = some now;
}

abbrev awaiting_generation : Bool → ℕ → LifecyclePatch
awaiting_generation attention now = record {
  status = some processing;
  processing_phase = some (some generating);
  needs_attention = some attention;
  completion_state = some none;
  ended_at = some now;
}

-- The patches of `updateStatus` and `markNeedsAttention`.
abbrev pub status_patch : MeetingStatus → LifecyclePatch
status_patch status = record {
  status = some status;
  processing_phase = if is_completed status then some none else none;
  needs_attention = none;
  completion_state = none;
  ended_at = none;
}

abbrev pub attention_patch : MeetingStatus → LifecyclePatch
attention_patch status = record {
  status = none;
  processing_phase = some none;
  needs_attention = some true;
  completion_state = if is_completed status then some (some attention_required) else none;
  ended_at = none;
}

module _ {S : Type 0} (services : Services S) where
  open services use {meetings, jobs, uploads}

  unfoldable pub find_by_id : String → Option String → Run (World S) MeetingEntity
  find_by_id id owner_sub = do
    found ← reading (meetings.rows.find_one (is_meeting id owner_sub))
    or_throw found (not_found "MEETING_NOT_FOUND")

  unfoldable pub update_lifecycle : MeetingEntity → LifecyclePatch → Run (World S) MeetingEntity
  unfolding apply_patch
  update_lifecycle m next = stored (meetings.rows.save (apply_patch next m))

  unfoldable pub update_lifecycle_status :
      MeetingEntity → LifecyclePatch → Run (World S) MeetingEntity
  unfolding update_lifecycle
  update_lifecycle_status m next = do
    updated ← update_lifecycle m next
    emit (status_event updated (phase_of updated.processing_phase (is_completed updated.status)))
    return updated

  -- The three counts are awaited together by `Promise.all`.
  unfoldable pub is_batch_transcription_settled : String → Run (World S) Bool
  is_batch_transcription_settled id = do
    job_count ← reading (jobs.count (job_of_meeting id))
    unsettled_job_count ← reading (jobs.count (unsettled_transcription_job id))
    pending_upload_count ← reading (uploads.count (pending_upload id))
    return (ltb 0 job_count && (unsettled_job_count == 0 && pending_upload_count == 0))

  complete_batch : MeetingEntity → ℕ → Run (World S) MeetingEntity
  unfolding is_batch_transcription_settled update_lifecycle
  complete_batch m now = do
    settled ← is_batch_transcription_settled m.id
    updated ← update_lifecycle m (awaiting_upload settled now)
    emit (status_event updated (some (phase (if settled then generating else uploading))))
    return updated

  complete_generating : MeetingEntity → Bool → ℕ → Run (World S) MeetingEntity
  unfolding update_lifecycle
  complete_generating m attention now = do
    updated ← update_lifecycle m (awaiting_generation (m.needs_attention || attention) now)
    emit (status_event updated (some (phase generating)))
    return updated

  unfoldable pub complete :
      String → CompleteOptions → Option String → ℕ → Run (World S) MeetingEntity
  unfolding find_by_id complete_batch complete_generating
  complete id options owner_sub now = do
    m ← find_by_id id owner_sub
    if is_completed m.status
        then return m
        else (if is_batch m.transcription_mode && not options.skip_transcription
            then complete_batch m now
            else complete_generating m options.mark_attention_required now)

  unfoldable pub update_status :
      String → MeetingStatus → Option String → Run (World S) MeetingEntity
  unfolding find_by_id update_lifecycle_status
  update_status id status owner_sub = do
    m ← find_by_id id owner_sub
    update_lifecycle_status m (status_patch status)

  unfoldable pub update_processing_phase :
      String
      → Option MeetingProcessingPhase
      → Option String
      → PhaseOptions
      → Run (World S) MeetingEntity
  unfolding find_by_id update_lifecycle_status
  update_processing_phase id p owner_sub options = do
    m ← find_by_id id owner_sub
    update_lifecycle_status m (record {
      status = options.status;
      processing_phase = some p;
      needs_attention = options.needs_attention;
      completion_state = options.completion_state;
      ended_at = none;
    })

  unfoldable pub mark_needs_attention : String → Option String → Run (World S) MeetingEntity
  unfolding find_by_id update_lifecycle_status
  mark_needs_attention id owner_sub = do
    m ← find_by_id id owner_sub
    update_lifecycle_status m (attention_patch m.status)
