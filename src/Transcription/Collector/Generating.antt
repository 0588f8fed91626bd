-- ===== src/Transcription/Collector/Generating.antt =====
-- When the collector starts the generation of a meeting's result:
-- `emitGeneratingPhaseIfAllJobsSettled` and `retriggerGenerationIfStuck`.
use nangman_note.Base.{
  ℕ, String, true, Option, some, List, ◌∷◌, ok, filter, ◌≡◌, ◌⊎◌, inl, inr, arith, row-cases,
  outcome-cases,
}
use nangman_note.Meeting.Entity.{MeetingEntity, processing, generating, phase}
use nangman_note.Meeting.Context.{World, IsLawful, is_meeting}
use nangman_note.Meeting.Lifecycle.{status_event, find_by_id, update_processing_phase}
use nangman_note.Transcription.Entity.{
  TranscriptionUploadEntity, unsettled_transcription_job, pending_upload,
}
use nangman_note.Transcription.Collector.{
  Collaborators, is_recent_pending, no_items, emit_generating_phase,
  emit_generating_phase_if_all_jobs_settled, retrigger_generation_if_stuck,
}

module _ {S : Type 0} (host : Collaborators S) where
  open host use {services}

  -- What has to hold for a meeting to be sent to generation: it is in processing, none of its jobs
  -- is unsettled, and each of its uploads that is not a job yet is too old to become one.
  pub record IsReady (meeting_id : String) (owner_sub : Option String) (now : ℕ) (w : World S)
      : Type 0 where
    pub meeting : MeetingEntity
    pub found :
        services.meetings.rows.find_one (is_meeting meeting_id owner_sub) w.store
        ≡ ok (some meeting)
    pub open_meeting : meeting.status ≡ processing
    pub all_settled : services.jobs.count (unsettled_transcription_job meeting_id) w.store ≡ ok 0
    pub uploads : List TranscriptionUploadEntity
    pub pending : services.uploads.find (pending_upload meeting_id) w.store ≡ ok uploads
    pub all_old : no_items (filter (is_recent_pending now) uploads) ≡ true

  -- Either nothing has changed, or the meeting was ready for generation: it is in processing,
  -- none of its jobs is unsettled, and no upload that may still become a job is recent.
  pub generating_only_when_ready :
      (meeting_id : String) (owner_sub : Option String) (now : ℕ) (w : World S)
      → ((emit_generating_phase_if_all_jobs_settled host meeting_id owner_sub now w).1 ≡ w)
        ⊎ IsReady meeting_id owner_sub now w
  unfolding emit_generating_phase_if_all_jobs_settled emit_generating_phase find_by_id
  generating_only_when_ready meeting_id owner_sub now w =
      elim (row-cases (services.meetings.rows.find_one (is_meeting meeting_id owner_sub) w.store)) [
        | inl (m, f) ↦
            elim (outcome-cases (services.uploads.find (pending_upload meeting_id) w.store)) [
              | inl (u, g) ↦ decided m f u g
              | inr (e, g) ↦ inl (ground arith)
            ]
        | inr n ↦ inl (ground arith)
      ]
    where
      decided :
          (m : MeetingEntity)
          → services.meetings.rows.find_one (is_meeting meeting_id owner_sub) w.store ≡ ok (some m)
          → (u : List TranscriptionUploadEntity)
          → services.uploads.find (pending_upload meeting_id) w.store ≡ ok u
          → ((emit_generating_phase_if_all_jobs_settled host meeting_id owner_sub now w).1 ≡ w)
            ⊎ IsReady meeting_id owner_sub now w
      decided m f u g = ground arith

  -- Over a lawful repository: when the call returns for a meeting that is ready, its generation
  -- was started by exactly one event, for a meeting in processing and in the generating phase.
  pub ready-generates :
      (meeting_id : String) (owner_sub : Option String) (now : ℕ) (w w' : World S)
      → IsLawful services.meetings
      → (ready : IsReady meeting_id owner_sub now w)
      → emit_generating_phase_if_all_jobs_settled host meeting_id owner_sub now w ≡ (ok tt, w')
      → (m : MeetingEntity) × (m.status ≡ processing)
        × (m.processing_phase ≡ some generating)
        × (w'.emitted ≡ status_event m (some (phase generating)) ∷ w.emitted)
  unfolding emit_generating_phase_if_all_jobs_settled emit_generating_phase find_by_id
      update_processing_phase
  ready-generates meeting_id owner_sub now w w' lawful ready h = grind (arith, lawful.saved)

  -- The repair of a stuck meeting never throws.
  pub retrigger-ok :
      (meeting_id : String) (owner_sub : Option String) (now : ℕ) (w : World S)
      → (retrigger_generation_if_stuck host meeting_id owner_sub now w).0 ≡ ok tt
  unfolding retrigger_generation_if_stuck
  retrigger-ok meeting_id owner_sub now w = ground arith
