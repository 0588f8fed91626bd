-- ===== src/Meeting/Lifecycle/Status.antt =====
-- What `updateStatus`, `updateProcessingPhase` and `markNeedsAttention` of
-- meeting/application/meeting.service.ts save and announce.
use nangman_note.Base.{
  String, true, Option, none, some, ◌∷◌, ok, ◌≡◌, arith, if◌then◌else◌, or_else,
}
use nangman_note.Meeting.Entity.{
  MeetingStatus, MeetingEntity, MeetingProcessingPhase, is_completed, attention_required,
}
use nangman_note.Meeting.Context.{World, Services, IsLawful, is_meeting}
use nangman_note.Meeting.Lifecycle.{
  status_event, phase_of, update_status, update_processing_phase, mark_needs_attention,
  PhaseOptions,
}

-- The row `m` became `m'`: what no status call touches is as before, and one event carries the new
-- state, with the phase `completed` once a completed meeting is in no phase.
pub record IsAnnounced {S : Type 0} (m m' : MeetingEntity) (w w' : World S) : Type 0 where
  pub id : m'.id ≡ m.id
  pub title : m'.title ≡ m.title
  pub mode : m'.transcription_mode ≡ m.transcription_mode
  pub ended_at : m'.ended_at ≡ m.ended_at
  pub polls : w'.polls ≡ w.polls
  pub announced :
      w'.emitted
      ≡ status_event m' (phase_of m'.processing_phase (is_completed m'.status)) ∷ w.emitted

module _ {S : Type 0} (services : Services S) where
  module _ (id : String) (owner_sub : Option String) (w w' : World S) (m m' : MeetingEntity)
      (lawful : IsLawful services.meetings)
      (found : services.meetings.rows.find_one (is_meeting id owner_sub) w.store
        ≡ ok (some m)) where
    -- Over a lawful repository, for a row that was found: when `updateStatus` returns, it has set
    -- the status, left both flags, and ended the phase of a meeting that it completes; any other
    -- status keeps the phase. One event tells of it.
    pub update_status_ok :
        (status : MeetingStatus)
        → update_status services id status owner_sub w ≡ (ok m', w')
        → (m'.status ≡ status)
          × (m'.processing_phase ≡ (if is_completed status then none else m.processing_phase))
          × (m'.needs_attention ≡ m.needs_attention)
          × (m'.completion_state ≡ m.completion_state)
          × IsAnnounced m m' w w'
    unfolding update_status
    update_status_ok status h = grind (arith, lawful.saved)

    -- `updateProcessingPhase` sets the phase to the given one, null included, and of the options
    -- those that are given.
    pub update_processing_phase_ok :
        (p : Option MeetingProcessingPhase) (options : PhaseOptions)
        → update_processing_phase services id p owner_sub options w ≡ (ok m', w')
        → (m'.processing_phase ≡ p)
          × (m'.status ≡ or_else options.status m.status)
          × (m'.needs_attention ≡ or_else options.needs_attention m.needs_attention)
          × (m'.completion_state ≡ or_else options.completion_state m.completion_state)
          × IsAnnounced m m' w w'
    unfolding update_processing_phase
    update_processing_phase_ok p options h = grind (arith, lawful.saved)

    -- Over a lawful repository, for a row that was found: when `markNeedsAttention` returns, it
    -- has raised the flag, ended the phase and kept the status; the completion state becomes
    -- `attention_required` exactly in a completed meeting. One event tells of it.
    pub mark_needs_attention_ok :
        mark_needs_attention services id owner_sub w ≡ (ok m', w')
        → (m'.needs_attention ≡ true)
          × (m'.processing_phase ≡ none)
          × (m'.status ≡ m.status)
          × (m'.completion_state
              ≡ (if is_completed m.status then some attention_required else m.completion_state))
          × IsAnnounced m m' w w'
    unfolding mark_needs_attention
    mark_needs_attention_ok h = grind (arith, lawful.saved)
