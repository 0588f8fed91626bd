-- ===== src/Transcription/Collector/Quiet.antt =====
-- The events of `updateMeetingStatus` in transcription-result-collector.service.ts: none of them
-- starts another generation.
use nangman_note.Base.{
  String, Bool, true, false, none, some, List, [], ◌∷◌, ◌++◌, All, ◌≡◌, ◌⊎◌, inl, inr, refl, arith,
  row-cases, outcome-cases,
}
use nangman_note.Meeting.Entity.{
  MeetingEntity, completed, MeetingStatusChangedEvent, is_generating, is_completed,
}
use nangman_note.Meeting.Context.{World, Services, IsLawful, is_meeting}
use nangman_note.Meeting.Lifecycle.{
  LifecyclePatch, update_lifecycle_status, apply_patch, phase_of, status_event, status_patch,
  attention_patch, update_status, mark_needs_attention,
}
use nangman_note.Transcription.Collector.Finishing.{update_meeting_status}

module _ {S : Type 0} (services : Services S) where
  -- At most one event was added, and it does not start a generation.
  abbrev IsQuietStep : World S → World S → Type 0
  IsQuietStep w w' =
      (w'.emitted ≡ w.emitted)
      ⊎ ((e : MeetingStatusChangedEvent) × (is_generating e.phase ≡ false)
          × (w'.emitted ≡ e ∷ w.emitted))

  -- A save that ends the phase.
  ended_phase-quiet :
      (m : MeetingEntity) (next : LifecyclePatch) (w : World S)
      → IsLawful services.meetings
      → next.processing_phase ≡ some none
      → IsQuietStep w (update_lifecycle_status services m next w).1
  unfolding update_lifecycle_status apply_patch
  ended_phase-quiet m next w lawful p =
      elim (outcome-cases (services.meetings.rows.save (apply_patch next m) w.store).0) [
        | inl (m', r) ↦ inr (
          status_event m' (phase_of m'.processing_phase (is_completed m'.status)),
          grind (arith, lawful.saved (apply_patch next m) w.store),
          grind (arith, r),
        )
        | inr (e, r) ↦ inl (ground arith)
      ]

  mark-quiet :
      (id : String) (w : World S)
      → IsLawful services.meetings
      → IsQuietStep w (mark_needs_attention services id none w).1
  unfolding mark_needs_attention update_lifecycle_status
  mark-quiet id w lawful =
      elim (row-cases (services.meetings.rows.find_one (is_meeting id none) w.store)) [
        | inl (m, f) ↦ grind (arith, ended_phase-quiet m (attention_patch m.status) w lawful refl)
        | inr n ↦ inl (ground arith)
      ]

  completed-quiet :
      (id : String) (w : World S)
      → IsLawful services.meetings
      → IsQuietStep w (update_status services id completed none w).1
  unfolding update_status update_lifecycle_status
  completed-quiet id w lawful =
      elim (row-cases (services.meetings.rows.find_one (is_meeting id none) w.store)) [
        | inl (m, f) ↦ grind (arith, ended_phase-quiet m (status_patch completed) w lawful refl)
        | inr n ↦ inl (ground arith)
      ]

  marked_then_completed :
      (id : String) (w : World S)
      → (update_meeting_status services id true w).1.emitted
        ≡ (update_status services id completed none
            (mark_needs_attention services id none w).1).1.emitted
  unfolding update_meeting_status
  marked_then_completed id w = ground arith

  only_completed :
      (id : String) (w : World S)
      → (update_meeting_status services id false w).1.emitted
        ≡ (update_status services id completed none w).1.emitted
  unfolding update_meeting_status
  only_completed id w = ground arith

  -- Over a lawful repository: the events of the status update, whatever the rows it finds, are
  -- not of the phase that the handler reacts to, so that handling an event never starts another
  -- generation.
  pub update_meeting_status-quiet :
      (id : String) (needs_attention : Bool) (w : World S)
      → IsLawful services.meetings
      → (es : List MeetingStatusChangedEvent) × ((update_meeting_status services id needs_attention
            w).1.emitted
          ≡ es ++ w.emitted)
        × All (λ e. is_generating e.phase ≡ false) es
  update_meeting_status-quiet id true w lawful = elim (mark-quiet id w lawful) [
    | inl p ↦ elim (completed-quiet id (mark_needs_attention services id none w).1 lawful) [
      | inl q ↦ ([], grind (arith, marked_then_completed id w, p, q), tt)
      | inr (e, g, q) ↦ (e ∷ [], grind (arith, marked_then_completed id w, p, q), (g, tt))
    ]
    | inr (e', g', p) ↦
        elim (completed-quiet id (mark_needs_attention services id none w).1 lawful) [
          | inl q ↦ (e' ∷ [], grind (arith, marked_then_completed id w, p, q), (g', tt))
          | inr (e, g, q) ↦
              (e ∷ (e' ∷ []), grind (arith, marked_then_completed id w, p, q), (g, (g', tt)))
        ]
  ]
  update_meeting_status-quiet id false w lawful = elim (completed-quiet id w lawful) [
    | inl q ↦ ([], grind (arith, only_completed id w, q), tt)
    | inr (e, g, q) ↦ (e ∷ [], grind (arith, only_completed id w, q), (g, tt))
  ]
