-- ===== src/Meeting/Lifecycle/Rows.antt =====
-- A row that the status calls of meeting.service.ts have saved is the one that is found next, when
-- the repository is up.
use nangman_note.Base.{String, true, Option, none, some, ok, ◌≡◌, arith, eq_iff}
use nangman_note.Meeting.Entity.{MeetingEntity, MeetingProcessingPhase, completed}
use nangman_note.Meeting.Context.{
  World, Services, IsLawful, is_meeting, is_meeting-live, is_meeting_row,
}
use nangman_note.Meeting.Lifecycle.{
  LifecyclePatch, apply_patch, status_patch, attention_patch, no_phase_options, update_status,
  update_processing_phase, mark_needs_attention,
}

abbrev phase_patch : MeetingProcessingPhase → LifecyclePatch
phase_patch p = record {
  status = none;
  processing_phase = some (some p);
  needs_attention = none;
  completion_state = none;
  ended_at = none;
}

-- What the repository of meetings keeps when it is up: `save` succeeds.
abbrev pub IsUp : {S : Type 0} → Services S → Type 0
IsUp {S} services =
    (m : MeetingEntity) (s : S)
    → (m' : MeetingEntity) × ((services.meetings.rows.save m s).0 ≡ ok m')

-- The meeting `m` is the row of `id` that a reader finds.
abbrev pub IsRow : {S : Type 0} → Services S → String → World S → MeetingEntity → Type 0
IsRow services id w m = services.meetings.rows.find_one (is_meeting id none) w.store ≡ ok (some m)

pub is_meeting-id :
    (id : String) (owner_sub : Option String) (m : MeetingEntity)
    → is_meeting id owner_sub m ≡ true
    → m.id ≡ id
unfolding is_meeting is_meeting_row
is_meeting-id id owner_sub m h = grind (arith, eq_iff m.id id)

module _ {S : Type 0} (services : Services S) (lawful : IsLawful services.meetings)
    (up : IsUp services) where
  -- A row that is saved under its id is found again, as it was saved.
  pub saved_row :
      (id : String) (s : S) (m : MeetingEntity)
      → m.id ≡ id
      → m.deleted_at ≡ none
      → (m' : MeetingEntity) × ((services.meetings.rows.save m s).0 ≡ ok m')
        × (m' ≡ record m { updated_at = m'.updated_at })
        × (services.meetings.rows.find_one (is_meeting id none) (services.meetings.rows.save m s).1
            ≡ ok (some m'))
  saved_row id s m e d = (
    (up m s).0,
    (up m s).1,
    grind (arith, (up m s).1, lawful.saved m s),
    grind (arith, (up m s).1, lawful.kept m s d),
  )

  pub row-id : (id : String) (w : World S) (m : MeetingEntity) → IsRow services id w m → m.id ≡ id
  row-id id w m f = is_meeting-id id none m (lawful.found id none w.store m f)

  pub row-live :
      (id : String) (w : World S) (m : MeetingEntity) → IsRow services id w m → m.deleted_at ≡ none
  row-live id w m f = is_meeting-live id none m (lawful.found id none w.store m f)

  pub mark-IsRow :
      (id : String) (w : World S) (m : MeetingEntity)
      → IsRow services id w m
      → (m' : MeetingEntity) × ((mark_needs_attention services id none w).0 ≡ ok m')
        × (m'.needs_attention ≡ true)
        × (m'.status ≡ m.status)
        × IsRow services id (mark_needs_attention services id none w).1 m'
  unfolding mark_needs_attention apply_patch
  mark-IsRow id w m f =
      let (m', r, q, k) =
        saved_row id w.store (apply_patch (attention_patch m.status) m) (row-id id w m f)
          (row-live id w m f) in
      (
        m',
        grind (arith, r, q, k),
        grind (arith, r, q, k),
        grind (arith, r, q, k),
        grind (arith, r, q, k),
      )

  pub complete-IsRow :
      (id : String) (w : World S) (m : MeetingEntity)
      → IsRow services id w m
      → (m' : MeetingEntity) × ((update_status services id completed none w).0 ≡ ok m')
        × (m'.status ≡ completed)
        × (m'.processing_phase ≡ none)
        × (m'.needs_attention ≡ m.needs_attention)
        × IsRow services id (update_status services id completed none w).1 m'
  unfolding update_status apply_patch
  complete-IsRow id w m f =
      let (m', r, q, k) =
        saved_row id w.store (apply_patch (status_patch completed) m) (row-id id w m f)
          (row-live id w m f) in
      (
        m',
        grind (arith, r, q, k),
        grind (arith, r, q, k),
        grind (arith, r, q, k),
        grind (arith, r, q, k),
        grind (arith, r, q, k),
      )

  pub phase-IsRow :
      (id : String) (p : MeetingProcessingPhase) (w : World S) (m : MeetingEntity)
      → IsRow services id w m
      → (m' : MeetingEntity) × ((update_processing_phase services id
            (some p)
            none
            no_phase_options
            w).0
          ≡ ok m')
        × (m'.processing_phase ≡ some p)
        × (m'.status ≡ m.status)
        × (m'.needs_attention ≡ m.needs_attention)
        × IsRow services id
            (update_processing_phase services id (some p) none no_phase_options w).1
            m'
  unfolding update_processing_phase apply_patch
  phase-IsRow id p w m f =
      let (m', r, q, k) =
        saved_row id w.store (apply_patch (phase_patch p) m) (row-id id w m f)
          (row-live id w m f) in
      (
        m',
        grind (arith, r, q, k),
        grind (arith, r, q, k),
        grind (arith, r, q, k),
        grind (arith, r, q, k),
        grind (arith, r, q, k),
      )
