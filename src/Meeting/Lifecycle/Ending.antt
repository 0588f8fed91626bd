-- ===== src/Meeting/Lifecycle/Ending.antt =====
-- What `MeetingService.complete` does, on every way through it.
use nangman_note.Base.{
  ℕ, String, false, Option, none, some, ◌∷◌, ok, thrown, Failure, ◌≡◌, ◌≢◌, ◌⊎◌, if◌then◌else◌,
  ◌&&◌, ◌||◌, not, inl, inr, arith, row-cases,
}
use nangman_note.Meeting.Entity.{
  is_batch, processing, completed, uploading, generating, batch, MeetingEntity,
}
use nangman_note.Meeting.Context.{World, Services, IsLawful, is_meeting, is_meeting-live}
use nangman_note.Meeting.Lifecycle.{
  CompleteOptions, status_event, find_by_id, complete, phase_of, complete_batch,
  complete_generating,
}

-- The meeting `m`, which was open, was ended at `now` as `m'`: it is processed from here on, and
-- one event tells of the phase that it is in. A batch meeting whose transcription is not skipped
-- is the one that may still wait for uploads, and its attention flag is reset.
pub record IsEnded {S : Type 0} (options : CompleteOptions) (m m' : MeetingEntity) (now : ℕ)
    (w w' : World S) : Type 0 where
  pub was_open : m.status ≢ completed
  pub status : m'.status ≡ processing
  pub ended_at : m'.ended_at ≡ some now
  pub completion_state : m'.completion_state ≡ none
  pub waits : (m'.processing_phase ≡ some uploading) ⊎ (m'.processing_phase ≡ some generating)
  pub uploads_later :
      m'.processing_phase ≡ some uploading
      → (m.transcription_mode ≡ batch) × (options.skip_transcription ≡ false)
  pub attention : m'.needs_attention ≡ (
      if is_batch m.transcription_mode && not options.skip_transcription
      then false
      else (m.needs_attention || options.mark_attention_required))
  pub announced : w'.emitted ≡ status_event m' (phase_of m'.processing_phase false) ∷ w.emitted

module _ {S : Type 0} (services : Services S) where
  -- When `complete` throws, no status event has gone out.
  pub complete-emitted_of_thrown :
      (id : String) (options : CompleteOptions) (owner_sub : Option String) (now : ℕ) (w : World S)
      {e : Failure}
      → (complete services id options owner_sub now w).0 ≡ thrown e
      → (complete services id options owner_sub now w).1.emitted ≡ w.emitted
  unfolding complete
  complete-emitted_of_thrown id options owner_sub now w h = ground arith

  -- Completing a meeting that is completed returns it and changes nothing at all.
  pub complete_of_completed :
      (id : String) (options : CompleteOptions) (owner_sub : Option String) (now : ℕ) (w : World S)
      {m : MeetingEntity}
      → services.meetings.rows.find_one (is_meeting id owner_sub) w.store ≡ ok (some m)
      → m.status ≡ completed
      → complete services id options owner_sub now w ≡ (ok m, w)
  unfolding complete
  complete_of_completed id options owner_sub now w h c = ground arith

  complete_batch-IsEnded :
      (options : CompleteOptions) (now : ℕ) (w w' : World S) (m m' : MeetingEntity)
      → IsLawful services.meetings
      → m.status ≢ completed
      → m.transcription_mode ≡ batch
      → options.skip_transcription ≡ false
      → complete_batch services m now w ≡ (ok m', w')
      → IsEnded options m m' now w w'
  unfolding complete_batch
  complete_batch-IsEnded options now w w' m m' lawful o b k h = grind (arith, lawful.saved)

  complete_generating-IsEnded :
      (options : CompleteOptions) (now : ℕ) (w w' : World S) (m m' : MeetingEntity)
      → IsLawful services.meetings
      → m.status ≢ completed
      → (is_batch m.transcription_mode && not options.skip_transcription) ≡ false
      → complete_generating services m options.mark_attention_required now w ≡ (ok m', w')
      → IsEnded options m m' now w w'
  unfolding complete_generating
  complete_generating-IsEnded options now w w' m m' lawful o b h = grind (arith, lawful.saved)

  -- Over a lawful repository: when `complete` returns, the meeting was found, and either it was
  -- completed already, and nothing has changed, or it was open and has been ended, with one
  -- event that tells of it.
  pub complete-IsEnded :
      (id : String) (options : CompleteOptions) (owner_sub : Option String) (now : ℕ)
      (w w' : World S) (m' : MeetingEntity)
      → IsLawful services.meetings
      → complete services id options owner_sub now w ≡ (ok m', w')
      → (m : MeetingEntity) × (services.meetings.rows.find_one (is_meeting id owner_sub) w.store
          ≡ ok (some m))
        × (((m.status ≡ completed) × (m' ≡ m) × (w' ≡ w)) ⊎ IsEnded options m m' now w w')
  unfolding complete
  complete-IsEnded id options owner_sub now w w' m' lawful h =
      elim (row-cases (services.meetings.rows.find_one (is_meeting id owner_sub) w.store)) [
        | inl (m, e) ↦ (m, e, ended m e)
        | inr n ↦ absurd (ground arith)
      ]
    where
      ended :
          (m : MeetingEntity)
          → services.meetings.rows.find_one (is_meeting id owner_sub) w.store ≡ ok (some m)
          → ((m.status ≡ completed) × (m' ≡ m) × (w' ≡ w)) ⊎ IsEnded options m m' now w w'
      ended m e = ground (
        arith,
        complete_batch-IsEnded options now w w' m m' lawful,
        complete_generating-IsEnded options now w w' m m' lawful,
      )

  save-found :
      (m m' : MeetingEntity) (s : S)
      → IsLawful services.meetings
      → m.deleted_at ≡ none
      → (services.meetings.rows.save m s).0 ≡ ok m'
      → services.meetings.rows.find_one (is_meeting m'.id none) (services.meetings.rows.save m s).1
        ≡ ok (some m')
  save-found m m' s lawful d h = grind (arith, lawful.saved m s, lawful.kept m s)

  -- Over a lawful repository, a meeting in processing that `complete` returns is what the next
  -- reader of that meeting finds.
  pub complete-found :
      (id : String) (options : CompleteOptions) (owner_sub : Option String) (now : ℕ)
      (w w' : World S) (m' : MeetingEntity)
      → IsLawful services.meetings
      → complete services id options owner_sub now w ≡ (ok m', w')
      → m'.status ≡ processing
      → find_by_id services m'.id none w' ≡ (ok m', w')
  unfolding complete find_by_id
  complete-found id options owner_sub now w w' m' lawful h p =
      elim (row-cases (services.meetings.rows.find_one (is_meeting id owner_sub) w.store)) [
        | inl (m, e) ↦ grind (
          arith,
          is_meeting-live id owner_sub m (lawful.found id owner_sub w.store m e),
          save-found,
        )
        | inr n ↦ absurd (ground arith)
      ]
