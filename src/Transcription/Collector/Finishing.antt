-- ===== src/Transcription/Collector/Finishing.antt =====
-- What follows on the event that a meeting is to get its result: `handleGeneratingPhase`,
-- `updateMeetingStatus` and `triggerResultGeneration` of transcription-result-collector.service.ts.
use nangman_note.Base.{
  String, Bool, true, false, none, some, ok, Run, return, catch, when, ◌>>◌, ◌≡◌, arith, ◌||◌, not,
  inl, inr, outcome-cases, is_ok,
}
use nangman_note.Meeting.Entity.{
  MeetingEntity, completed, generating, MeetingStatusChangedEvent, phase, is_generating,
}
use nangman_note.Meeting.Context.{World, Services, IsLawful}
use nangman_note.Meeting.Lifecycle.{find_by_id, update_status, mark_needs_attention}
use nangman_note.Meeting.Lifecycle.Rows.{IsUp, IsRow, mark-IsRow, complete-IsRow}
use nangman_note.Transcription.Collector.{Collaborators}

module _ {S : Type 0} (services : Services S) where
  -- `Promise<void>` with its own `try` around either call.
  unfoldable pub update_meeting_status : String → Bool → Run (World S) (Unit {0})
  update_meeting_status meeting_id needs_attention =
      when needs_attention
        (catch (mark_needs_attention services meeting_id none >> return tt) (λ e. return tt))
      >> catch (update_status services meeting_id completed none >> return tt) (λ e. return tt)

module _ {S : Type 0} (host : Collaborators S) where
  open host use {services}

  unfoldable pub handle_generating_phase : MeetingStatusChangedEvent → Run (World S) (Unit {0})
  unfolding update_meeting_status
  handle_generating_phase event = when (is_generating event.phase) (
      catch
        (host.generate_for_pipeline event.meeting_id
          >> update_meeting_status services event.meeting_id event.needs_attention)
        (λ e. update_meeting_status services event.meeting_id true))

module _ {S : Type 0} (services : Services S) (lawful : IsLawful services.meetings)
    (up : IsUp services) where
  -- Whatever the flag, the row ends up completed; with the flag set, it asks for attention.
  update_meeting_status-IsRow :
      (id : String) (needs_attention : Bool) (w : World S) (m : MeetingEntity)
      → IsRow services id w m
      → (m' : MeetingEntity) × (m'.status ≡ completed)
        × (m'.processing_phase ≡ none)
        × (m'.needs_attention ≡ (needs_attention || m.needs_attention))
        × IsRow services id (update_meeting_status services id needs_attention w).1 m'
  unfolding update_meeting_status
  update_meeting_status-IsRow id true w m f =
      let (m1, r, n, st, g) = mark-IsRow services lawful up id w m f in
      let (m2, r', c, p, k, h) =
        complete-IsRow services lawful up id (mark_needs_attention services id none w).1 m1 g in
      (m2, c, p, grind (arith, k, n), grind (arith, r, h))
  update_meeting_status-IsRow id false w m f =
      let (m2, r', c, p, k, h) = complete-IsRow services lawful up id w m f in
      (m2, c, p, k, grind (arith, h))

module _ {S : Type 0} (host : Collaborators S) where
  open host use {services}

  -- The handler of the event never throws, whatever fails behind it.
  pub handle_generating_phase-ok :
      (event : MeetingStatusChangedEvent) (w : World S)
      → (handle_generating_phase host event w).0 ≡ ok tt
  unfolding handle_generating_phase update_meeting_status
  handle_generating_phase-ok event w = ground arith

  -- Over a lawful repository that is up: a meeting that was sent to generation, and whose row is
  -- there once the generation is over, ends up completed and in no phase, whether its result was
  -- generated or not; and it asks for attention when the event did, when the generation failed,
  -- or when it did before.
  pub handle_generating_phase_completes :
      (event : MeetingStatusChangedEvent) (w : World S) (m : MeetingEntity)
      → IsLawful services.meetings
      → IsUp services
      → event.phase ≡ some (phase generating)
      → IsRow services event.meeting_id (host.generate_for_pipeline event.meeting_id w).1 m
      → (m' : MeetingEntity) × (find_by_id services event.meeting_id none
            (handle_generating_phase host event w).1
          ≡ (ok m', (handle_generating_phase host event w).1))
        × (m'.status ≡ completed)
        × (m'.processing_phase ≡ none)
        × (m'.needs_attention ≡ (
            (not (is_ok (host.generate_for_pipeline event.meeting_id w).0) || event.needs_attention)
            || m.needs_attention))
  unfolding handle_generating_phase find_by_id
  handle_generating_phase_completes event w m lawful up p f =
      elim (outcome-cases (host.generate_for_pipeline event.meeting_id w).0) [
        | inl (u, g) ↦
            let (m', c, q, n, r) =
              update_meeting_status-IsRow services lawful up event.meeting_id event.needs_attention
                (host.generate_for_pipeline event.meeting_id w).1 m f in
            (m', ground arith, c, q, ground arith)
        | inr (e, g) ↦
            let (m', c, q, n, r) =
              update_meeting_status-IsRow services lawful up event.meeting_id true
                (host.generate_for_pipeline event.meeting_id w).1 m f in
            (m', ground arith, c, q, ground arith)
      ]
