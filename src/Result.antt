-- ===== src/Result.antt =====
-- result/application/result.service.ts: the document that is generated for a meeting. What the model
-- writes is a parameter, `write_content` (`generateContentWithAI`); the clock is an argument, `now`.
pub mod Entity
pub mod Payload
pub mod Regeneration
pub mod Outcomes
use nangman_note.Base.{
  ℕ, String, Bool, true, false, Option, none, some, List, Failure, not_found, ok, Outcome, Run,
  return, throw, or_throw, catch, ◌>>=◌, ◌>>◌, if◌then◌else◌, str_eq, utf16_length,
}
use nangman_note.Meeting.Entity.{MeetingEntity, MeetingCompletionState, completed, is_completed}
use nangman_note.Meeting.Context.{World, Services, stored, reading}
use nangman_note.Meeting.Lifecycle.{find_by_id, update_processing_phase, PhaseOptions}
use nangman_note.Result.Entity.{ResultEntity, ResultRepository}
use nangman_note.Result.Payload.{ResultPayload, Sources, generate_result_payload}

-- `isUniqueConstraintError` looks into the driver's error, so it is a parameter here.
pub record ResultServices (S : Type 0) : Type 1 where
  pub results : ResultRepository S
  pub sources : Sources S
  pub is_unique_constraint_error : Failure → Bool

-- The phase is cleared and the meeting is completed, with what the payload says of its state.
abbrev pub completion_options : Bool → MeetingCompletionState → PhaseOptions
completion_options attention state = record {
  needs_attention = some attention;
  status = some completed;
  completion_state = some (some state);
}

module _ {S : Type 0} (services : Services S) (extra : ResultServices S) where
  open services use {refresh_by_meeting_id}
  open extra use {results, sources, is_unique_constraint_error}

  unfoldable pub save_generated :
      String → Option String → ResultPayload → Run (World S) ResultEntity
  save_generated meeting_id owner_sub p = do
    saved ← stored (results.insert meeting_id p.prompt_id p.content p.metadata)
    updated ←
        update_processing_phase services meeting_id none owner_sub
          (completion_options p.needs_attention p.completion_state)
    stored (refresh_by_meeting_id meeting_id)
    return saved

  unfoldable pub fall_back : String → Failure → Option ResultEntity → Run (World S) ResultEntity
  fall_back meeting_id e none = throw e
  fall_back meeting_id e (some r) = do stored (refresh_by_meeting_id meeting_id); return r

  -- A result that was saved by someone else in the meantime is returned.
  unfoldable pub save_failed : String → Failure → Run (World S) ResultEntity
  unfolding fall_back
  save_failed meeting_id e =
      if is_unique_constraint_error e
      then (reading (results.find_one meeting_id) >>= fall_back meeting_id e)
      else throw e

  unfoldable pub generate_unless :
      Option ResultEntity → String → Option String → ℕ → Run (World S) ResultEntity
  unfolding save_generated save_failed
  generate_unless (some r) meeting_id owner_sub now = return r
  generate_unless none meeting_id owner_sub now = do
    payload ← generate_result_payload services sources meeting_id none owner_sub now
    catch (save_generated meeting_id owner_sub payload) (save_failed meeting_id)

  unfoldable pub generate_and_save : String → Option String → ℕ → Run (World S) ResultEntity
  unfolding generate_unless
  generate_and_save meeting_id owner_sub now = do
    existing ← reading (results.find_one meeting_id)
    generate_unless existing meeting_id owner_sub now

  unfoldable pub found_or_generated :
      MeetingEntity → Option ResultEntity → String → Option String → ℕ → Run (World S) ResultEntity
  unfolding generate_and_save
  found_or_generated m (some r) meeting_id owner_sub now = return r
  found_or_generated m none meeting_id owner_sub now =
      if is_completed m.status
      then generate_and_save meeting_id owner_sub now
      else throw (not_found "RESULT_NOT_READY")

  -- `findByMeetingId`, when no other call generates the meeting's result at the same time.
  unfoldable pub find_by_meeting_id : String → Option String → ℕ → Run (World S) ResultEntity
  unfolding found_or_generated
  find_by_meeting_id meeting_id owner_sub now = do
    m ← find_by_id services meeting_id owner_sub
    existing ← reading (results.find_one meeting_id)
    found_or_generated m existing meeting_id owner_sub now

  unfoldable pub generate_for_pipeline : String → ℕ → Run (World S) ResultEntity
  unfolding generate_unless generate_and_save
  generate_for_pipeline meeting_id now = do
    m ← find_by_id services meeting_id none
    existing ← reading (results.find_one meeting_id)
    pipeline existing meeting_id now
    where
      pipeline : Option ResultEntity → String → ℕ → Run (World S) ResultEntity
      pipeline (some r) meeting_id now = return r
      pipeline none meeting_id now = generate_and_save meeting_id none now

  unfoldable pub update : String → String → Option String → ℕ → Run (World S) ResultEntity
  update meeting_id content owner_sub now = do
    existing ← find_by_meeting_id meeting_id owner_sub now
    saved ← stored (
        results.save (record existing {
          content = content;
          metadata = record existing.metadata { note_length = utf16_length content };
        }))
    stored (refresh_by_meeting_id meeting_id)
    return saved
