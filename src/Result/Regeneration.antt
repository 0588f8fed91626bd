-- ===== src/Result/Regeneration.antt =====
-- result/application/result.service.ts: a result is generated again with another prompt, at once or
-- in the background.
use nangman_note.Base.{
  ℕ, String, Bool, true, false, Option, none, some, List, ◌∷◌, not_found, bad_request, other,
  message, ok, thrown, Outcome, Run, return, throw, or_throw, catch, when, ◌>>=◌, ◌>>◌, ◌-◌, ltb,
  ◌&&◌, if◌then◌else◌, str_eq,
}
use nangman_note.Meeting.Entity.{MeetingEntity, MeetingProcessingPhase, regenerating, completed}
use nangman_note.Meeting.Context.{World, Services, stored, reading}
use nangman_note.Meeting.Lifecycle.{find_by_id, update_processing_phase, PhaseOptions}
use nangman_note.Meeting.Editing.{update_prompt, only_prompt}
use nangman_note.Result.Entity.{ResultEntity}
use nangman_note.Result.Payload.{ResultPayload, generate_result_payload}
use nangman_note.Result.{ResultServices, completion_options, find_by_meeting_id}

pub data RegenerateEvent : Type 0 where
  started completed_event : String → Option String → RegenerateEvent
  failed : String → Option String → String → RegenerateEvent

-- `regenerating_meetings` is the set of this process; `announced` are the events emitted, the latest
-- first.
pub record Studio (S : Type 0) : Type 0 where
  pub world : World S
  pub regenerating_meetings : String → Bool
  pub announced : List RegenerateEvent

abbrev pub regeneration_stale_ms : ℕ
regeneration_stale_ms = 900000

abbrev pub is_regenerating_phase : Option MeetingProcessingPhase → Bool
is_regenerating_phase (some regenerating) = true
is_regenerating_phase p = false

abbrev pub only_completed : PhaseOptions
only_completed = record { needs_attention = none; status = some completed; completion_state = none }

abbrev pub replaced : ResultPayload → ResultEntity → ResultEntity
replaced p r = record r { prompt_id = p.prompt_id; content = p.content; metadata = p.metadata }

module _ {S : Type 0} where
  abbrev pub in_world : {A : Type 0} → Run (World S) A → Run (Studio S) A
  in_world m s = let (r, w) = m s.world in (r, record s { world = w })

  abbrev pub announce : RegenerateEvent → Run (Studio S) (Unit {0})
  announce e s = (ok tt, record s { announced = e ∷ s.announced })

  abbrev pub set_lock : String → Bool → Studio S → Studio S
  set_lock id b s = record s {
    regenerating_meetings = λ k. if str_eq k id then b else s.regenerating_meetings k;
  }

  module _ (services : Services S) (extra : ResultServices S) where
    open services use {ensure_prompt_exists, refresh_by_meeting_id}
    open extra use {results, sources}

    -- `isRegenerating`: the set, and then the phase of the row.
    unfoldable pub is_regenerating : String → Studio S → Bool
    is_regenerating id s =
        if s.regenerating_meetings id then true else elim (find_by_id services id none s.world).0 [
          | ok m ↦ is_regenerating_phase m.processing_phase
          | thrown e ↦ false
        ]

    -- `regenerate`, which waits for the new result.
    unfoldable pub regenerate : String → String → Option String → ℕ → Run (World S) ResultEntity
    regenerate id prompt_id owner_sub now = do
      stored (ensure_prompt_exists prompt_id owner_sub)
      m ← update_prompt services results id (only_prompt prompt_id) owner_sub
      existing ← find_by_meeting_id services extra id owner_sub now
      p ← generate_result_payload services sources id (some prompt_id) owner_sub now
      saved ← stored (results.save (replaced p existing))
      updated ←
          update_processing_phase services id none owner_sub
            (completion_options p.needs_attention p.completion_state)
      stored (refresh_by_meeting_id id)
      return saved

    -- The checks and writes of `regenerateAsync` in its `try`, with the prompt that was set before.
    unfoldable pub prepare : String → String → Option String → ℕ → Run (World S) String
    prepare id prompt_id owner_sub now = do
      m ← find_by_id services id owner_sub
      when
          (is_regenerating_phase m.processing_phase
            && ltb (now - m.updated_at) regeneration_stale_ms)
          (throw (bad_request "is already being regenerated"))
      stored (ensure_prompt_exists prompt_id owner_sub)
      existing ← reading (results.find_one id)
      result ← or_throw existing (not_found "RESULT_NOT_FOUND")
      updated ← update_prompt services results id (only_prompt prompt_id) owner_sub
      phased ← update_processing_phase services id (some regenerating) owner_sub only_completed
      return m.prompt_id

    -- `regenerateAsync` up to the start of its background task, which gets the prompt that was set
    -- before.
    unfoldable pub regenerate_async : String → String → Option String → ℕ → Run (Studio S) String
    unfolding prepare
    regenerate_async id prompt_id owner_sub now s =
        if s.regenerating_meetings id
        then (thrown (bad_request "is already being regenerated"), s)
        else catch
            (do
              original ← in_world (prepare id prompt_id owner_sub now)
              announce (started id owner_sub)
              return original)
            (λ e s2. (thrown e, set_lock id false s2)) (set_lock id true s)

    -- The background task in its `try`.
    unfoldable pub replace_result :
        String → String → Option String → ℕ → Run (World S) MeetingEntity
    replace_result id prompt_id owner_sub now = do
      found ← reading (results.find_one id)
      existing ← or_throw found (other "Result not found for meeting")
      p ← generate_result_payload services sources id (some prompt_id) owner_sub now
      saved ← stored (results.save (replaced p existing))
      stored (refresh_by_meeting_id id)
      update_processing_phase services id none owner_sub
          (completion_options p.needs_attention p.completion_state)

    -- `try { await call } catch { log }`.
    abbrev pub tolerate : {A : Type 0} → Run (World S) A → World S → World S
    tolerate call w = (call w).1

    -- The prompt is set back and the phase cleared, each whether or not the other succeeds.
    unfoldable pub undo : String → String → Option String → World S → World S
    undo id original owner_sub w =
        tolerate (update_processing_phase services id none owner_sub only_completed)
          (tolerate (update_prompt services results id (only_prompt original) owner_sub) w)

    unfoldable pub conclude :
        Outcome MeetingEntity → String → String → Option String → Studio S → Studio S
    unfolding undo
    conclude (ok m) id original owner_sub s = record s {
      announced = completed_event id owner_sub ∷ s.announced;
    }
    conclude (thrown e) id original owner_sub s = record s {
      world = undo id original owner_sub s.world;
      announced = failed id owner_sub (message e) ∷ s.announced;
    }

    -- `executeRegenerateInBackground`.
    unfoldable pub execute_regenerate :
        String → String → String → Option String → ℕ → Studio S → Studio S
    unfolding replace_result conclude
    execute_regenerate id prompt_id original owner_sub now s =
        let (r, w) = replace_result id prompt_id owner_sub now s.world in
        set_lock id false (conclude r id original owner_sub (record s { world = w }))
