-- ===== src/Meeting/Editing.antt =====
-- meeting/application/meeting.service.ts: the edits of a meeting's title, prompt and mode.
use nangman_note.Base.{
  String, Bool, true, false, Option, none, some, bad_request, Run, return, throw, when, ◌>>=◌, ◌>>◌,
  or_else, trim, truthy, is_some, not, ◌||◌, if◌then◌else◌, str_eq,
}
use nangman_note.Meeting.Entity.{MeetingEntity, MeetingTranscriptionMode}
use nangman_note.Meeting.Context.{World, Services, stored, reading}
use nangman_note.Meeting.Lifecycle.{find_by_id}
use nangman_note.Result.Entity.{ResultEntity, ResultRepository}

pub record UpdateMeetingDto : Type 0 where
  pub title : Option String
  pub prompt_id : Option String
  pub transcription_mode : Option MeetingTranscriptionMode

abbrev pub only_prompt : String → UpdateMeetingDto
only_prompt prompt_id = record {
  title = none;
  prompt_id = some prompt_id;
  transcription_mode = none;
}

-- The assignments to the entity; a title of white space only is ignored.
abbrev edited_title : Option String → Option String → Option String
edited_title none old = old
edited_title (some title) old = if truthy (trim title) then some (trim title) else old

unfoldable pub edited : UpdateMeetingDto → MeetingEntity → MeetingEntity
unfolding trim
edited dto m = record m {
  title = edited_title dto.title m.title;
  prompt_id = or_else dto.prompt_id m.prompt_id;
  transcription_mode = or_else dto.transcription_mode m.transcription_mode;
}

abbrev same_title : Option String → Option String → Bool
same_title none none = true
same_title (some a) (some b) = str_eq a b
same_title a b = false

abbrev retitled : ResultEntity → Option String → ResultEntity
retitled r title = record r { metadata = record r.metadata { title = title } }

module _ {S : Type 0} (services : Services S) (results : ResultRepository S) where
  open services use {meetings, ensure_prompt_exists, refresh_by_meeting_id}

  unfoldable pub sync_found : Option ResultEntity → Option String → Run (World S) (Unit {0})
  sync_found none title = return tt
  sync_found (some r) title =
      if same_title r.metadata.title title
      then return tt
      else (do saved ← stored (results.save (retitled r title)); return tt)

  -- A result that exists takes over a changed title.
  unfoldable pub sync_title : String → Option String → Run (World S) (Unit {0})
  unfolding sync_found
  sync_title id title = do
    result ← reading (results.find_one id)
    sync_found result title
    stored (refresh_by_meeting_id id)

  unfoldable pub require_prompt : Option String → Option String → Run (World S) (Unit {0})
  require_prompt none owner_sub = return tt
  require_prompt (some p) owner_sub = stored (ensure_prompt_exists p owner_sub)

  unfoldable pub update_prompt :
      String → UpdateMeetingDto → Option String → Run (World S) MeetingEntity
  unfolding edited sync_title require_prompt
  update_prompt id dto owner_sub = do
    m ← find_by_id services id owner_sub
    when (not (is_some dto.title || is_some dto.prompt_id || is_some dto.transcription_mode)) (
        throw
          (bad_request "At least one of title, promptId, or transcriptionMode must be provided"))
    require_prompt dto.prompt_id owner_sub
    saved ← stored (meetings.rows.save (edited dto m))
    when (is_some dto.title) (sync_title id saved.title)
    return saved
