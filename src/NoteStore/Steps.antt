-- ===== src/NoteStore/Steps.antt =====
-- The events of a note's session in any order: the editor's calls, and the answers of the server
-- to the save and to the load that are running.
use nangman_note.Base.{ℕ, String, Bool, Option, none}
use nangman_note.NoteStore.{
  LoadPhase, Note, SavePhase, idle, looping, refetching, sending, awaiting_saves, fetching, Desk,
  ApiError, Progress,
}
use nangman_note.NoteStore.Saving.{
  start_save, save_turn, save_answered, save_refused, save_refetched,
}
use nangman_note.NoteStore.Loading.{
  start_load, load_answered, load_failed, set_content, resolve_conflict, restore_draft,
}

pub data Event : Type 0 where
  typing : String → ℕ → Event
  save_asked load_asked saves_awaited : Event
  turned : Bool → Event
  answered : Note → Bool → ℕ → Event
  refused failed : ApiError → Event
  refetched : Option Note → ℕ → Event
  loaded : Note → ℕ → Event
  resolved : Bool → ℕ → Event
  restored : String → ℕ → Event

abbrev pub ask : SavePhase → Desk → Progress
ask idle d = start_save d
ask p d = (d, none)

abbrev pub turn : SavePhase → Bool → Desk → Progress
turn looping online d = save_turn online d
turn p online d = (d, none)

abbrev pub answer : SavePhase → Note → Bool → ℕ → Desk → Progress
answer (sending text) note online now d = save_answered note online now d
answer p note online now d = (d, none)

abbrev pub refuse : SavePhase → ApiError → Desk → Progress
refuse (sending text) e d = save_refused e d
refuse p e d = (d, none)

abbrev pub refetch : SavePhase → Option Note → ℕ → Desk → Progress
refetch refetching current now d = save_refetched current now d
refetch p current now d = (d, none)

-- `await saves.get(meetingId)` in a load is over when no save runs.
abbrev pub fetch : LoadPhase → SavePhase → Desk → Desk
fetch awaiting_saves idle d = record d { loading = fetching }
fetch awaiting_saves p d = d
fetch l p d = d

abbrev pub load_with : LoadPhase → Note → ℕ → Desk → Desk
load_with fetching note now d = load_answered note now d
load_with l note now d = d

abbrev pub fail_load : LoadPhase → ApiError → Desk → Desk
fail_load fetching e d = load_failed e d
fail_load l e d = d

-- The desk after an event, and what the promise of `saveNote` resolves with, if it does now. An
-- answer that nothing waits for is no event.
unfoldable pub step : Event → Desk → Progress
step (typing content now) d = (set_content content now d, none)
step save_asked d = ask d.saving d
step load_asked d = (start_load d, none)
step saves_awaited d = (fetch d.loading d.saving d, none)
step (turned online) d = turn d.saving online d
step (answered note online now) d = answer d.saving note online now d
step (refused e) d = refuse d.saving e d
step (failed e) d = (fail_load d.loading e d, none)
step (refetched current now) d = refetch d.saving current now d
step (loaded note now) d = (load_with d.loading note now d, none)
step (resolved choose_server now) d = (resolve_conflict choose_server now d, none)
step (restored key now) d = (restore_draft key now d, none)
