-- ===== src/NoteStore/Loading.antt =====
-- domains/note/stores/noteStore.ts: `loadNote`, cut at its awaits, and the calls of the editor.
use nangman_note.Base.{
  ℕ, String, Bool, true, false, Option, none, some, List, [], ◌∷◌, ◌+◌, ◌==◌, not, ◌&&◌, ◌||◌,
  is_some, if◌then◌else◌, str_eq, filter,
}
use nangman_note.NoteStore.Drafts.{NoteDraft, LocalStorage, read_drafts, new_draft_key}
use nangman_note.NoteStore.{
  Note, ErrorKind, load, save, NoteSnapshot, idle, LoadPhase, not_loading, awaiting_saves, fetching,
  Desk, ApiError, is_retryable, conflict_message, publish, backup, saved_date, accept_server,
}

abbrev pub empty_snapshot : NoteSnapshot
empty_snapshot = record {
  active_meeting_id = "";
  note_content = "";
  is_dirty = false;
  is_loading = false;
  has_loaded = false;
  is_saving = false;
  last_saved = none;
  error = none;
  error_kind = none;
  retryable = true;
  save_failures = 0;
  backup_error = false;
  restored_from_backup = false;
  content_revision = 0;
  server_note = none;
  conflict = none;
  recovery_drafts = [];
}

-- The session that `loadNote` makes, from the draft that is restored and those that are offered.
abbrev session_with :
    String → String → Option NoteDraft → LocalStorage → List NoteDraft → Option NoteDraft → Desk
session_with meeting_id uuid memory storage offered none = record {
  state = record empty_snapshot {
    active_meeting_id = meeting_id;
    recovery_drafts = offered;
    backup_error = is_some memory;
  };
  draft_key = new_draft_key meeting_id uuid;
  base_revision = none;
  own_draft = none;
  restored_draft = none;
  saving = idle;
  loading = not_loading;
  memory_draft = memory;
  storage = storage;
}
session_with meeting_id uuid memory storage offered (some draft) = record {
  state = record empty_snapshot {
    active_meeting_id = meeting_id;
    note_content = draft.content;
    is_dirty = true;
    restored_from_backup = true;
    recovery_drafts = offered;
    backup_error = is_some memory;
  };
  draft_key = new_draft_key meeting_id uuid;
  base_revision = draft.base_revision;
  own_draft = none;
  restored_draft = some draft;
  saving = idle;
  loading = not_loading;
  memory_draft = memory;
  storage = storage;
}

unfoldable pub open_session :
    String → String → Option NoteDraft → LocalStorage → List NoteDraft → Desk
open_session meeting_id uuid (some m) storage drafts =
    session_with meeting_id uuid (some m) storage drafts (some m)
open_session meeting_id uuid none storage [] = session_with meeting_id uuid none storage [] none
open_session meeting_id uuid none storage (d ∷ drafts) =
    session_with meeting_id uuid none storage drafts (some d)

abbrev pub is_loading_phase : LoadPhase → Bool
is_loading_phase not_loading = false
is_loading_phase awaiting_saves = true
is_loading_phase fetching = true

-- `loadNote` in the session that is active: a load that is running is not started again.
unfoldable pub start_load : Desk → Desk
start_load d =
    if is_loading_phase d.loading
    then d
    else publish (λ s. record s { is_loading = true; error = none; error_kind = none })
        (record d { loading = awaiting_saves })

-- `loadNote` for another meeting than the active one.
unfoldable pub load_note : String → String → Option NoteDraft → LocalStorage → Desk
unfolding open_session
load_note meeting_id uuid memory storage =
    start_load (open_session meeting_id uuid memory storage (read_drafts meeting_id storage))

abbrev pub finish_load : Desk → Desk
finish_load d = publish (λ s. record s { is_loading = false }) (record d { loading = not_loading })

abbrev pub is_revision : Option ℕ → ℕ → Bool
is_revision none revision = false
is_revision (some r) revision = r == revision

-- The draft was made on another revision than the server's, and differs from its text.
abbrev pub is_stale : Note → Desk → Bool
is_stale note d =
    d.state.is_dirty
    && not (str_eq d.state.note_content note.content)
    && not (is_revision d.base_revision note.revision)

abbrev pub contest : Note → Desk → Desk
contest note d =
    publish
      (λ s. record s {
        has_loaded = true;
        server_note = some note;
        conflict = some note;
        error_kind = some ErrorKind.conflict;
        error = some conflict_message;
        retryable = false;
        last_saved = saved_date note;
      })
      d

unfoldable pub load_answered : Note → ℕ → Desk → Desk
load_answered note now d =
    finish_load
      (if is_stale note d then contest note d else accept_server note (not d.state.is_dirty) now d)

unfoldable pub load_failed : ApiError → Desk → Desk
unfolding is_retryable
load_failed e d = finish_load (
    publish
      (λ s. record s { error = some e.message; error_kind = some load; retryable = is_retryable e })
      d)

abbrev pub typed : Option ErrorKind → String → NoteSnapshot → NoteSnapshot
typed (some save) content s = record s {
  note_content = content;
  is_dirty = true;
  content_revision = s.content_revision + 1;
  error = none;
  error_kind = none;
  retryable = true;
  save_failures = 0;
}
typed kind content s = record s {
  note_content = content;
  is_dirty = true;
  content_revision = s.content_revision + 1;
}

unfoldable pub set_content : String → ℕ → Desk → Desk
set_content content now d =
    if str_eq d.state.note_content content
    then d
    else backup now (publish (typed d.state.error_kind content) d)

unfoldable pub resolve : Option Note → Bool → ℕ → Desk → Desk
resolve none choose_server now d = d
resolve (some note) choose_server now d = accept_server note choose_server now d

unfoldable pub resolve_conflict : Bool → ℕ → Desk → Desk
unfolding resolve
resolve_conflict choose_server now d = resolve d.state.conflict choose_server now d

abbrev find_draft : String → List NoteDraft → Option NoteDraft
find_draft key [] = none
find_draft key (d ∷ ds) = if str_eq d.key key then some d else find_draft key ds

unfoldable pub restore : NoteDraft → String → ℕ → Desk → Desk
restore draft key now d = start_load (
    backup now (
      publish
        (λ s. record s {
          note_content = draft.content;
          is_dirty = true;
          restored_from_backup = true;
          recovery_drafts = filter (λ x. not (str_eq x.key key)) s.recovery_drafts;
        })
        (record d { restored_draft = some draft; base_revision = draft.base_revision })))

unfoldable pub restore_found : Option NoteDraft → String → ℕ → Desk → Desk
unfolding restore
restore_found none key now d = d
restore_found (some draft) key now d =
    if d.state.is_dirty || d.state.is_saving then d else restore draft key now d

unfoldable pub restore_draft : String → ℕ → Desk → Desk
unfolding restore_found
restore_draft key now d = restore_found (find_draft key d.state.recovery_drafts) key now d
