-- ===== src/NoteStore.antt =====
-- domains/note/stores/noteStore.ts: the editor of one meeting's note. A `Desk` is one session with
-- the entry of `memoryDrafts` of its meeting and the browser's storage; the calls are cut where the
-- code awaits, and every cut is a function. Rendering the state is left out.
pub mod Drafts
pub mod Saving
pub mod Loading
pub mod Steps
pub mod Invariant
use nangman_note.Base.{
  ℕ, String, Bool, true, false, Option, none, some, List, [], ◌∷◌, ◌+◌, ◌≡◌, refl, ltb, leb, ◌==◌,
  not, ◌&&◌, ◌||◌, is_some, or_else, if◌then◌else◌, str_eq, filter, utf16_length,
}
use nangman_note.NoteStore.Drafts.{
  NoteDraft, LocalStorage, read_drafts, write_draft, remove_draft, new_draft_key,
}

-- What the server answers for a note.
pub record Note : Type 0 where
  pub content : String
  pub revision : ℕ
  pub updated_at : String

pub data ErrorKind : Type 0 where
  load save conflict : ErrorKind

pub record NoteSnapshot : Type 0 where
  pub active_meeting_id : String
  pub note_content : String
  pub is_dirty : Bool
  pub is_loading : Bool
  pub has_loaded : Bool
  pub is_saving : Bool
  pub last_saved : Option String
  pub error : Option String
  pub error_kind : Option ErrorKind
  pub retryable : Bool
  pub save_failures : ℕ
  pub backup_error : Bool
  pub restored_from_backup : Bool
  pub content_revision : ℕ
  pub server_note : Option Note
  pub conflict : Option Note
  pub recovery_drafts : List NoteDraft

-- Where the asynchronous calls of the session stand: a save before its loop goes on, waiting for
-- `noteApi.save`, or for `noteApi.get` after a conflict; a load waiting for the meeting's saves, or
-- for `noteApi.get`.
pub data SavePhase : Type 0 where
  idle looping refetching : SavePhase
  sending : String → SavePhase

pub data LoadPhase : Type 0 where
  not_loading awaiting_saves fetching : LoadPhase

pub record Desk : Type 0 where
  pub state : NoteSnapshot
  pub draft_key : String
  pub base_revision : Option ℕ
  pub own_draft : Option NoteDraft
  pub restored_draft : Option NoteDraft
  pub saving : SavePhase
  pub loading : LoadPhase
  pub memory_draft : Option NoteDraft
  pub storage : LocalStorage

-- An error of the API client, with the status of the answer if there was one.
pub record ApiError : Type 0 where
  pub status_code : Option ℕ
  pub message : String

unfoldable pub is_retryable : ApiError → Bool
is_retryable e = elim e.status_code [ none ↦ true | some c ↦ leb 500 c || c == 408 || c == 429 ]

abbrev pub note_max_length : ℕ
note_max_length = 100000

abbrev pub conflict_message : String
conflict_message = "다른 곳에서 수정된 노트가 있습니다. 두 내용을 확인한 뒤 저장할 내용을 선택해주세요."

abbrev pub publish : (NoteSnapshot → NoteSnapshot) → Desk → Desk
publish patch d = record d { state = patch d.state }

unfoldable pub keep_backup : Bool → NoteDraft → Desk → Desk
keep_backup true draft d =
    publish (λ s. record s { backup_error = false })
      (record d { own_draft = some draft; memory_draft = none })
keep_backup false draft d =
    publish (λ s. record s { backup_error = true }) (record d { memory_draft = some draft })

abbrev pub draft_of : Desk → ℕ → NoteDraft
draft_of d now = record {
  key = d.draft_key;
  content = d.state.note_content;
  base_revision = d.base_revision;
  saved_at = now;
}

unfoldable pub backup : ℕ → Desk → Desk
unfolding keep_backup
backup now d =
    let (done, storage) = write_draft (draft_of d now) d.storage in
    keep_backup done (draft_of d now) (record d { storage = storage })

abbrev remove_optional : Option NoteDraft → LocalStorage → LocalStorage
remove_optional none s = s
remove_optional (some draft) s = remove_draft draft s

unfoldable pub clear_backups : Desk → Desk
clear_backups d = record d {
  storage = remove_optional d.restored_draft (remove_optional d.own_draft d.storage);
  own_draft = none;
  restored_draft = none;
  memory_draft = none;
}

abbrev saved_date : Note → Option String
saved_date note = if ltb 0 note.revision then some note.updated_at else none

abbrev pub accepted_state : Note → String → NoteSnapshot → NoteSnapshot
accepted_state note content s =
    let dirty = not (str_eq content note.content) in
    record s {
      note_content = content;
      server_note = some note;
      has_loaded = true;
      is_dirty = dirty;
      last_saved = saved_date note;
      error = none;
      error_kind = none;
      conflict = none;
      retryable = true;
      save_failures = 0;
      restored_from_backup = dirty && s.restored_from_backup;
    }

unfoldable pub accept_server : Note → Bool → ℕ → Desk → Desk
unfolding backup clear_backups
accept_server note replace_content now d =
    let content = if replace_content then note.content else d.state.note_content in
    let d2 =
      publish (accepted_state note content) (record d { base_revision = some note.revision }) in
    if d2.state.is_dirty
    then backup now d2
    else publish (λ s. record s { backup_error = false }) (clear_backups d2)

-- A save's outcome is known: what its promise resolves with, if it does.
abbrev pub Progress : Type 0
Progress = Desk × Option Bool

abbrev pub finish_save : Bool → Desk → Progress
finish_save result d =
    (publish (λ s. record s { is_saving = false }) (record d { saving = idle }), some result)
