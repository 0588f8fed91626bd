-- ===== src/NoteStore/Invariant.antt =====
-- What every event of a note's session keeps: unsaved text has a copy outside of the editor, and
-- text that counts as saved is the server's.
pub mod Saves
pub mod Events
pub mod Steps
pub mod Outcomes
use nangman_note.Base.{
  ℕ, String, Bool, true, false, Option, none, some, ◌≡◌, ◌⊎◌, inl, inr, refl, not, ◌&&◌, ◌||◌,
  is_some, str_eq, arith, Bool-cases, Option-cases, eq_iff, str_eq_refl, if◌then◌else◌,
}
use nangman_note.NoteStore.Drafts.{
  NoteDraft, LocalStorage, Stored, write_draft, set_item-Stored, draft_item,
}
use nangman_note.NoteStore.{
  Note, ErrorKind, SavePhase, idle, looping, refetching, sending, LoadPhase, not_loading,
  awaiting_saves, fetching, Desk, ApiError, publish, backup, keep_backup, clear_backups,
  accept_server, draft_of, accepted_state,
}
use nangman_note.NoteStore.Saving.{
  is_blocked, start_save, save_turn, save_answered, save_refused, save_refetched,
}
use nangman_note.NoteStore.Loading.{
  is_loading_phase, start_load, load_answered, load_failed, set_content, resolve_conflict,
  restore_draft,
}
use nangman_note.NoteStore.Steps.{Event, step}

abbrev Held : Option NoteDraft → String → Type 0
Held none c = ⊥
Held (some m) c = m.content ≡ c

-- The text of the editor is in the storage or among the drafts in memory.
abbrev pub HasCopy : Desk → Type 0
HasCopy d = Stored d.state.note_content d.storage.items ⊎ Held d.memory_draft d.state.note_content

abbrev IsContent : Option Note → String → Type 0
IsContent none c = ⊥
IsContent (some n) c = n.content ≡ c

-- The server has the text of the editor.
abbrev pub IsSynced : Desk → Type 0
IsSynced d = IsContent d.state.server_note d.state.note_content

abbrev pub is_busy : SavePhase → Bool
is_busy idle = false
is_busy looping = true
is_busy refetching = true
is_busy (sending text) = true

abbrev pub is_in_flight : SavePhase → Bool
is_in_flight idle = false
is_in_flight looping = false
is_in_flight refetching = true
is_in_flight (sending text) = true

abbrev pub is_refetching : SavePhase → Bool
is_refetching idle = false
is_refetching looping = false
is_refetching refetching = true
is_refetching (sending text) = false

abbrev pub is_fetching : LoadPhase → Bool
is_fetching not_loading = false
is_fetching awaiting_saves = false
is_fetching fetching = true

-- What decides which calls do something.
pub record Control : Type 0 where
  pub dirty : Bool
  pub loaded : Bool
  pub shows_loading : Bool
  pub shows_saving : Bool
  pub blocked : Bool
  pub contested : Bool
  pub based : Bool
  pub saving : SavePhase
  pub loading : LoadPhase

abbrev pub control : Desk → Control
control d = record {
  dirty = d.state.is_dirty;
  loaded = d.state.has_loaded;
  shows_loading = d.state.is_loading;
  shows_saving = d.state.is_saving;
  blocked = is_blocked d.state.error_kind;
  contested = is_some d.state.conflict;
  based = is_some d.base_revision;
  saving = d.saving;
  loading = d.loading;
}

-- No save may start.
abbrev pub is_barred : Control → Bool
is_barred k = k.shows_loading || not k.loaded || k.blocked

pub record IsOrderly (k : Control) : Type 0 where
  pub loading_shown : k.shows_loading ≡ is_loading_phase k.loading
  pub saving_shown : k.shows_saving ≡ is_busy k.saving
  pub in_flight_dirty : is_in_flight k.saving ≡ true → k.dirty ≡ true
  pub exclusive : is_busy k.saving ≡ true → is_fetching k.loading ≡ false
  pub busy_ready : is_busy k.saving ≡ true → k.loaded && k.based && not k.contested ≡ true
  pub ready : is_barred k ≡ false → k.based && not k.contested ≡ true
  pub refetching_barred : is_refetching k.saving ≡ true → is_barred k ≡ true

pub record IsSound (d : Desk) : Type 0 where
  pub copied : d.state.is_dirty ≡ true → HasCopy d
  pub synced : d.state.has_loaded ≡ true → d.state.is_dirty ≡ false → IsSynced d
  pub orderly : IsOrderly (control d)

-- Writing the backup keeps the text somewhere, and changes nothing else that matters here.
pub backup-HasCopy : (now : ℕ) (d : Desk) → HasCopy (backup now d)
unfolding backup keep_backup write_draft
backup-HasCopy now d = grind (
  arith,
  set_item-Stored d.draft_key d.state.note_content d.base_revision (some now) d.storage.items,
)

pub control-backup : (now : ℕ) (d : Desk) → control (backup now d) ≡ control d
unfolding backup keep_backup write_draft
control-backup now d = ground arith

pub IsSynced-backup : (now : ℕ) (d : Desk) → IsSynced d → IsSynced (backup now d)
unfolding backup keep_backup write_draft
IsSynced-backup now d h = ground arith

-- `acceptServer`: the text is dirty exactly when it is not the server's.
pub accept_server-HasCopy :
    (n : Note) (r : Bool) (now : ℕ) (d : Desk)
    → (accept_server n r now d).state.is_dirty ≡ true
    → HasCopy (accept_server n r now d)
unfolding accept_server
accept_server-HasCopy n r now d h = grind (
  arith,
  backup-HasCopy now (
      publish (accepted_state n (if r then n.content else d.state.note_content))
        (record d { base_revision = some n.revision })),
)

pub accept_server-IsSynced :
    (n : Note) (r : Bool) (now : ℕ) (d : Desk)
    → (accept_server n r now d).state.is_dirty ≡ false
    → IsSynced (accept_server n r now d)
unfolding accept_server backup clear_backups keep_backup write_draft
accept_server-IsSynced n r now d h =
    grind (arith, eq_iff d.state.note_content n.content, str_eq_refl n.content)

pub control-accept_server :
    (n : Note) (r : Bool) (now : ℕ) (d : Desk)
    → control (accept_server n r now d) ≡ record (control d) {
      dirty = (accept_server n r now d).state.is_dirty;
      loaded = true;
      blocked = false;
      contested = false;
      based = true;
    }
unfolding accept_server backup clear_backups keep_backup write_draft
control-accept_server n r now d = ground arith
