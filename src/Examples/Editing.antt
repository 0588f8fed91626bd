-- ===== src/Examples/Editing.antt =====
-- The theorems on the server's note and on the editor at concrete inputs.
use nangman_note.Base.{
  ℕ, suc, String, true, false, Option, none, some, [], ◌∷◌, other, Outcome, ok, thrown, ◌≡◌, ◌⊎◌,
  refl, ◌-◌, ◌==◌, if◌then◌else◌, arith, ◌≤◌, ap, to_lower, lower_char, utf16_length,
}
use nangman_note.Meeting.Entity.{MeetingEntity, recording, batch}
use nangman_note.Meeting.Context.{World, Services}
use nangman_note.Meeting.Lifecycle.{find_by_id}
use nangman_note.Note.{
  NoteEntity, UpsertNoteDto, NoteAssignment, NoteRepository, upsert, write_note, update_existing,
  is_unique_constraint_error,
}
use nangman_note.Note.Register.{
  IsLawfulNotes, IsWritten, IsInserted, updated_row, view, Agrees, IsAnswer, compare_and_set,
  upsert-refines, upsert_retried,
}
use nangman_note.Note.Interleaving.{Chain, Interleaved, start, commit, Interleaved-Chain}
use nangman_note.NoteStore.{accept_server, clear_backups, backup, keep_backup, Desk, Note}
use nangman_note.NoteStore.Drafts.{
  write_draft, read_drafts, collect_drafts, sort_drafts, NoteDraft, object_item, LocalStorage,
  get_item, remove_draft, HasBackup, remove_draft-keeps,
}
use nangman_note.NoteStore.Loading.{load_note, start_load, open_session, load_answered, set_content}
use nangman_note.NoteStore.Saving.{save_answered, save_turn, start_save}
use nangman_note.NoteStore.Steps.{step, typing, loaded, saves_awaited, save_asked, turned, answered}
use nangman_note.NoteStore.Invariant.{IsSound, IsSynced}
use nangman_note.NoteStore.Invariant.Steps.{step-IsSound}
use nangman_note.NoteStore.Invariant.Outcomes.{load_note-IsSound, saved-IsSynced, unedited-saved}
use nangman_note.Examples.Db.{a_meeting}

-- A table with one note at most; the revision is one more than the number stored.
pub record Kept : Type 0 where
  pub content : String
  pub raised : ℕ
  pub at : ℕ

abbrev Table : Type 0
Table = Option Kept

abbrev row_of : Table → Option NoteEntity
row_of none = none
row_of (some k) = some (record {
  id = "n1";
  meeting_id = "m1";
  content = k.content;
  revision = suc k.raised;
  created_at = 1;
  updated_at = k.at;
})

abbrev updated_table : Table → ℕ → NoteAssignment → ℕ × Table
updated_table none revision a = (0, none)
updated_table (some k) revision a =
    if suc k.raised == revision
    then (1, some (record { content = a.content; raised = a.revision - 1; at = a.updated_at }))
    else (0, some k)

abbrev inserted_table : String → ℕ → Table → Outcome NoteEntity × Table
inserted_table content revision none = (
  ok (record {
    id = "n1";
    meeting_id = "m1";
    content = content;
    revision = suc (revision - 1);
    created_at = 1;
    updated_at = 0;
  }),
  some (record { content = content; raised = revision - 1; at = 0 }),
)
inserted_table content revision (some k) = (thrown (other "Duplicate Key value"), some k)

abbrev note_table : NoteRepository Table
note_table = record {
  find_one = λ id t. ok (row_of t);
  update = λ id revision a t. let (n, t2) = updated_table t revision a in (ok n, t2);
  insert = λ id content revision t. inserted_table content revision t;
}

abbrev the_meeting : MeetingEntity
the_meeting = a_meeting recording batch

-- Services with one meeting, which no call changes.
abbrev note_services : Services Table
note_services = record {
  meetings = record {
    rows = record {
      find = λ p t. ok [];
      find_one = λ p t. ok (some the_meeting);
      find_latest = λ p t. ok none;
      count = λ p t. ok 0;
      save = λ m t. (ok m, t);
      update = λ p f t. (ok tt, t);
      insert = λ m t. (ok m, t);
    };
    soft_remove = λ m t. (ok tt, t);
    restore = λ id t. (ok tt, t);
    remove = λ m t. (ok tt, t);
  };
  jobs = record {
    find = λ p t. ok [];
    find_one = λ p t. ok none;
    find_latest = λ p t. ok none;
    count = λ p t. ok 0;
    save = λ m t. (ok m, t);
    update = λ p f t. (ok tt, t);
    insert = λ m t. (ok m, t);
  };
  uploads = record {
    find = λ p t. ok [];
    find_one = λ p t. ok none;
    find_latest = λ p t. ok none;
    count = λ p t. ok 0;
    save = λ m t. (ok m, t);
    update = λ p f t. (ok tt, t);
    insert = λ m t. (ok m, t);
  };
  ensure_prompt_exists = λ id sub t. (ok tt, t);
  refresh_by_meeting_id = λ id t. (ok tt, t);
}

updated-found :
    (t : Table) (revision : ℕ) (a : NoteAssignment)
    → 1 ≤ a.revision
    → (row_of (updated_table t revision a).1 ≡ (updated_row (row_of t) revision a).0)
      × ((updated_table t revision a).0 ≡ (updated_row (row_of t) revision a).1)
updated-found none revision a h = (refl, refl)
updated-found (some k) revision a h = ground arith

IsInserted-updated_row :
    (t : Table) (content : String) (revision : ℕ)
    → 1 ≤ revision
    → IsInserted
        (row_of t)
        content
        revision
        (inserted_table content revision t).0
        (row_of (inserted_table content revision t).1)
unfolding is_unique_constraint_error to_lower lower_char
IsInserted-updated_row none content revision h = (_, refl, refl, omega arith, refl)
IsInserted-updated_row (some k) content revision h = (other "Duplicate Key value", refl, refl, refl)

row-IsWritten : (t : Table) → IsWritten (row_of t)
row-IsWritten none = tt
row-IsWritten (some k) = omega arith

note_table-IsLawful : IsLawfulNotes note_services note_table
note_table-IsLawful = record {
  row_of = λ id t. row_of t;
  written = λ id t. row-IsWritten t;
  found = λ id t. refl;
  update_affects = λ id revision a t h. ap ok (updated-found t revision a h).1;
  update_assigns = λ id revision a t h. (updated-found t revision a h).0;
  inserts = λ id content revision t h. IsInserted-updated_row t content revision h;
  refreshes = λ id t. refl;
  refresh_keeps = λ id t. refl;
}

abbrev world_at : Table → World Table
world_at t = record { store = t; emitted = []; polls = [] }

abbrev draft_on : String → ℕ → UpsertNoteDto
draft_on content revision = record { content = content; expected_revision = revision }

abbrev second : Table
second = some (record { content = "b"; raised = 1; at = 5 })

upsert-refines_example :
    Agrees note_services note_table note_table-IsLawful
      (record { content = "c"; revision = 3 }, true)
      (upsert note_services note_table "m1" (draft_on "c" 2) (some "u1") 9 (world_at second)).0
      (record { content = "c"; revision = 3 })
unfolding upsert find_by_id write_note update_existing compare_and_set note_table-IsLawful IsAnswer
upsert-refines_example =
    upsert-refines note_services note_table note_table-IsLawful "m1" (draft_on "c" 2) (some "u1") 9
      (world_at second) the_meeting refl

upsert_retried_example :
    IsAnswer
      (upsert note_services note_table "m1"
        (draft_on "c" 2)
        (some "u1")
        12
        (world_at (some (record { content = "c"; raised = 2; at = 9 })))).0
      (record { content = "c"; revision = 3 })
      true
    × (view note_services note_table note_table-IsLawful "m1"
          (upsert note_services note_table "m1"
            (draft_on "c" 2)
            (some "u1")
            12
            (world_at (some (record { content = "c"; raised = 2; at = 9 })))).1
        ≡ record { content = "c"; revision = 3 })
unfolding upsert find_by_id write_note update_existing note_table-IsLawful
upsert_retried_example =
    upsert_retried note_services note_table note_table-IsLawful "m1" (draft_on "c" 2)
      (draft_on "c" 2) (some "u1") 9 12 (world_at second) the_meeting
      (record {
        id = "n1";
        meeting_id = "m1";
        content = "c";
        revision = 3;
        created_at = 1;
        updated_at = 9;
      })
      refl refl refl refl

-- Two editors have read the note at revision 2, and both write.
abbrev first_write : World Table
first_write =
    (write_note note_services note_table (row_of second) "m1" (draft_on "c" 2) 9
      (world_at second)).1

abbrev second_write : World Table
second_write =
    (write_note note_services note_table (row_of second) "m1" (draft_on "d" 2) 12 first_write).1

raced :
    Interleaved note_services note_table note_table-IsLawful "m1"
      (world_at second)
      (draft_on "c" 2 ∷ [])
      second_write
unfolding write_note update_existing note_table-IsLawful
raced = commit (row_of second) (draft_on "d" 2) 12 (commit (row_of second) (draft_on "c" 2) 9 start)

Interleaved-Chain_example :
    Chain
      (record { content = "b"; revision = 2 })
      (draft_on "c" 2 ∷ [])
      (record { content = "c"; revision = 3 })
unfolding write_note update_existing note_table-IsLawful
Interleaved-Chain_example =
    Interleaved-Chain note_services note_table note_table-IsLawful "m1" (world_at second)
      second_write (draft_on "c" 2 ∷ []) raced

-- A browser that has one backup of another session.
abbrev a_draft : NoteDraft
a_draft = record {
  key = "transnote_offline_note_m1:u";
  content = "old";
  base_revision = some 2;
  saved_at = 5;
}

abbrev a_storage : LocalStorage
a_storage = record {
  items = ("transnote_offline_note_m1:u", object_item (some "new") (some 3) (some 6)) ∷ [];
  accepts = true;
  available = true;
}

remove_draft-keeps_example :
    (some (object_item (some "new") (some 3) (some 6))
      ≡ get_item "transnote_offline_note_m1:u" a_storage.items)
    ⊎ ((a_draft.key ≡ "transnote_offline_note_m1:u")
        × HasBackup a_draft.content a_draft.saved_at
            (get_item "transnote_offline_note_m1:u" a_storage.items))
unfolding remove_draft
remove_draft-keeps_example = remove_draft-keeps a_draft a_storage "transnote_offline_note_m1:u"

abbrev a_note : String → ℕ → Note
a_note content revision = record {
  content = content;
  revision = revision;
  updated_at = "2026-01-01";
}

abbrev no_storage : LocalStorage
no_storage = record { items = []; accepts = false; available = true }

opened : Desk
opened = load_note "m1" "u" none no_storage

opened-IsSound : IsSound opened
unfolding opened
opened-IsSound = load_note-IsSound "m1" "u" none no_storage

step-IsSound_example : IsSound (step saves_awaited opened).0
step-IsSound_example = step-IsSound saves_awaited opened opened-IsSound

-- The note is loaded, edited and being saved.
fetched : Desk
fetched = (step saves_awaited opened).0

ready : Desk
ready = (step (loaded (a_note "a" 1) 3) fetched).0

edited : Desk
edited = (step (typing "ab" 4) ready).0

asked : Desk
asked = (step save_asked edited).0

sent : Desk
sent = (step (turned true) asked).0

sent-IsSound : IsSound sent
unfolding sent asked edited ready fetched
sent-IsSound = step-IsSound (turned true) asked (
    step-IsSound save_asked edited (
      step-IsSound (typing "ab" 4) ready (
        step-IsSound (loaded (a_note "a" 1) 3) fetched
          (step-IsSound saves_awaited opened opened-IsSound))))

saved-IsSynced_example :
    ((step (answered (a_note "ab" 2) true 7) sent).0.state.is_dirty ≡ false)
    × IsSynced (step (answered (a_note "ab" 2) true 7) sent).0
unfolding sent asked edited ready fetched opened step start_save save_turn save_answered
    accept_server clear_backups set_content backup keep_backup write_draft load_answered load_note
    start_load open_session read_drafts collect_drafts sort_drafts utf16_length
saved-IsSynced_example = saved-IsSynced (answered (a_note "ab" 2) true 7) sent sent-IsSound refl

unedited-saved_example : (save_answered (a_note "ab" 2) true 7 sent).1 ≡ some true
unfolding sent asked edited ready fetched opened step start_save save_turn accept_server
    clear_backups set_content backup keep_backup write_draft load_answered load_note start_load
    open_session read_drafts collect_drafts sort_drafts utf16_length
unedited-saved_example = unedited-saved (a_note "ab" 2) true 7 sent refl
