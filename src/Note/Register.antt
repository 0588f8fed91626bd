-- ===== src/Note/Register.antt =====
-- What note.service.ts promises of a meeting's note, whatever tables stand behind it: a register
-- with a revision, which is written by compare and set.
use nangman_note.Base.{
  ℕ, String, Bool, true, false, Option, none, some, Outcome, ok, thrown, Failure, ◌+◌, ◌==◌, ◌≡◌,
  ◌≤◌, ◌&&◌, str_eq, if◌then◌else◌, arith, leb, refl, str_eq_refl, eq_iff,
}
use nangman_note.Meeting.Entity.{MeetingEntity}
use nangman_note.Meeting.Context.{World, Services, is_meeting}
use nangman_note.Meeting.Lifecycle.{find_by_id}
use nangman_note.Note.{
  NoteEntity, UpsertNoteDto, NoteAssignment, assignment, NoteRepository, is_unique_constraint_error,
  upsert, write_note, update_existing, create_first, conflict_failure,
}

pub record Register : Type 0 where
  pub content : String
  pub revision : ℕ

-- Revision 0 is a note that was never written.
abbrev pub register : Option NoteEntity → Register
register none = record { content = ""; revision = 0 }
register (some n) = record { content = n.content; revision = n.revision }

-- The content was written before: asking for it again changes nothing.
abbrev pub is_settled : Register → UpsertNoteDto → Bool
is_settled r dto = leb 1 r.revision && str_eq r.content dto.content

-- The promise: the register afterwards, and whether the write was accepted.
unfoldable pub compare_and_set : UpsertNoteDto → Register → Register × Bool
compare_and_set dto r =
    if is_settled r dto
    then (r, true)
    else (if r.revision == dto.expected_revision
        then (record { content = dto.content; revision = dto.expected_revision + 1 }, true)
        else (r, false))

pub compare_and_set_again :
    (dto again : UpsertNoteDto) (r : Register)
    → again.content ≡ dto.content
    → (compare_and_set dto r).1 ≡ true
    → compare_and_set again (compare_and_set dto r).0 ≡ ((compare_and_set dto r).0, true)
unfolding compare_and_set
compare_and_set_again dto again r c h =
    grind (arith, str_eq_refl dto.content, eq_iff r.content dto.content)

unfoldable pub IsAnswer : Outcome NoteEntity → Register → Bool → Type 0
IsAnswer (ok n) r b = (b ≡ true) × (n.content ≡ r.content) × (n.revision ≡ r.revision)
IsAnswer (thrown e) r b = (b ≡ false) × (e ≡ conflict_failure)

abbrev assigned : NoteAssignment → NoteEntity → NoteEntity
assigned a n = record n { content = a.content; revision = a.revision; updated_at = a.updated_at }

-- The row after `update({ meetingId, revision }, a)`, and the number of affected rows.
abbrev pub updated_row : Option NoteEntity → ℕ → NoteAssignment → Option NoteEntity × ℕ
updated_row none revision a = (none, 0)
updated_row (some n) revision a =
    if n.revision == revision then (some (assigned a n), 1) else (some n, 0)

-- `save` of a new row: it is the row from then on, unless the meeting has one already.
abbrev pub IsInserted :
    Option NoteEntity → String → ℕ → Outcome NoteEntity → Option NoteEntity → Type 0
IsInserted (some n) content revision r after =
    (e : Failure) × (r ≡ thrown e) × (is_unique_constraint_error e ≡ true) × (after ≡ some n)
IsInserted none content revision r after =
    (n : NoteEntity) × (r ≡ ok n)
    × (n.content ≡ content)
    × (n.revision ≡ revision)
    × (after ≡ some n)

abbrev pub IsWritten : Option NoteEntity → Type 0
IsWritten none = Unit
IsWritten (some n) = 1 ≤ n.revision

-- What the proofs rely on of the database while it is up: `row_of` is the row of a meeting, whose
-- id is unique; the conditional update is one statement; refreshing the search index writes no
-- note.
pub record IsLawfulNotes {S : Type 0} (services : Services S) (notes : NoteRepository S)
    : Type 0 where
  pub row_of : String → S → Option NoteEntity
  pub written : (id : String) (s : S) → IsWritten (row_of id s)
  pub found : (id : String) (s : S) → notes.find_one id s ≡ ok (row_of id s)
  pub update_affects :
      (id : String) (revision : ℕ) (a : NoteAssignment) (s : S)
      → 1 ≤ a.revision
      → (notes.update id revision a s).0 ≡ ok (updated_row (row_of id s) revision a).1
  pub update_assigns :
      (id : String) (revision : ℕ) (a : NoteAssignment) (s : S)
      → 1 ≤ a.revision
      → row_of id (notes.update id revision a s).1 ≡ (updated_row (row_of id s) revision a).0
  pub inserts :
      (id content : String) (revision : ℕ) (s : S)
      → 1 ≤ revision
      → IsInserted
          (row_of id s)
          content
          revision
          (notes.insert id content revision s).0
          (row_of id (notes.insert id content revision s).1)
  pub refreshes : (id : String) (s : S) → (services.refresh_by_meeting_id id s).0 ≡ ok tt
  pub refresh_keeps :
      (id : String) (s : S) → row_of id (services.refresh_by_meeting_id id s).1 ≡ row_of id s

module _ {S : Type 0} (services : Services S) (notes : NoteRepository S)
    (lawful : IsLawfulNotes services notes) where
  abbrev pub view : String → World S → Register
  view id w = register (lawful.row_of id w.store)

  -- The result of a write that was accepted or refused, with what it left.
  abbrev pub Agrees : Register × Bool → Outcome NoteEntity → Register → Type 0
  Agrees p out after = (after ≡ p.0) × IsAnswer out p.0 p.1

  -- A conditional update that finds the row `n` as it was read.
  update-Agrees :
      (id : String) (dto : UpsertNoteDto) (now : ℕ) (w : World S) (n : NoteEntity)
      → lawful.row_of id w.store ≡ some n
      → n.revision ≡ dto.expected_revision
      → str_eq n.content dto.content ≡ false
      → let (out, w') = update_existing services notes n id dto now w in
        Agrees (compare_and_set dto (view id w)) out (view id w')
  unfolding update_existing compare_and_set IsAnswer
  update-Agrees id dto now w n e r d =
      let w' = (notes.update id dto.expected_revision (assignment dto now) w.store).1 in
      grind (
        arith,
        lawful.update_affects id dto.expected_revision (assignment dto now) w.store (omega arith),
        lawful.update_assigns id dto.expected_revision (assignment dto now) w.store (omega arith),
        lawful.refreshes id w',
        lawful.refresh_keeps id w',
      )

  -- A first write, whose insertion is refused when the meeting has a row by then.
  first_write-Agrees :
      (id : String) (dto : UpsertNoteDto) (now : ℕ) (w : World S)
      → lawful.row_of id w.store ≡ none
      → let (out, w') = write_note services notes none id dto now w in
        Agrees (compare_and_set dto (view id w)) out (view id w')
  unfolding write_note create_first compare_and_set IsAnswer
  first_write-Agrees id dto now w e =
      let w' = (notes.insert id dto.content 1 w.store).1 in
      grind (
        arith,
        lawful.inserts id dto.content 1 w.store (omega arith),
        lawful.refreshes id w',
        lawful.refresh_keeps id w',
      )

  write-Agrees :
      (row : Option NoteEntity) (id : String) (dto : UpsertNoteDto) (now : ℕ) (w : World S)
      → lawful.row_of id w.store ≡ row
      → let (out, w') = write_note services notes row id dto now w in
        Agrees (compare_and_set dto (view id w)) out (view id w')
  unfolding write_note compare_and_set IsAnswer
  write-Agrees none id dto now w e = first_write-Agrees id dto now w e
  write-Agrees (some n) id dto now w e =
      grind (arith, lawful.written id w.store, update-Agrees id dto now w n e)

  -- While the database is up and the caller may read the meeting, `upsert` does to the note's
  -- content and revision exactly what the compare and set of a register does, and returns the
  -- register's content and revision, or the conflict error when the register refuses.
  pub upsert-refines :
      (id : String) (dto : UpsertNoteDto) (owner_sub : Option String) (now : ℕ) (w : World S)
      (m : MeetingEntity)
      → services.meetings.rows.find_one (is_meeting id owner_sub) w.store ≡ ok (some m)
      → Agrees
          (compare_and_set dto (view id w))
          (upsert services notes id dto owner_sub now w).0
          (view id (upsert services notes id dto owner_sub now w).1)
  unfolding upsert find_by_id IsAnswer
  upsert-refines id dto owner_sub now w m f =
      grind
        (arith, lawful.found id w.store, write-Agrees (lawful.row_of id w.store) id dto now w refl)

  -- While the database is up and the caller may read the meeting, a retry of a write that was
  -- accepted is accepted with the same content and revision, and leaves the note as the first write
  -- left it, whatever revision the retry expects.
  pub upsert_retried :
      (id : String) (dto again : UpsertNoteDto) (owner_sub : Option String) (now later : ℕ)
      (w : World S) (m : MeetingEntity) (n : NoteEntity)
      → again.content ≡ dto.content
      → services.meetings.rows.find_one (is_meeting id owner_sub) w.store ≡ ok (some m)
      → (upsert services notes id dto owner_sub now w).0 ≡ ok n
      → services.meetings.rows.find_one
          (is_meeting id owner_sub)
          (upsert services notes id dto owner_sub now w).1.store
        ≡ ok (some m)
      → let (out, w') = upsert services notes id dto owner_sub now w in
        let (retried, w2) = upsert services notes id again owner_sub later w' in
        IsAnswer retried (view id w') true × (view id w2 ≡ view id w')
  unfolding IsAnswer
  upsert_retried id dto again owner_sub now later w m n c f r f2 = grind (
    arith,
    upsert-refines id dto owner_sub now w m f,
    upsert-refines id again owner_sub later (upsert services notes id dto owner_sub now w).1 m f2,
    compare_and_set_again dto again (view id w) c,
  )
