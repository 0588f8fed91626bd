-- ===== src/Note.antt =====
-- note/application/note.service.ts: the note of a meeting, one row with a revision that every
-- accepted write raises. The clock is an argument, `now`.
pub mod Register
pub mod Interleaving
use nangman_note.Base.{
  ℕ, String, Bool, true, false, Option, none, some, Failure, conflict, message, Outcome, Run,
  return, throw, catch, when, ◌>>=◌, ◌>>◌, ◌+◌, ◌==◌, not, ◌||◌, if◌then◌else◌, str_eq, includes,
  to_lower, ◌<>◌,
}
use nangman_note.Meeting.Context.{World, Services, stored, reading}
use nangman_note.Meeting.Lifecycle.{find_by_id}

pub record NoteEntity : Type 0 where
  pub id : String
  pub meeting_id : String
  pub content : String
  pub revision : ℕ
  pub created_at : ℕ
  pub updated_at : ℕ

pub record UpsertNoteDto : Type 0 where
  pub content : String
  pub expected_revision : ℕ

-- The columns that the conditional update assigns.
pub record NoteAssignment : Type 0 where
  pub content : String
  pub revision : ℕ
  pub updated_at : ℕ

abbrev pub assignment : UpsertNoteDto → ℕ → NoteAssignment
assignment dto now = record {
  content = dto.content;
  revision = dto.expected_revision + 1;
  updated_at = now;
}

-- The calls of TypeORM's repository of notes: `findOne({ where: { meetingId } })`,
-- `update({ meetingId, revision }, partial)`, which returns the number of affected rows, and
-- `save(create({ meetingId, content, revision }))`.
pub record NoteRepository (S : Type 0) : Type 0 where
  pub find_one : String → S → Outcome (Option NoteEntity)
  pub update : String → ℕ → NoteAssignment → Run S ℕ
  pub insert : String → String → ℕ → Run S NoteEntity

unfoldable pub is_unique_constraint_error : Failure → Bool
unfolding to_lower
is_unique_constraint_error e =
    let text = to_lower (message e) in
    includes "unique constraint" text || includes "duplicate key" text

abbrev pub conflict_failure : Failure
conflict_failure = conflict "다른 곳에서 노트가 수정되었습니다. 최신 노트와 작성 내용을 확인해주세요."

abbrev pub throw_conflict : {S A : Type 0} → Run S A
throw_conflict = throw conflict_failure

-- What is shown of a meeting that has no note yet.
abbrev pub virtual_note : String → ℕ → NoteEntity
virtual_note meeting_id now = record {
  id = "note_virtual_" <> meeting_id;
  meeting_id = meeting_id;
  content = "";
  revision = 0;
  created_at = now;
  updated_at = now;
}

module _ {S : Type 0} (services : Services S) (notes : NoteRepository S) where
  open services use {refresh_by_meeting_id}

  note_or_virtual : Option NoteEntity → String → ℕ → NoteEntity
  note_or_virtual (some existing) meeting_id now = existing
  note_or_virtual none meeting_id now = virtual_note meeting_id now

  unfoldable pub find_by_meeting_id : String → Option String → ℕ → Run (World S) NoteEntity
  unfolding note_or_virtual
  find_by_meeting_id meeting_id owner_sub now = do
    meeting ← find_by_id services meeting_id owner_sub
    existing ← reading (notes.find_one meeting_id)
    return (note_or_virtual existing meeting_id now)

  -- The conditional update, for a row that was read with the expected revision.
  unfoldable pub update_existing :
      NoteEntity → String → UpsertNoteDto → ℕ → Run (World S) NoteEntity
  update_existing existing meeting_id dto now = do
    affected ← stored (notes.update meeting_id dto.expected_revision (assignment dto now))
    when (not (affected == 1)) throw_conflict
    stored (refresh_by_meeting_id meeting_id)
    return (record existing {
      content = dto.content;
      revision = dto.expected_revision + 1;
      updated_at = now;
    })

  unfoldable pub create_first : String → UpsertNoteDto → Run (World S) NoteEntity
  create_first meeting_id dto = do
    saved ← stored (notes.insert meeting_id dto.content 1)
    stored (refresh_by_meeting_id meeting_id)
    return saved

  unfoldable pub settle_raced :
      Option NoteEntity → UpsertNoteDto → Failure → Run (World S) NoteEntity
  settle_raced (some raced) dto e =
      if str_eq raced.content dto.content then return raced else throw_conflict
  settle_raced none dto e = throw e

  -- The handler of a first write that failed.
  unfoldable pub first_write_failed : String → UpsertNoteDto → Failure → Run (World S) NoteEntity
  unfolding settle_raced
  first_write_failed meeting_id dto e =
      if is_unique_constraint_error e
      then (do raced ← reading (notes.find_one meeting_id); settle_raced raced dto e)
      else throw e

  -- `upsert` after its read, with the row that was read.
  unfoldable pub write_note :
      Option NoteEntity → String → UpsertNoteDto → ℕ → Run (World S) NoteEntity
  unfolding update_existing create_first first_write_failed
  write_note (some existing) meeting_id dto now =
      if str_eq existing.content dto.content
      then return existing
      else (if not (existing.revision == dto.expected_revision)
          then throw_conflict
          else update_existing existing meeting_id dto now)
  write_note none meeting_id dto now =
      if not (dto.expected_revision == 0)
      then throw_conflict
      else catch (create_first meeting_id dto) (first_write_failed meeting_id dto)

  unfoldable pub upsert : String → UpsertNoteDto → Option String → ℕ → Run (World S) NoteEntity
  unfolding write_note
  upsert meeting_id dto owner_sub now = do
    meeting ← find_by_id services meeting_id owner_sub
    existing ← reading (notes.find_one meeting_id)
    write_note existing meeting_id dto now
