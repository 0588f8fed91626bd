-- ===== src/Result/Entity.antt =====
-- result/domain/result.entity.ts: the document of a meeting. Times in milliseconds.
use nangman_note.Base.{ℕ, String, Option, Outcome, Run}

pub record ResultMetadata : Type 0 where
  pub title : Option String
  pub generated_at : ℕ
  pub total_duration : ℕ
  pub transcript_word_count : ℕ
  pub note_length : ℕ

pub record ResultEntity : Type 0 where
  pub id : String
  pub meeting_id : String
  pub prompt_id : String
  pub content : String
  pub metadata : ResultMetadata

-- The calls of TypeORM's repository of results: `findOne({ where: { meetingId } })`, `save` of an
-- entity that was read, and `save` of a new one, by its meeting, prompt, content and metadata.
pub record ResultRepository (S : Type 0) : Type 0 where
  pub find_one : String → S → Outcome (Option ResultEntity)
  pub save : ResultEntity → Run S ResultEntity
  pub insert : String → String → String → ResultMetadata → Run S ResultEntity
