-- ===== src/Notes/Sources.antt =====
-- `splitNoteSources`: the chunks in which a note and a transcript are sent to the language model.
-- The two texts of a `sourceLabel` are formatted by parameters, from the index of the chunk and,
-- for a transcript, from the time marks in it.
pub mod Parts
pub mod Lossless
use nangman_note.Base.{
  ℕ, zero, suc, ◌+◌, ◌-◌, ◌*◌, ◌≤◌, ◌<◌, Bool, true, false, Option, none, some, List, [], ◌∷◌, ◌++◌,
  Failure, Outcome, ok, thrown, Outcome, if◌then◌else◌, leb, length, drop, All, map, ◌≡◌, refl, ap,
  ◌∙◌, arith,
}
use nangman_note.Notes.Splitting.{
  Source, split_source_text, split_source_text_lossless, join, IsInWindow,
}

pub record NoteSourceChunk : Type 0 where
  pub note_content : Source
  pub transcript_text : Source
  pub previous_context : Option Source
  pub source_label : Option Source

-- `slice(-1_000)`.
abbrev pub tail_of : Source → Source
tail_of s = drop (length s - 1000) s

module _ (note_label : ℕ → Source) where
  -- The chunks of a note that has its own budget, from the given index on.
  abbrev pub note_chunks : ℕ → Option Source → List Source → List NoteSourceChunk
  note_chunks index previous [] = []
  note_chunks index previous (text ∷ texts) =
      record {
        note_content = text;
        transcript_text = [];
        previous_context = previous;
        source_label = some (note_label index);
      }
      ∷ note_chunks (suc index) (some (tail_of text)) texts

module _ (transcript_label : ℕ → Source → Source) where
  -- The chunks of a transcript; the first of them takes the note along.
  abbrev pub transcript_chunks : ℕ → Source → Option Source → List Source → List NoteSourceChunk
  transcript_chunks index note previous [] = []
  transcript_chunks index note previous (text ∷ texts) =
      record {
        note_content = note;
        transcript_text = text;
        previous_context = previous;
        source_label = some (transcript_label index text);
      }
      ∷ transcript_chunks (suc index) [] (some (tail_of text)) texts

abbrev pub bind_outcome : {A B : Type 0} → Outcome A → (A → Outcome B) → Outcome B
bind_outcome (ok a) f = f a
bind_outcome (thrown e) f = thrown e

module _ (last_transition : Source → Option ℕ) (note_label : ℕ → Source)
    (transcript_label : ℕ → Source → Source) where
  abbrev pub split_inline : NoteSourceChunk → ℕ → Outcome (List NoteSourceChunk)
  split_inline source max_chars =
      bind_outcome
        (split_source_text last_transition source.transcript_text
          (max_chars - length source.note_content) true)
        (λ texts.
          ok (
            transcript_chunks transcript_label 0 source.note_content source.previous_context texts))

  abbrev pub split_apart : NoteSourceChunk → ℕ → Outcome (List NoteSourceChunk)
  split_apart source max_chars =
      bind_outcome (split_source_text last_transition source.note_content max_chars false) (λ notes.
        bind_outcome (split_source_text last_transition source.transcript_text max_chars true)
          (λ texts. ok (
            note_chunks note_label 0 source.previous_context notes
            ++ transcript_chunks transcript_label 0 [] source.previous_context texts)))

  -- A note of at most a quarter of the limit goes with the first chunk of the transcript.
  unfoldable pub split_note_sources : NoteSourceChunk → ℕ → Outcome (List NoteSourceChunk)
  split_note_sources source max_chars =
      if leb (length source.note_content + length source.transcript_text) max_chars
      then ok (source ∷ [])
      else (if leb (length source.note_content * 4) max_chars
          then split_inline source max_chars
          else split_apart source max_chars)

abbrev pub notes_of : List NoteSourceChunk → Source
notes_of chunks = join (map (λ c. c.note_content) chunks)

abbrev pub transcripts_of : List NoteSourceChunk → Source
transcripts_of chunks = join (map (λ c. c.transcript_text) chunks)

abbrev pub IsWithin : ℕ → NoteSourceChunk → Type 0
IsWithin max_chars c = length c.note_content + length c.transcript_text ≤ max_chars

-- All that is in the source is in the chunks, in its order, and each chunk keeps to the limit.
pub record IsSplit (source : NoteSourceChunk) (max_chars : ℕ) (chunks : List NoteSourceChunk)
    : Type 0 where
  pub notes : notes_of chunks ≡ source.note_content
  pub transcripts : transcripts_of chunks ≡ source.transcript_text
  pub within : All (IsWithin max_chars) chunks

-- What `splitSourceText` makes.
abbrev pub IsChunk : ℕ → Source → Type 0
IsChunk max_chars text = (0 < length text) × (length text ≤ max_chars)
