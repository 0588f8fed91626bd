-- ===== src/Notes/Sources/Lossless.antt =====
-- `splitNoteSources` loses nothing and keeps to its limit.
use nangman_note.Base.{
  ℕ, ◌+◌, ◌-◌, ◌*◌, ◌≤◌, ◌<◌, true, false, Option, List, [], ◌∷◌, ◌++◌, ok, length, ◌≡◌, ◌∙◌, arith,
  le_or_lt, inl, inr,
}
use nangman_note.Notes.Splitting.{Source, split_source_text_lossless, IsInWindow}
use nangman_note.Notes.Sources.{
  NoteSourceChunk, note_chunks, transcript_chunks, IsWithin, IsSplit, split_inline, split_apart,
  split_note_sources,
}
use nangman_note.Notes.Sources.Parts.{
  notes_of-append, transcripts_of-append, All-append, notes_of-note_chunks,
  transcripts_of-note_chunks, note_chunks-IsWithin, notes_of-later_chunks,
  notes_of-transcript_chunks, transcripts_of-transcript_chunks, transcript_chunks-IsWithin,
  append_nil,
}

module _ (last_transition : Source → Option ℕ) (in_window : IsInWindow last_transition)
    (note_label : ℕ → Source) (transcript_label : ℕ → Source → Source) where
  split_inline-IsSplit :
      (source : NoteSourceChunk) (max_chars : ℕ)
      → 2 ≤ max_chars
      → max_chars < length source.note_content + length source.transcript_text
      → length source.note_content * 4 ≤ max_chars
      → (chunks : List NoteSourceChunk) × (split_inline last_transition note_label transcript_label
            source max_chars
          ≡ ok chunks)
        × IsSplit source max_chars chunks
  split_inline-IsSplit source max_chars two large quarter =
      let (texts, e, j, b) =
        split_source_text_lossless last_transition in_window source.transcript_text
          (max_chars - length source.note_content) true (omega arith) in
      (
        transcript_chunks transcript_label 0 source.note_content source.previous_context texts,
        grind (arith, e),
        record {
          notes =
              notes_of-transcript_chunks transcript_label 0 source.note_content
                source.previous_context texts (grind (arith, j));
          transcripts =
              transcripts_of-transcript_chunks transcript_label 0 source.note_content
                source.previous_context texts
              ∙ j;
          within =
              transcript_chunks-IsWithin transcript_label max_chars
                (max_chars - length source.note_content) 0 source.note_content
                source.previous_context texts (omega arith) b;
        },
      )

  split_apart-IsSplit :
      (source : NoteSourceChunk) (max_chars : ℕ)
      → 2 ≤ max_chars
      → (chunks : List NoteSourceChunk) × (split_apart last_transition note_label transcript_label
            source max_chars
          ≡ ok chunks)
        × IsSplit source max_chars chunks
  split_apart-IsSplit source max_chars two =
      let (notes, e, j, b) =
        split_source_text_lossless last_transition in_window source.note_content max_chars false
          two in
      let (texts, e', j', b') =
        split_source_text_lossless last_transition in_window source.transcript_text max_chars true
          two in
      let prev = source.previous_context in
      let first = note_chunks note_label 0 prev notes in
      let second = transcript_chunks transcript_label 0 [] prev texts in
      (
        first ++ second,
        grind (arith, e, e'),
        record {
          notes = grind (
            arith,
            notes_of-append first second,
            notes_of-note_chunks note_label 0 prev notes,
            notes_of-later_chunks transcript_label 0 prev texts,
            append_nil,
            j,
          );
          transcripts = grind (
            arith,
            transcripts_of-append first second,
            transcripts_of-note_chunks note_label 0 prev notes,
            transcripts_of-transcript_chunks transcript_label 0 [] prev texts,
            j',
          );
          within =
              All-append (IsWithin max_chars) first second
                (note_chunks-IsWithin note_label max_chars 0 prev notes b)
                (transcript_chunks-IsWithin transcript_label max_chars max_chars 0 [] prev texts
                  (omega arith) b');
        },
      )

  -- With a limit of at least two, the sources are cut into chunks that hold, joined, the whole note
  -- and the whole transcript, and none of which is longer, note and transcript together, than the
  -- limit.
  pub split_note_sources_lossless :
      (source : NoteSourceChunk) (max_chars : ℕ)
      → 2 ≤ max_chars
      → (chunks : List NoteSourceChunk) × (split_note_sources last_transition note_label
            transcript_label source max_chars
          ≡ ok chunks)
        × IsSplit source max_chars chunks
  unfolding split_note_sources
  split_note_sources_lossless source max_chars two =
      elim (le_or_lt (length source.note_content + length source.transcript_text) max_chars) [
        | inl small ↦ (
          source ∷ [],
          ground arith,
          record {
            notes = append_nil source.note_content;
            transcripts = append_nil source.transcript_text;
            within = (small, tt);
          },
        )
        | inr large ↦ elim (le_or_lt (length source.note_content * 4) max_chars) [
          | inl quarter ↦
              let (chunks, e, s) = split_inline-IsSplit source max_chars two large quarter in
              (chunks, grind (arith, e), s)
          | inr more ↦
              let (chunks, e, s) = split_apart-IsSplit source max_chars two in
              (chunks, grind (arith, e), s)
        ]
      ]
