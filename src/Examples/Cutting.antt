-- ===== src/Examples/Cutting.antt =====
-- The theorems on cutting texts and transcripts at concrete inputs.
use nangman_note.Base.{
  ℕ, true, false, Option, none, some, List, [], ◌∷◌, ok, ◌≡◌, refl, arith, is_space, ◌++◌, All,
  trim, trim_start, trim_end,
}
use nangman_note.Notes.Splitting.{
  Source, IsInWindow, chunk_end, chunk_end_keeps_pairs, is_low_surrogate, char_code_at,
  last_newline,
}
use nangman_note.Notes.Sources.{NoteSourceChunk, IsSplit, split_note_sources}
use nangman_note.Notes.Sources.Lossless.{split_note_sources_lossless}
use nangman_note.Transcription.Segments.{
  TranscribeItem, items_to_segments, place_segments, add_items, add_item, add_word, add_punctuation,
}
use nangman_note.Transcription.Segments.Texts.{ink}
use nangman_note.Transcription.Segments.Lossless.{IsMark, items_ink}
use nangman_note.Transcription.Segments.Ink.{ink-items_to_segments}
use nangman_note.Transcription.Segments.Timeline.{Chronological, placed-Chronological}

-- No topic boundary is ever found.
abbrev no_transition : Source → Option ℕ
no_transition s = none

no_transition-IsInWindow : IsInWindow no_transition
no_transition-IsInWindow s i h = ground arith

abbrev a_text : Source
a_text = 97 ∷ 98 ∷ 10 ∷ 99 ∷ 100 ∷ []

-- Of a text that holds two high surrogates in a row, the cut is at the second.
abbrev surrogates : Source
surrogates = 0xd800 ∷ 0xd83d ∷ 0xde00 ∷ []

chunk_end_keeps_pairs_example :
    is_low_surrogate (char_code_at surrogates (chunk_end no_transition surrogates 2 false)) ≡ false
unfolding chunk_end last_newline
chunk_end_keeps_pairs_example =
    chunk_end_keeps_pairs no_transition no_transition-IsInWindow surrogates 2 false (omega arith)
      refl

abbrev a_source : NoteSourceChunk
a_source = record {
  note_content = 120 ∷ [];
  transcript_text = a_text;
  previous_context = none;
  source_label = none;
}

split_note_sources_lossless_example :
    (chunks : List NoteSourceChunk) × (split_note_sources no_transition
        (λ i. [])
        (λ i s. [])
        a_source
        4
      ≡ ok chunks)
    × IsSplit a_source 4 chunks
split_note_sources_lossless_example =
    split_note_sources_lossless no_transition no_transition-IsInWindow (λ i. []) (λ i s. [])
      a_source 4 (omega arith)

-- A word, whose times are read by the given function, and a full stop.
abbrev a_word : TranscribeItem
a_word = record {
  is_punctuation = false;
  content = some "hello";
  confidence = some 9;
  start_time = some "0.5";
  end_time = some "0.9";
}

abbrev a_stop : TranscribeItem
a_stop = record {
  is_punctuation = true;
  content = some ".";
  confidence = none;
  start_time = none;
  end_time = none;
}

abbrev items : List TranscribeItem
items = a_word ∷ a_stop ∷ []

ink-items_to_segments_example :
    (kept dropped : List TranscribeItem) × (items ≡ kept ++ dropped)
    × All IsMark dropped
    × ("hello." ≡ items_ink kept)
unfolding is_space ink items_to_segments add_items add_item add_word add_punctuation trim trim_start
    trim_end
ink-items_to_segments_example =
    ink-items_to_segments (λ s. 500) 0 (λ t. none) items (refl, (tt, tt))

placed-Chronological_example :
    Chronological 60000
      (place_segments "j1" 60000 (items_to_segments (λ s. 500) 0 (λ t. none) items))
placed-Chronological_example =
    placed-Chronological (λ s. 500) 0 (λ t. none) "j1" 60000 items (omega arith, omega arith, tt)
