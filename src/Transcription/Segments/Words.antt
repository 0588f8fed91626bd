-- ===== src/Transcription/Segments/Words.antt =====
-- The words of a batch result and the segments that they become (`itemsToSegments` of
-- transcription-result-collector.service.ts): no segment is empty or too long.
use nangman_note.Base.{
  ℕ, ◌<◌, ◌≤◌, String, true, Option, List, [], ◌∷◌, ◌≡◌, arith, truthy, All, or_else, Bool-cases,
  inl, inr,
}
use nangman_note.Transcription.Segments.{
  TranscribeItem, Segment, Draft, empty_draft, add_punctuation, add_word, add_item, add_items,
  items_to_segments, reverse_onto, max_words, flush_segment,
}

-- A segment that is worth showing: it has text, and between one and twenty words.
abbrev pub IsReadable : Segment → Type 0
IsReadable s =
    (truthy s.text ≡ true) × (0 < s.confidence.denominator) × (s.confidence.denominator ≤ max_words)

record IsTidy (d : Draft) : Type 0 where
  readable : All IsReadable d.segments
  short : d.word_count < max_words

add_punctuation-IsTidy : (s : String) (d : Draft) → IsTidy d → IsTidy (add_punctuation s d)
unfolding add_punctuation
add_punctuation-IsTidy s d h = ground arith

add_word-IsTidy :
    (s : String) (c t u : ℕ) (speaker : Option String) (d : Draft)
    → IsTidy d
    → IsTidy (add_word s c t u speaker d)
unfolding add_word
add_word-IsTidy s c t u speaker d h = ground arith

All-reverse_onto :
    (ss out : List Segment)
    → All IsReadable ss
    → All IsReadable out
    → All IsReadable (reverse_onto ss out)
All-reverse_onto [] out h k = k
All-reverse_onto (s ∷ ss) out h k = All-reverse_onto ss (s ∷ out) h.1 (h.0, k)

module _ (parse_time : String → ℕ) (default_confidence : ℕ)
    (speakers : String → Option String) where
  add_item-IsTidy :
      (item : TranscribeItem) (d : Draft)
      → IsTidy d
      → IsTidy (add_item parse_time default_confidence speakers item d)
  unfolding add_item
  add_item-IsTidy item d h = elim (Bool-cases item.is_punctuation) [
    | inl p ↦ rw p (add_punctuation-IsTidy (or_else item.content "") d h)
    | inr p ↦ rw p (
        add_word-IsTidy (or_else item.content "") (or_else item.confidence default_confidence)
          (parse_time (or_else item.start_time "0")) (parse_time (or_else item.end_time "0"))
          (speakers (or_else item.start_time "")) d h)
  ]

  add_items-IsTidy :
      (items : List TranscribeItem) (d : Draft)
      → IsTidy d
      → IsTidy (add_items parse_time default_confidence speakers items d)
  unfolding add_items
  add_items-IsTidy [] d h = h
  add_items-IsTidy (item ∷ items) d h =
      add_items-IsTidy items (add_item parse_time default_confidence speakers item d)
        (add_item-IsTidy item d h)

  -- Every segment of a batch result has text, and holds between one and twenty words.
  pub items_to_segments-IsReadable :
      (items : List TranscribeItem)
      → All IsReadable (items_to_segments parse_time default_confidence speakers items)
  unfolding items_to_segments
  items_to_segments-IsReadable items =
      let d = add_items parse_time default_confidence speakers items empty_draft in
      let h = add_items-IsTidy items empty_draft (ground arith) in
      All-reverse_onto (flush_segment d).segments [] (ground arith) tt
