-- ===== src/Transcription/Segments/Ink.antt =====
-- No character of a batch result is lost on the way to its segments (`itemsToSegments` of
-- transcription-result-collector.service.ts), white space apart.
use nangman_note.Base.{
  ℕ, String, true, false, Option, List, [], ◌∷◌, ◌++◌, ◌≡◌, refl, ◌∙◌, arith, All, or_else,
  if◌then◌else◌, Bool-cases, inl, inr, ltb,
}
use nangman_note.Transcription.Segments.{
  TranscribeItem, Draft, empty_draft, add_punctuation, add_word, add_item, add_items,
  items_to_segments, flush_segment,
}
use nangman_note.Transcription.Segments.Texts.{append_nil, has_ink, ink}
use nangman_note.Transcription.Segments.Lossless.{
  IsLossless, IsMark, append_assoc_items, append_none, content_of, drafted_ink, flush-IsKept,
  items_ink, mark-IsLossless, segments_ink, segments_ink-reverse_onto, word-IsLossless,
}

-- A word has a character that is no white space.
abbrev pub HasInk : TranscribeItem → Type 0
HasInk item = if item.is_punctuation then Unit {0} else (has_ink (content_of item) ≡ true)

module _ (parse_time : String → ℕ) (default_confidence : ℕ)
    (speakers : String → Option String) where
  added_mark :
      (item : TranscribeItem) (d : Draft)
      → IsMark item
      → add_item parse_time default_confidence speakers item d ≡ add_punctuation (content_of item) d
  unfolding add_item
  added_mark item d p = rw p refl

  added_word :
      (item : TranscribeItem) (d : Draft)
      → item.is_punctuation ≡ false
      → add_item parse_time default_confidence speakers item d
        ≡ add_word
            (content_of item)
            (or_else item.confidence default_confidence)
            (parse_time (or_else item.start_time "0"))
            (parse_time (or_else item.end_time "0"))
            (speakers (or_else item.start_time ""))
            d
  unfolding add_item
  added_word item d p = rw p refl

  add_item-IsLossless :
      (done : List TranscribeItem) (item : TranscribeItem) (d : Draft)
      → HasInk item
      → IsLossless done d
      → IsLossless (done ++ (item ∷ [])) (add_item parse_time default_confidence speakers item d)
  add_item-IsLossless done item d a l = elim (Bool-cases item.is_punctuation) [
    | inl p ↦ rw (added_mark item d p) (mark-IsLossless done item d p l)
    | inr p ↦
        let inked : has_ink (content_of item) ≡ true = ground (arith, p, a) in
        rw (added_word item d p) (
          word-IsLossless done item (or_else item.confidence default_confidence)
            (parse_time (or_else item.start_time "0")) (parse_time (or_else item.end_time "0"))
            (speakers (or_else item.start_time "")) d inked l)
  ]

  add_items-IsLossless :
      (items done : List TranscribeItem) (d : Draft)
      → All HasInk items
      → IsLossless done d
      → IsLossless (done ++ items) (add_items parse_time default_confidence speakers items d)
  unfolding add_items
  add_items-IsLossless [] done d a l = rw (append_none done) l
  add_items-IsLossless (item ∷ items) done d a l =
      rw (← append_assoc_items done (item ∷ []) items) (
        add_items-IsLossless items (done ++ (item ∷ []))
          (add_item parse_time default_confidence speakers item d) a.1
          (add_item-IsLossless done item d a.0 l))

  -- What the last flush leaves behind.
  flushed-ink :
      (items : List TranscribeItem) (d : Draft)
      → IsLossless items d
      → (kept dropped : List TranscribeItem) × (items ≡ kept ++ dropped)
        × All IsMark dropped
        × (drafted_ink (flush_segment d).segments ≡ items_ink kept)
  unfolding IsLossless ink
  flushed-ink items d (k, t) = elim (Bool-cases (ltb 0 d.word_count)) [
    | inl w ↦
        let k' = flush-IsKept (items_ink items) d (ground (arith, w)) k in
        (
          items,
          [],
          rw (append_none items) refl,
          tt,
          rw (← k'.total) (rw (append_nil (drafted_ink (flush_segment d).segments)) refl),
        )
    | inr w ↦
        let same : (flush_segment d).segments ≡ d.segments = ground (arith, w) in
        (t.kept, t.dropped, t.parts, t.marks, rw same (ground (arith, w, t.closed)))
  ]

  -- Where no word is blank, the segments hold, in order and without their white space, exactly the
  -- texts of the result's items up to some point, after which there are only punctuation marks: no
  -- character of a word is lost, repeated or moved.
  pub ink-items_to_segments :
      (items : List TranscribeItem)
      → All HasInk items
      → (kept dropped : List TranscribeItem) × (items ≡ kept ++ dropped)
        × All IsMark dropped
        × (segments_ink (items_to_segments parse_time default_confidence speakers items)
            ≡ items_ink kept)
  unfolding items_to_segments IsLossless ink
  ink-items_to_segments items a =
      let d = add_items parse_time default_confidence speakers items empty_draft in
      let start : IsLossless [] empty_draft = (
        record { total = refl; inked = λ w. ground arith },
        record { kept = []; dropped = []; parts = refl; marks = tt; closed = inr refl },
      ) in
      let (kept, dropped, parts, marks, e) =
        flushed-ink items d (add_items-IsLossless items [] empty_draft a start) in
      (
        kept,
        dropped,
        parts,
        marks,
        segments_ink-reverse_onto (flush_segment d).segments [] ∙ append_nil _ ∙ e,
      )
