-- ===== src/Transcription/Segments/Timeline.antt =====
-- The times of the segments of a batch result (`itemsToSegments`, `mergeBatchSegments` of
-- transcription-result-collector.service.ts).
use nangman_note.Base.{
  ℕ, ◌+◌, ◌<◌, ◌≤◌, String, Option, List, [], ◌∷◌, arith, ◌<>◌, or_else, if◌then◌else◌, Bool-cases,
  inl, inr,
}
use nangman_note.Transcription.Segments.{
  TranscribeItem, Segment, Draft, empty_draft, add_punctuation, add_word, add_item, add_items,
  items_to_segments, reverse_onto, flush_segment, append_word, open_segment, split_on_speaker,
  place_segments,
}

-- The latest first: each lies before the one to its left, and the first before `bound`.
abbrev Settled : ℕ → List Segment → Type 0
Settled bound [] = Unit
Settled bound (s ∷ ss) =
    (s.start_time ≤ s.end_time) × (s.end_time ≤ bound) × Settled s.start_time ss

Settled-le : (b b' : ℕ) (ss : List Segment) → b ≤ b' → Settled b ss → Settled b' ss
Settled-le b b' [] h s = tt
Settled-le b b' (x ∷ ss) h s = (s.0, omega arith, s.2)

-- The first first: none starts before `lo` or before its predecessor has ended.
abbrev pub Chronological : ℕ → List Segment → Type 0
Chronological lo [] = Unit
Chronological lo (s ∷ ss) =
    (lo ≤ s.start_time) × (s.start_time ≤ s.end_time) × Chronological s.end_time ss

Chronological-le :
    (lo lo' : ℕ) (ss : List Segment) → lo ≤ lo' → Chronological lo' ss → Chronological lo ss
Chronological-le lo lo' [] h c = tt
Chronological-le lo lo' (s ∷ ss) h c = (omega arith, c.1, c.2)

Chronological-reverse_onto :
    (b : ℕ) (ss out : List Segment)
    → Settled b ss
    → Chronological b out
    → Chronological 0 (reverse_onto ss out)
Chronological-reverse_onto b [] out s c = Chronological-le 0 b out (omega arith) c
Chronological-reverse_onto b (x ∷ ss) out s c =
    Chronological-reverse_onto x.start_time ss (x ∷ out) s.2
      (omega arith, s.0, Chronological-le x.end_time b out s.1 c)

-- The draft after the words up to time `t`.
record IsTimed (t : ℕ) (d : Draft) : Type 0 where
  settled : Settled t d.segments
  opened : 0 < d.word_count → Settled d.current_start_time d.segments
  spans : 0 < d.word_count → d.current_start_time ≤ d.current_end_time
  reached : 0 < d.word_count → d.current_end_time ≤ t

flush-IsTimed : (t : ℕ) (d : Draft) → IsTimed t d → IsTimed t (flush_segment d)
flush-IsTimed t d h = ground arith

add_punctuation-IsTimed :
    (t : ℕ) (s : String) (d : Draft) → IsTimed t d → IsTimed t (add_punctuation s d)
unfolding add_punctuation
add_punctuation-IsTimed t s d h =
    ground (arith, flush-IsTimed t (record d { current_text = d.current_text <> s }))

open-IsTimed :
    (t u : ℕ) (speaker : Option String) (d : Draft)
    → t ≤ u
    → IsTimed t d
    → (Settled (open_segment u speaker d).current_start_time d.segments)
      × ((open_segment u speaker d).current_start_time ≤ u)
open-IsTimed t u speaker d l h = ground (arith, Settled-le t u d.segments)

append-IsTimed :
    (t u v : ℕ) (s : String) (c : ℕ) (speaker : Option String) (d : Draft)
    → t ≤ u
    → u ≤ v
    → IsTimed t d
    → IsTimed v (append_word s c v speaker (open_segment u speaker d))
append-IsTimed t u v s c speaker d l m h =
    ground (arith, open-IsTimed t u speaker d l h, Settled-le t v d.segments)

add_word-IsTimed :
    (t u v : ℕ) (s : String) (c : ℕ) (speaker : Option String) (d : Draft)
    → t ≤ u
    → u ≤ v
    → IsTimed t d
    → IsTimed v (add_word s c u v speaker d)
unfolding add_word
add_word-IsTimed t u v s c speaker d l m h =
    let d₁ = split_on_speaker speaker d in
    let d₃ = append_word s c v speaker (open_segment u speaker d₁) in
    ground (arith, flush-IsTimed t d h, append-IsTimed t u v s c speaker d₁ l m, flush-IsTimed v d₃)

module _ (parse_time : String → ℕ) (default_confidence : ℕ)
    (speakers : String → Option String) where
  abbrev starts_at : TranscribeItem → ℕ
  starts_at item = parse_time (or_else item.start_time "0")

  abbrev ends_at : TranscribeItem → ℕ
  ends_at item = parse_time (or_else item.end_time "0")

  -- The words of the result follow one another in time.
  abbrev pub InTime : ℕ → List TranscribeItem → Type 0
  InTime t [] = Unit
  InTime t (item ∷ items) =
      if item.is_punctuation
      then InTime t items
      else ((t ≤ starts_at item) × (starts_at item ≤ ends_at item) × InTime (ends_at item) items)

  add_items-IsTimed :
      (items : List TranscribeItem) (t : ℕ) (d : Draft)
      → InTime t items
      → IsTimed t d
      → (u : ℕ) × IsTimed u (add_items parse_time default_confidence speakers items d)
  unfolding add_items
  add_items-IsTimed [] t d w h = (t, h)
  add_items-IsTimed (item ∷ items) t d w h = elim (Bool-cases item.is_punctuation) [
    | inl p ↦
        add_items-IsTimed items t (add_item parse_time default_confidence speakers item d)
          (rw p at w)
          (unfold add_item in (rw p (add_punctuation-IsTimed t (or_else item.content "") d h)))
    | inr p ↦
        let w' : (t ≤ starts_at item)
            × (starts_at item ≤ ends_at item)
            × InTime (ends_at item) items =
          (rw p at w) in
        add_items-IsTimed items (ends_at item)
          (add_item parse_time default_confidence speakers item d) w'.2
          (unfold add_item in
            (rw p (
              add_word-IsTimed t (starts_at item) (ends_at item) (or_else item.content "")
                (or_else item.confidence default_confidence) (speakers (or_else item.start_time ""))
                d w'.0 w'.1 h)))
  ]

  -- If the words of a result follow one another in time, so do its segments.
  items_to_segments-Chronological :
      (items : List TranscribeItem)
      → InTime 0 items
      → Chronological 0 (items_to_segments parse_time default_confidence speakers items)
  unfolding items_to_segments
  items_to_segments-Chronological items w =
      let d = add_items parse_time default_confidence speakers items empty_draft in
      let (u, h) = add_items-IsTimed items 0 empty_draft w (ground arith) in
      Chronological-reverse_onto u (flush_segment d).segments [] (flush-IsTimed u d h).settled tt

  place_segments-Chronological :
      (job_id : String) (offset lo : ℕ) (ss : List Segment)
      → Chronological lo ss
      → Chronological (lo + offset) (place_segments job_id offset ss)
  unfolding place_segments
  place_segments-Chronological job_id offset lo [] c = tt
  place_segments-Chronological job_id offset lo (s ∷ ss) c =
      ground (arith, place_segments-Chronological job_id offset s.end_time ss c.2)

  -- On the meeting's timeline the segments of a job stand in order, none before the job's offset,
  -- if the words of its result follow one another in time.
  pub placed-Chronological :
      (job_id : String) (offset : ℕ) (items : List TranscribeItem)
      → InTime 0 items
      → Chronological offset (
          place_segments job_id offset
            (items_to_segments parse_time default_confidence speakers items))
  placed-Chronological job_id offset items w =
      Chronological-le offset (0 + offset)
        (place_segments job_id offset
          (items_to_segments parse_time default_confidence speakers items))
        (omega arith)
        (place_segments-Chronological job_id offset 0
          (items_to_segments parse_time default_confidence speakers items)
          (items_to_segments-Chronological items w))
