-- ===== src/Transcription/Segments/Lossless.antt =====
-- No step of `itemsToSegments` (transcription-result-collector.service.ts) loses a character, white
-- space apart.
use text.Mathlib.TextLemmas.{nil-append}
use nangman_note.Base.{
  ℕ, ◌+◌, ◌<◌, String, true, false, Option, List, [], ◌∷◌, ◌++◌, ◌≡◌, refl, arith, truthy, is_space,
  trim, ◌<>◌, All, or_else, if◌then◌else◌, Bool-cases, inl, inr, ◌||◌, ◌&&◌, ltb, leb, ◌==◌, ◌⊎◌,
}
use nangman_note.Transcription.Segments.{
  TranscribeItem, Segment, Draft, add_punctuation, add_word, reverse_onto, is_sentence_end, differs,
  max_words, max_span_ms, flush_if_long, flush_segment, append_word, open_segment, split_on_speaker,
}
use nangman_note.Transcription.Segments.Texts.{
  append_assoc, append_nil, has_ink, has_ink-append, ink, ink-append, ink-trim, truthy-appended,
  truthy-trim,
}

-- What is written in the items, and in the segments, whose latest stands first.
abbrev pub content_of : TranscribeItem → String
content_of item = or_else item.content ""

abbrev pub items_ink : List TranscribeItem → String
items_ink [] = ""
items_ink (item ∷ items) = ink (content_of item) <> items_ink items

abbrev pub segments_ink : List Segment → String
segments_ink [] = ""
segments_ink (s ∷ ss) = ink s.text <> segments_ink ss

abbrev pub drafted_ink : List Segment → String
drafted_ink [] = ""
drafted_ink (s ∷ ss) = drafted_ink ss <> ink s.text

pub items_ink-snoc :
    (items : List TranscribeItem) (item : TranscribeItem)
    → items_ink (items ++ (item ∷ [])) ≡ items_ink items <> ink (content_of item)
items_ink-snoc [] item = rw (nil-append, append_nil) refl
items_ink-snoc (x ∷ items) item = rw (items_ink-snoc items item, append_assoc) refl

pub segments_ink-reverse_onto :
    (ss out : List Segment)
    → segments_ink (reverse_onto ss out) ≡ drafted_ink ss <> segments_ink out
segments_ink-reverse_onto [] out = rw nil-append refl
segments_ink-reverse_onto (s ∷ ss) out =
    rw (segments_ink-reverse_onto ss (s ∷ out), append_assoc) refl

-- All that was written so far is in the draft, and an open segment with words is not blank.
pub record IsKept (text : String) (d : Draft) : Type 0 where
  pub total : drafted_ink d.segments <> ink d.current_text ≡ text
  pub inked : 0 < d.word_count → has_ink d.current_text ≡ true

pub flush-IsKept :
    (text : String) (d : Draft) → 0 < d.word_count → IsKept text d → IsKept text (flush_segment d)
unfolding ink
flush-IsKept text d w k =
    let shown : truthy (trim d.current_text) && ltb 0 d.word_count ≡ true =
      ground (arith, truthy-trim d.current_text (k.inked w), w) in
    rw shown (record {
      total = rw (append_nil, ink-trim d.current_text) k.total;
      inked = λ h. ground arith;
    })

pub add_punctuation-IsKept :
    (text s : String) (d : Draft) → IsKept text d → IsKept (text <> ink s) (add_punctuation s d)
unfolding add_punctuation
add_punctuation-IsKept text s d k =
    let d' : Draft = record d { current_text = d.current_text <> s } in
    let kept : IsKept (text <> ink s) d' = record {
      total = rw (ink-append d.current_text s, ← k.total, append_assoc) refl;
      inked = λ w.
          rw (ink-append d.current_text s)
            (truthy-appended (ink d.current_text) (ink s) (k.inked w));
    } in
    elim (Bool-cases (is_sentence_end s && ltb 0 d.word_count)) [
      | inl e ↦ rw e (flush-IsKept (text <> ink s) d' (ground arith) kept)
      | inr e ↦ rw e kept
    ]

pub ink-space : ink " " ≡ ""
unfolding ink is_space
ink-space = refl

pub ink-joined : (s : String) → ink (if truthy s then s <> " " else s) ≡ ink s
ink-joined s = elim (Bool-cases (truthy s)) [
  | inl e ↦ rw (e, ink-append s " ", ink-space) (append_nil (ink s))
  | inr e ↦ rw e refl
]

pub append_word-IsKept :
    (text s : String) (c u : ℕ) (speaker : Option String) (d : Draft)
    → has_ink s ≡ true
    → drafted_ink d.segments <> ink d.current_text ≡ text
    → IsKept (text <> ink s) (append_word s c u speaker d)
append_word-IsKept text s c u speaker d h k =
    let joined = if truthy d.current_text then d.current_text <> " " else d.current_text in
    record {
      total = rw (ink-append joined s, ink-joined d.current_text, ← k, append_assoc) refl;
      inked = λ w. has_ink-append joined s h;
    }

-- The item is a punctuation mark.
abbrev pub IsMark : TranscribeItem → Type 0
IsMark item = item.is_punctuation ≡ true

-- The items up to now: those whose text has a word with it, and the marks that wait for one.
pub record IsTailed (done : List TranscribeItem) (d : Draft) : Type 0 where
  pub kept : List TranscribeItem
  pub dropped : List TranscribeItem
  pub parts : done ≡ kept ++ dropped
  pub marks : All IsMark dropped
  pub closed : (0 < d.word_count) ⊎ (drafted_ink d.segments ≡ items_ink kept)

pub append_none : (items : List TranscribeItem) → items ++ [] ≡ items
append_none [] = refl
append_none (x ∷ items) = rw (append_none items) refl

pub open-IsTailed : (done : List TranscribeItem) (d : Draft) → 0 < d.word_count → IsTailed done d
open-IsTailed done d w = record {
  kept = done;
  dropped = [];
  parts = rw (append_none done) refl;
  marks = tt;
  closed = inl w;
}

pub flushed-IsTailed :
    (done : List TranscribeItem) (d : Draft)
    → IsKept (items_ink done) d
    → d.current_text ≡ ""
    → IsTailed done d
unfolding ink
flushed-IsTailed done d k e = record {
  kept = done;
  dropped = [];
  parts = rw (append_none done) refl;
  marks = tt;
  closed = inr (rw (← k.total, e) (rw (append_nil (drafted_ink d.segments)) refl));
}

-- What the loop keeps.
unfoldable pub IsLossless : List TranscribeItem → Draft → Type 0
IsLossless done d = IsKept (items_ink done) d × IsTailed done d

pub append_assoc_items : (xs ys zs : List TranscribeItem) → (xs ++ ys) ++ zs ≡ xs ++ (ys ++ zs)
append_assoc_items [] ys zs = refl
append_assoc_items (x ∷ xs) ys zs = rw (append_assoc_items xs ys zs) refl

pub All-snoc :
    (items : List TranscribeItem) (item : TranscribeItem)
    → All IsMark items
    → IsMark item
    → All IsMark (items ++ (item ∷ []))
All-snoc [] item h k = (k, tt)
All-snoc (x ∷ items) item h k = (h.0, All-snoc items item h.1 k)

-- A mark that waits for a word.
pub waiting-IsTailed :
    (done : List TranscribeItem) (item : TranscribeItem) (d : Draft)
    → IsMark item
    → ltb 0 d.word_count ≡ false
    → IsTailed done d
    → IsTailed (done ++ (item ∷ [])) (record d { current_text = d.current_text <> content_of item })
waiting-IsTailed done item d m w t = record {
  kept = t.kept;
  dropped = t.dropped ++ (item ∷ []);
  parts = rw (t.parts, append_assoc_items t.kept t.dropped (item ∷ [])) refl;
  marks = All-snoc t.dropped item t.marks m;
  closed = t.closed;
}

pub mark-IsTailed :
    (done : List TranscribeItem) (item : TranscribeItem) (d : Draft)
    → IsMark item
    → IsKept (items_ink (done ++ (item ∷ []))) (add_punctuation (content_of item) d)
    → IsTailed done d
    → IsTailed (done ++ (item ∷ [])) (add_punctuation (content_of item) d)
unfolding add_punctuation
mark-IsTailed done item d m k t = elim (Bool-cases (ltb 0 d.word_count)) [
  | inl w ↦ elim (Bool-cases (is_sentence_end (content_of item))) [
    | inl e ↦ flushed-IsTailed _ _ k (rw (w, e) refl)
    | inr e ↦ open-IsTailed _ _ (rw (w, e) (ground (arith, w)))
  ]
  | inr w ↦ elim (Bool-cases (is_sentence_end (content_of item))) [
    | inl e ↦ rw (w, e) (waiting-IsTailed done item d m w t)
    | inr e ↦ rw (w, e) (waiting-IsTailed done item d m w t)
  ]
]

pub mark-IsLossless :
    (done : List TranscribeItem) (item : TranscribeItem) (d : Draft)
    → IsMark item
    → IsLossless done d
    → IsLossless (done ++ (item ∷ [])) (add_punctuation (content_of item) d)
unfolding IsLossless
mark-IsLossless done item d m (k, t) =
    let k' : IsKept (items_ink (done ++ (item ∷ []))) (add_punctuation (content_of item) d) =
      rw (items_ink-snoc done item)
        (add_punctuation-IsKept (items_ink done) (content_of item) d k) in
    (k', mark-IsTailed done item d m k' t)

pub split-IsKept :
    (text : String) (speaker : Option String) (d : Draft)
    → IsKept text d
    → IsKept text (split_on_speaker speaker d)
split-IsKept text speaker d k =
    elim (Bool-cases (differs speaker d.current_speaker && ltb 0 d.word_count)) [
      | inl e ↦ rw e (flush-IsKept text d (ground (arith, e)) k)
      | inr e ↦ rw e k
    ]

pub opened-total :
    (text : String) (start_time : ℕ) (speaker : Option String) (d : Draft)
    → IsKept text d
    → drafted_ink (open_segment start_time speaker d).segments
        <> ink (open_segment start_time speaker d).current_text
      ≡ text
opened-total text start_time speaker d k = elim (Bool-cases (d.word_count == 0)) [
  | inl e ↦ rw e k.total
  | inr e ↦ rw e k.total
]

pub long-IsLossless :
    (done : List TranscribeItem) (end_time : ℕ) (d : Draft)
    → 0 < d.word_count
    → IsKept (items_ink done) d
    → IsLossless done (flush_if_long end_time d)
unfolding IsLossless
long-IsLossless done end_time d w k =
    elim (Bool-cases
      (leb max_words d.word_count || leb (d.current_start_time + max_span_ms) end_time)) [
        | inl e ↦
            let k' = flush-IsKept (items_ink done) d w k in
            rw e (k', flushed-IsTailed done (flush_segment d) k' refl)
        | inr e ↦ rw e (k, open-IsTailed done d w)
      ]

pub word-IsLossless :
    (done : List TranscribeItem) (item : TranscribeItem) (c t u : ℕ) (speaker : Option String)
    (d : Draft)
    → has_ink (content_of item) ≡ true
    → IsLossless done d
    → IsLossless (done ++ (item ∷ [])) (add_word (content_of item) c t u speaker d)
unfolding add_word IsLossless
word-IsLossless done item c t u speaker d h (k, l) =
    let d₂ = open_segment t speaker (split_on_speaker speaker d) in
    let total =
      opened-total (items_ink done) t speaker (split_on_speaker speaker d)
        (split-IsKept (items_ink done) speaker d k) in
    let d₃ = append_word (content_of item) c u speaker d₂ in
    let k₃ : IsKept (items_ink (done ++ (item ∷ []))) d₃ =
      rw (items_ink-snoc done item)
        (append_word-IsKept (items_ink done) (content_of item) c u speaker d₂ h total) in
    long-IsLossless (done ++ (item ∷ [])) u d₃ (omega arith) k₃
