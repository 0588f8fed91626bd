-- ===== src/Notes/Sources/Parts.antt =====
-- What the chunks of `splitNoteSources` hold, part by part.
use nangman_note.Base.{
  ℕ, suc, ◌+◌, ◌≤◌, ◌<◌, Option, some, List, [], ◌∷◌, ◌++◌, length, All, ◌≡◌, refl, ap, ◌∙◌, arith,
}
use nangman_note.Notes.Splitting.{Source, join}
use nangman_note.Notes.Sources.{
  NoteSourceChunk, tail_of, note_chunks, transcript_chunks, notes_of, transcripts_of, IsWithin,
  IsChunk,
}

pub append_nil : (s : Source) → s ++ [] ≡ s
append_nil [] = refl
append_nil (c ∷ s) = ap (λ t. c ∷ t) (append_nil s)

append_assoc : (s t u : Source) → (s ++ t) ++ u ≡ s ++ (t ++ u)
append_assoc [] t u = refl
append_assoc (c ∷ s) t u = ap (λ v. c ∷ v) (append_assoc s t u)

join-append : (xs ys : List Source) → join (xs ++ ys) ≡ join xs ++ join ys
join-append [] ys = refl
join-append (x ∷ xs) ys = grind (arith, join-append xs ys, append_assoc)

pub notes_of-append :
    (xs ys : List NoteSourceChunk) → notes_of (xs ++ ys) ≡ notes_of xs ++ notes_of ys
notes_of-append [] ys = refl
notes_of-append (x ∷ xs) ys = grind (arith, notes_of-append xs ys, append_assoc)

pub transcripts_of-append :
    (xs ys : List NoteSourceChunk)
    → transcripts_of (xs ++ ys) ≡ transcripts_of xs ++ transcripts_of ys
transcripts_of-append [] ys = refl
transcripts_of-append (x ∷ xs) ys = grind (arith, transcripts_of-append xs ys, append_assoc)

pub All-append :
    (P : NoteSourceChunk → Type 0) (xs ys : List NoteSourceChunk)
    → All P xs
    → All P ys
    → All P (xs ++ ys)
All-append P [] ys p q = q
All-append P (x ∷ xs) ys (h, p) q = (h, All-append P xs ys p q)

module _ (note_label : ℕ → Source) where
  pub notes_of-note_chunks :
      (i : ℕ) (p : Option Source) (xs : List Source)
      → notes_of (note_chunks note_label i p xs) ≡ join xs
  notes_of-note_chunks i p [] = refl
  notes_of-note_chunks i p (x ∷ xs) =
      ap (λ s. x ++ s) (notes_of-note_chunks (suc i) (some (tail_of x)) xs)

  pub transcripts_of-note_chunks :
      (i : ℕ) (p : Option Source) (xs : List Source)
      → transcripts_of (note_chunks note_label i p xs) ≡ []
  transcripts_of-note_chunks i p [] = refl
  transcripts_of-note_chunks i p (x ∷ xs) = transcripts_of-note_chunks (suc i) (some (tail_of x)) xs

  pub note_chunks-IsWithin :
      (max_chars i : ℕ) (p : Option Source) (xs : List Source)
      → All (IsChunk max_chars) xs
      → All (IsWithin max_chars) (note_chunks note_label i p xs)
  note_chunks-IsWithin max_chars i p [] h = tt
  note_chunks-IsWithin max_chars i p (x ∷ xs) ((lo, hi), h) =
      (omega arith, note_chunks-IsWithin max_chars (suc i) (some (tail_of x)) xs h)

module _ (transcript_label : ℕ → Source → Source) where
  pub notes_of-later_chunks :
      (i : ℕ) (p : Option Source) (xs : List Source)
      → notes_of (transcript_chunks transcript_label i [] p xs) ≡ []
  notes_of-later_chunks i p [] = refl
  notes_of-later_chunks i p (x ∷ xs) = notes_of-later_chunks (suc i) (some (tail_of x)) xs

  pub notes_of-transcript_chunks :
      (i : ℕ) (note : Source) (p : Option Source) (xs : List Source)
      → 0 < length (join xs)
      → notes_of (transcript_chunks transcript_label i note p xs) ≡ note
  notes_of-transcript_chunks i note p [] h = absurd (omega (arith, h))
  notes_of-transcript_chunks i note p (x ∷ xs) h =
      ap (λ s. note ++ s) (notes_of-later_chunks (suc i) (some (tail_of x)) xs) ∙ append_nil note

  pub transcripts_of-transcript_chunks :
      (i : ℕ) (note : Source) (p : Option Source) (xs : List Source)
      → transcripts_of (transcript_chunks transcript_label i note p xs) ≡ join xs
  transcripts_of-transcript_chunks i note p [] = refl
  transcripts_of-transcript_chunks i note p (x ∷ xs) =
      ap (λ s. x ++ s) (transcripts_of-transcript_chunks (suc i) [] (some (tail_of x)) xs)

  pub transcript_chunks-IsWithin :
      (max_chars budget i : ℕ) (note : Source) (p : Option Source) (xs : List Source)
      → length note + budget ≤ max_chars
      → All (IsChunk budget) xs
      → All (IsWithin max_chars) (transcript_chunks transcript_label i note p xs)
  transcript_chunks-IsWithin max_chars budget i note p [] fits h = tt
  transcript_chunks-IsWithin max_chars budget i note p (x ∷ xs) fits ((lo, hi), h) = (
    omega arith,
    transcript_chunks-IsWithin max_chars budget (suc i) [] (some (tail_of x)) xs (omega arith) h,
  )
