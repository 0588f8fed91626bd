-- ===== src/Notes/Splitting.antt =====
-- `splitSourceText`. A text is the list of its UTF-16 code units, and the loop's `start` is the
-- text that is left from there on. The regular expression for topic boundaries is a parameter: the
-- index of its last match in a window, whose first character is a line end.
use nangman_note.Base.{
  ℕ, zero, suc, ◌-◌, ◌*◌, ◌≤◌, ◌<◌, Bool, true, false, Option, none, some, List, [], ◌∷◌, ◌++◌,
  other, Outcome, ok, thrown, if◌then◌else◌, ltb, leb, ◌==◌, ◌&&◌, length, take, drop, All, ◌≡◌,
  inl, inr, refl, arith, length-take, length-take_le, length-drop, take-drop_append, Option-cases,
  ap, ◌∙◌,
}

abbrev pub Source : Type 0
Source = List ℕ

-- `lastIndexOf('\n')`.
abbrev pub step_index : Option ℕ → ℕ → Option ℕ
step_index (some i) c = some (suc i)
step_index none c = if c == 10 then some 0 else none

unfoldable pub last_newline : Source → Option ℕ
last_newline [] = none
last_newline (c ∷ s) = step_index (last_newline s) c

-- `charCodeAt`, which is NaN out of range.
abbrev pub char_code_at : Source → ℕ → Option ℕ
char_code_at [] i = none
char_code_at (c ∷ s) zero = some c
char_code_at (c ∷ s) (suc i) = char_code_at s i

abbrev pub is_high_surrogate : Option ℕ → Bool
is_high_surrogate none = false
is_high_surrogate (some c) = leb 0xd800 c && leb c 0xdbff

abbrev pub is_low_surrogate : Option ℕ → Bool
is_low_surrogate none = false
is_low_surrogate (some c) = leb 0xdc00 c && leb c 0xdfff

-- `if (index !== undefined && index >= maxChars / 2) end = index + 1`.
abbrev pub cut_after : ℕ → Option ℕ → ℕ → ℕ
cut_after max_chars none end = end
cut_after max_chars (some i) end = if leb max_chars (i * 2) then suc i else end

module _ (last_transition : Source → Option ℕ) where
  abbrev pub preferred_end : Source → ℕ → Bool → ℕ
  preferred_end window max_chars prefer =
      let end = cut_after max_chars (last_newline window) max_chars in
      if prefer then cut_after max_chars (last_transition window) end else end

  -- The end of the next chunk, counted from its start.
  unfoldable pub chunk_end : Source → ℕ → Bool → ℕ
  chunk_end text max_chars prefer =
      if leb (length text) max_chars
      then length text
      else (let end = preferred_end (take max_chars text) max_chars prefer in
          if is_high_surrogate (char_code_at text (end - 1)) then end - 1 else end)

  -- The loop, on the length of the text as fuel.
  unfoldable pub chunks_of : ℕ → Source → ℕ → Bool → List Source
  unfolding chunk_end
  chunks_of zero text max_chars prefer = []
  chunks_of (suc n) [] max_chars prefer = []
  chunks_of (suc n) (c ∷ s) max_chars prefer =
      let end = chunk_end (c ∷ s) max_chars prefer in
      take end (c ∷ s) ∷ chunks_of n (drop end (c ∷ s)) max_chars prefer

  unfoldable pub split_source_text : Source → ℕ → Bool → Outcome (List Source)
  unfolding chunks_of
  split_source_text text max_chars prefer =
      if ltb max_chars 2
      then thrown (other "Source chunk size must be an integer of at least 2")
      else ok (chunks_of (length text) text max_chars prefer)

abbrev pub join : List Source → Source
join [] = []
join (x ∷ xs) = x ++ join xs

-- A match of the regular expression begins in the window.
abbrev pub IsInWindow : (Source → Option ℕ) → Type 0
IsInWindow f = (s : Source) (i : ℕ) → f s ≡ some i → i < length s

last_newline-lt : (s : Source) (i : ℕ) → last_newline s ≡ some i → i < length s
unfolding last_newline
last_newline-lt [] i h = ground arith
last_newline-lt (c ∷ s) i h = elim (Option-cases (last_newline s)) [
  | inl e ↦ ground arith
  | inr (j, e) ↦ grind (arith, last_newline-lt s j e)
]

-- A cut stays between two and the limit.
cut_after_bounds :
    (max_chars : ℕ) (found : Option ℕ) (end : ℕ)
    → 2 ≤ max_chars
    → ((i : ℕ) → found ≡ some i → i < max_chars)
    → 2 ≤ end
    → end ≤ max_chars
    → (2 ≤ cut_after max_chars found end) × (cut_after max_chars found end ≤ max_chars)
cut_after_bounds max_chars none end two lt lo hi = (lo, hi)
cut_after_bounds max_chars (some i) end two lt lo hi = grind (arith, lt i refl)

high-not_low : (c : Option ℕ) → is_high_surrogate c ≡ true → is_low_surrogate c ≡ false
high-not_low none h = refl
high-not_low (some c) h = ground arith

char_code_at-length : (s : Source) → char_code_at s (length s) ≡ none
char_code_at-length [] = refl
char_code_at-length (c ∷ s) = char_code_at-length s

module _ (last_transition : Source → Option ℕ) (in_window : IsInWindow last_transition) where
  -- An index that is found in the window lies below the limit.
  window_lt :
      (f : Source → Option ℕ)
      → IsInWindow f
      → (text : Source) (max_chars i : ℕ) → f (take max_chars text) ≡ some i
      → i < max_chars
  window_lt f h text max_chars i e =
      grind (arith, h (take max_chars text) i e, length-take_le max_chars text)

  newline_bounds :
      (text : Source) (max_chars : ℕ)
      → 2 ≤ max_chars
      → (2 ≤ preferred_end last_transition (take max_chars text) max_chars false)
        × (preferred_end last_transition (take max_chars text) max_chars false ≤ max_chars)
  newline_bounds text max_chars two =
      cut_after_bounds max_chars (last_newline (take max_chars text)) max_chars two
        (window_lt last_newline last_newline-lt text max_chars) two (omega arith)

  preferred_end_bounds :
      (text : Source) (max_chars : ℕ) (prefer : Bool)
      → 2 ≤ max_chars
      → (2 ≤ preferred_end last_transition (take max_chars text) max_chars prefer)
        × (preferred_end last_transition (take max_chars text) max_chars prefer ≤ max_chars)
  preferred_end_bounds text max_chars false two = newline_bounds text max_chars two
  preferred_end_bounds text max_chars true two =
      let (lo, hi) = newline_bounds text max_chars two in
      cut_after_bounds max_chars (last_transition (take max_chars text))
        (preferred_end last_transition (take max_chars text) max_chars false) two
        (window_lt last_transition in_window text max_chars) lo hi

  -- A chunk is neither empty nor longer than allowed, and ends within the text.
  pub chunk_end_bounds :
      (text : Source) (max_chars : ℕ) (prefer : Bool)
      → 2 ≤ max_chars
      → 0 < length text
      → (0 < chunk_end last_transition text max_chars prefer)
        × (chunk_end last_transition text max_chars prefer ≤ max_chars)
        × (chunk_end last_transition text max_chars prefer ≤ length text)
  unfolding chunk_end
  chunk_end_bounds text max_chars prefer two nonempty =
      grind (arith, preferred_end_bounds text max_chars prefer two)

  -- With a limit of at least two, the two halves of a surrogate pair are never put into
  -- different chunks: behind a chunk that ends in a high surrogate no low one follows.
  pub chunk_end_keeps_pairs :
      (text : Source) (max_chars : ℕ) (prefer : Bool)
      → 2 ≤ max_chars
      → is_high_surrogate (char_code_at text (chunk_end last_transition text max_chars prefer - 1))
        ≡ true
      → is_low_surrogate (char_code_at text (chunk_end last_transition text max_chars prefer))
        ≡ false
  unfolding chunk_end
  chunk_end_keeps_pairs text max_chars prefer two h = grind (
    arith,
    high-not_low,
    char_code_at-length text,
    preferred_end_bounds text max_chars prefer two,
  )

  -- The chunks, one after the other, are the text.
  pub chunks_of-join :
      (n : ℕ) (text : Source) (max_chars : ℕ) (prefer : Bool)
      → 2 ≤ max_chars
      → length text ≤ n
      → join (chunks_of last_transition n text max_chars prefer) ≡ text
  unfolding chunks_of
  chunks_of-join zero [] max_chars prefer two h = refl
  chunks_of-join zero (c ∷ s) max_chars prefer two h = absurd (omega (arith, h))
  chunks_of-join (suc n) [] max_chars prefer two h = refl
  chunks_of-join (suc n) (c ∷ s) max_chars prefer two h =
      let end = chunk_end last_transition (c ∷ s) max_chars prefer in
      let (lo, hi, le) = chunk_end_bounds (c ∷ s) max_chars prefer two (omega arith) in
      ap (λ xs. take end (c ∷ s) ++ xs)
        (chunks_of-join n (drop end (c ∷ s)) max_chars prefer two
          (omega (arith, length-drop end (c ∷ s))))
      ∙ take-drop_append end (c ∷ s)

  pub chunks_of-bounds :
      (n : ℕ) (text : Source) (max_chars : ℕ) (prefer : Bool)
      → 2 ≤ max_chars
      → All
          (λ chunk. (0 < length chunk) × (length chunk ≤ max_chars))
          (chunks_of last_transition n text max_chars prefer)
  unfolding chunks_of
  chunks_of-bounds zero text max_chars prefer two = tt
  chunks_of-bounds (suc n) [] max_chars prefer two = tt
  chunks_of-bounds (suc n) (c ∷ s) max_chars prefer two =
      let end = chunk_end last_transition (c ∷ s) max_chars prefer in
      let (lo, hi, le) = chunk_end_bounds (c ∷ s) max_chars prefer two (omega arith) in
      (
        (omega (arith, length-take end (c ∷ s) le), omega (arith, length-take end (c ∷ s) le)),
        chunks_of-bounds n (drop end (c ∷ s)) max_chars prefer two,
      )

  -- With a limit of at least two, the text is cut into chunks that, joined, are the text again,
  -- and each of which holds at least one code unit and at most the limit.
  pub split_source_text_lossless :
      (text : Source) (max_chars : ℕ) (prefer : Bool)
      → 2 ≤ max_chars
      → (chunks : List Source) × (split_source_text last_transition text max_chars prefer
          ≡ ok chunks)
        × (join chunks ≡ text)
        × All (λ chunk. (0 < length chunk) × (length chunk ≤ max_chars)) chunks
  unfolding split_source_text
  split_source_text_lossless text max_chars prefer two = (
    chunks_of last_transition (length text) text max_chars prefer,
    ground arith,
    chunks_of-join (length text) text max_chars prefer two (omega arith),
    chunks_of-bounds (length text) text max_chars prefer two,
  )
