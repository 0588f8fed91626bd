-- ===== src/TranscriptStore/Synced.antt =====
-- transcriptionStore.ts: after a reconnection the transcript has every row of the server.
use nangman_note.Base.{
  ℕ, String, List, [], ◌∷◌, ◌++◌, map, ◌≡◌, ◌⊎◌, inl, inr, ◌≤◌, refl, arith, filter,
}
use nangman_note.TranscriptStore.{
  TranscriptionState, ServerSegment, insert_by, sort_by, from_server, synced_segments,
  is_local_tail, merged_segments, sync_segments_from_server,
}

module _ {A : Type 0} (start : A → ℕ) where
  abbrev pub Sorted : List A → Type 0
  Sorted [] = Unit
  Sorted (x ∷ []) = Unit
  Sorted (x ∷ y ∷ ys) = (start x ≤ start y) × Sorted (y ∷ ys)

  insert_by-Sorted : (x : A) (xs : List A) → Sorted xs → Sorted (insert_by start x xs)
  unfolding insert_by
  insert_by-Sorted x [] s = tt
  insert_by-Sorted x (y ∷ []) s = ground arith
  insert_by-Sorted x (y ∷ z ∷ zs) s = grind (arith, insert_by-Sorted x (z ∷ zs))

  sort_by-Sorted : (xs : List A) → Sorted (sort_by start xs)
  unfolding sort_by
  sort_by-Sorted [] = tt
  sort_by-Sorted (x ∷ xs) = insert_by-Sorted x (sort_by start xs) (sort_by-Sorted xs)

abbrev pub Mem : {A : Type 0} → A → List A → Type 0
Mem a [] = ⊥
Mem a (x ∷ xs) = (a ≡ x) ⊎ Mem a xs

module _ {A : Type 0} (start : A → ℕ) where
  insert_by-here : (x : A) (xs : List A) → Mem x (insert_by start x xs)
  unfolding insert_by
  insert_by-here x [] = inl refl
  insert_by-here x (y ∷ ys) = grind (arith, insert_by-here x ys)

  insert_by-there : (a x : A) (xs : List A) → Mem a xs → Mem a (insert_by start x xs)
  unfolding insert_by
  insert_by-there a x [] m = inr m
  insert_by-there a x (y ∷ ys) m = grind (arith, insert_by-there a x ys)

  sort_by-Mem : (a : A) (xs : List A) → Mem a xs → Mem a (sort_by start xs)
  unfolding sort_by
  sort_by-Mem a [] m = elim m [ ]
  sort_by-Mem a (x ∷ xs) (inl e) = rw e (insert_by-here x (sort_by start xs))
  sort_by-Mem a (x ∷ xs) (inr m) = insert_by-there a x (sort_by start xs) (sort_by-Mem a xs m)

map-Mem : {A B : Type 0} (f : A → B) (a : A) (xs : List A) → Mem a xs → Mem (f a) (map f xs)
map-Mem f a [] m = elim m [ ]
map-Mem f a (x ∷ xs) (inl e) = inl (rw e refl)
map-Mem f a (x ∷ xs) (inr m) = inr (map-Mem f a xs m)

append-Mem : {A : Type 0} (a : A) (xs ys : List A) → Mem a xs → Mem a (xs ++ ys)
append-Mem a [] ys m = elim m [ ]
append-Mem a (x ∷ xs) ys (inl e) = inl e
append-Mem a (x ∷ xs) ys (inr m) = inr (append-Mem a xs ys m)

-- After a synchronisation with at least one row, the segments stand in the order of their start,
-- and every row of the server is among them with its cleaned text.
pub synced-Sorted :
    (sanitize normalize : String → String) (r : ServerSegment) (rows : List ServerSegment)
    (s : TranscriptionState) (row : ServerSegment)
    → Mem row (r ∷ rows)
    → let after = (sync_segments_from_server sanitize normalize (r ∷ rows) s).segments in
      Sorted (λ x. x.start_time) after
      × Mem (from_server sanitize normalize s.segments row) after
      × ((from_server sanitize normalize s.segments row).text ≡ sanitize row.text)
unfolding sync_segments_from_server merged_segments synced_segments from_server
synced-Sorted sanitize normalize r rows s row m =
    let ss = s.segments in
    let synced = synced_segments sanitize normalize (r ∷ rows) ss in
    (
      sort_by-Sorted (λ x. x.start_time)
          (synced ++ filter (is_local_tail sanitize normalize synced) ss),
      sort_by-Mem (λ x. x.start_time) (from_server sanitize normalize ss row)
          (synced ++ filter (is_local_tail sanitize normalize synced) ss)
          (append-Mem (from_server sanitize normalize ss row) synced _ (
            map-Mem (from_server sanitize normalize ss) row (sort_by (λ x. x.start_time) (r ∷ rows))
              (sort_by-Mem (λ x. x.start_time) row (r ∷ rows) m))),
      refl,
    )
