-- ===== src/Note/Interleaving.antt =====
-- `upsert` reads the row and writes it in two calls, and other requests write between the two. A
-- commit here is the second half of `upsert`, with a row that was read at any earlier time.
use nangman_note.Base.{
  eq_iff, not, Bool, ◌&&◌, ◌++◌, true, false, str_eq, is_ok, Outcome, ℕ, String, Option, none, some,
  List, [], ◌∷◌, ◌+◌, ◌≡◌, ◌⊎◌, inl, inr, arith, refl, Option-cases,
}
use nangman_note.Meeting.Context.{World, Services}
use nangman_note.Note.{
  NoteEntity, UpsertNoteDto, NoteRepository, assignment, write_note, update_existing, create_first,
  first_write_failed, settle_raced,
}
use nangman_note.Note.Register.{Register, IsLawfulNotes, view}

-- The write of `dto` took the register from `r` to `r'`: it was made on the revision that the
-- writer had seen.
abbrev pub Took : UpsertNoteDto → Register → Register → Type 0
Took dto r r' =
    (r.revision ≡ dto.expected_revision)
    × (r'.content ≡ dto.content)
    × (r'.revision ≡ r.revision + 1)

-- An accepted write took the register further, or found its text there.
abbrev pub Link : UpsertNoteDto → Register → Register → Type 0
Link dto r r' = Took dto r r' ⊎ ((r' ≡ r) × (r.content ≡ dto.content))

abbrev pub Chain : Register → List UpsertNoteDto → Register → Type 0
Chain r [] r' = r' ≡ r
Chain r (dto ∷ dtos) r' = (next : Register) × Link dto r next × Chain next dtos r'

-- The row that the writer had read has the text already.
abbrev pub has_text : Option NoteEntity → UpsertNoteDto → Bool
has_text none dto = false
has_text (some n) dto = str_eq n.content dto.content

-- The server told the writer that its text, which it had not read there, is stored.
abbrev pub is_accepted : Option NoteEntity → UpsertNoteDto → Outcome NoteEntity → Bool
is_accepted row dto out = is_ok out && not (has_text row dto)

abbrev pub logged : Bool → UpsertNoteDto → List UpsertNoteDto → List UpsertNoteDto
logged true dto dtos = dtos ++ (dto ∷ [])
logged false dto dtos = dtos

append-Chain :
    (dtos : List UpsertNoteDto) (r s t : Register) (dto : UpsertNoteDto)
    → Chain r dtos s
    → Link dto s t
    → Chain r (dtos ++ (dto ∷ [])) t
append-Chain [] r s t dto c k = (t, rw c at k, refl)
append-Chain (d ∷ dtos) r s t dto (next, k, c) k' = (next, k, append-Chain dtos next s t dto c k')

module _ {S : Type 0} (services : Services S) (notes : NoteRepository S)
    (lawful : IsLawfulNotes services notes) where
  abbrev seen : String → World S → Register
  seen id w = view services notes lawful id w

  -- What a commit does with the register, by whether it is accepted.
  abbrev pub Commits : UpsertNoteDto → Bool → Register → Register → Type 0
  Commits dto b r r' = (b ≡ true → Link dto r r') × (b ≡ false → r' ≡ r)

  update-Commits :
      (n : NoteEntity) (id : String) (dto : UpsertNoteDto) (now : ℕ) (w : World S)
      → let (out, w') = update_existing services notes n id dto now w in
        Commits dto (is_ok out) (seen id w) (seen id w')
  unfolding update_existing
  update-Commits n id dto now w =
      let w' = (notes.update id dto.expected_revision (assignment dto now) w.store).1 in
      grind (
        arith,
        lawful.update_affects id dto.expected_revision (assignment dto now) w.store (omega arith),
        lawful.update_assigns id dto.expected_revision (assignment dto now) w.store (omega arith),
        lawful.refreshes id w',
        lawful.refresh_keeps id w',
      )

  first-Commits :
      (id : String) (dto : UpsertNoteDto) (now : ℕ) (w : World S)
      → let (out, w') = write_note services notes none id dto now w in
        Commits dto (is_ok out) (seen id w) (seen id w')
  unfolding write_note create_first first_write_failed settle_raced
  first-Commits id dto now w =
      let w' = (notes.insert id dto.content 1 w.store).1 in
      elim (Option-cases (lawful.row_of id w.store)) [
        | inl e ↦ grind (
          arith,
          lawful.inserts id dto.content 1 w.store (omega arith),
          lawful.refreshes id w',
          lawful.refresh_keeps id w',
        )
        | inr (n, e) ↦ grind (
          arith,
          lawful.inserts id dto.content 1 w.store (omega arith),
          lawful.found id w',
          eq_iff n.content dto.content,
        )
      ]

  write-Commits :
      (row : Option NoteEntity) (id : String) (dto : UpsertNoteDto) (now : ℕ) (w : World S)
      → let (out, w') = write_note services notes row id dto now w in
        Commits dto (is_accepted row dto out) (seen id w) (seen id w')
  unfolding write_note
  write-Commits none id dto now w = grind (arith, first-Commits id dto now w)
  write-Commits (some n) id dto now w = grind (arith, update-Commits n id dto now w)

  -- Requests for one meeting in any order of their commits, with the writes that the server
  -- accepted, the first one first.
  pub data Interleaved (id : String) : World S → List UpsertNoteDto → World S → Type 0 where
    start : {w : World S} → Interleaved id w [] w
    commit :
        {v w : World S} {dtos : List UpsertNoteDto} (row : Option NoteEntity) (dto : UpsertNoteDto)
        (now : ℕ)
        → Interleaved id v dtos w
        → Interleaved id v
            (logged (is_accepted row dto (write_note services notes row id dto now w).0) dto dtos)
            (write_note services notes row id dto now w).1

  linked-Chain :
      (b : Bool) (dtos : List UpsertNoteDto) (r s t : Register) (dto : UpsertNoteDto)
      → Chain r dtos s
      → Commits dto b s t
      → Chain r (logged b dto dtos) t
  linked-Chain true dtos r s t dto c (k, same) = append-Chain dtos r s t dto c (k refl)
  linked-Chain false dtos r s t dto c (k, same) = rw (same refl) c

  -- While the database is up: however the commits of several editors interleave, and however old
  -- the rows are that they had read, the accepted writes form one chain from the note as it was to
  -- the note as it is. Each of them replaced the content whose revision its writer expected and
  -- raised the revision by one, or found its own text there, so none is lost and nothing else
  -- changes the note.
  pub Interleaved-Chain :
      (id : String) (v w : World S) (dtos : List UpsertNoteDto)
      → Interleaved id v dtos w
      → Chain (seen id v) dtos (seen id w)
  Interleaved-Chain id v w dtos start = refl
  Interleaved-Chain id v w dtos (commit {w = u} {dtos = before} row dto now i) =
      linked-Chain _ before (seen id v) (seen id u) _ dto (Interleaved-Chain id v u before i)
        (write-Commits row id dto now u)
