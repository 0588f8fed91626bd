-- ===== src/Streaming/Order/Buffer.antt =====
-- The buffer of pending chunks (`bufferPendingChunk` in audioStreamingRuntime.ts) keeps its order.
use nangman_note.Base.{ℕ, ◌+◌, ◌≤◌, ◌<◌, List, [], ◌∷◌, ◌++◌, ◌≡◌, arith, length, if◌then◌else◌}
use nangman_note.Streaming.Runtime.{
  PendingChunk, max_pending_chunks, insert_by_seq, drop_oldest, buffer_chunks, is_newest,
  last_seq_or,
}

-- The numbers ascend strictly, from above `lo` to below `hi`.
abbrev pub Ascending : ℕ → List PendingChunk → ℕ → Type 0
Ascending lo [] hi = lo < hi
Ascending lo (c ∷ cs) hi = (lo < c.seq) × Ascending c.seq cs hi

pub Ascending-le :
    (lo lo' hi : ℕ) (cs : List PendingChunk) → lo ≤ lo' → Ascending lo' cs hi → Ascending lo cs hi
Ascending-le lo lo' hi [] h a = omega arith
Ascending-le lo lo' hi (c ∷ cs) h a = (omega arith, a.1)

pub Ascending-lt : (lo hi : ℕ) (cs : List PendingChunk) → Ascending lo cs hi → lo < hi
Ascending-lt lo hi [] a = a
Ascending-lt lo hi (c ∷ cs) a = omega (arith, Ascending-lt c.seq hi cs a.1)

Ascending-append :
    (lo hi : ℕ) (cs : List PendingChunk) (c : PendingChunk)
    → c.seq ≡ hi
    → Ascending lo cs hi
    → Ascending lo (cs ++ c ∷ []) (hi + 1)
Ascending-append lo hi [] c e a = omega arith
Ascending-append lo hi (x ∷ cs) c e a = (a.0, Ascending-append x.seq hi cs c e a.1)

last_seq_or-lt : (lo hi : ℕ) (cs : List PendingChunk) → Ascending lo cs hi → last_seq_or lo cs < hi
last_seq_or-lt lo hi [] a = a
last_seq_or-lt lo hi (x ∷ cs) a = last_seq_or-lt x.seq hi cs a.1

le-last_seq_or : (lo hi : ℕ) (cs : List PendingChunk) → Ascending lo cs hi → lo ≤ last_seq_or lo cs
le-last_seq_or lo hi [] a = omega arith
le-last_seq_or lo hi (x ∷ cs) a = omega (arith, le-last_seq_or x.seq hi cs a.1)

Ascending-drop_oldest :
    (lo hi : ℕ) (cs : List PendingChunk) → Ascending lo cs hi → Ascending lo (drop_oldest cs) hi
unfolding drop_oldest
Ascending-drop_oldest lo hi [] a = a
Ascending-drop_oldest lo hi (x ∷ cs) a =
    ground (arith, Ascending-drop_oldest x.seq hi cs a.1, Ascending-le lo x.seq hi (drop_oldest cs))

length-drop_oldest : (cs : List PendingChunk) → length (drop_oldest cs) ≤ max_pending_chunks
unfolding drop_oldest
length-drop_oldest [] = omega arith
length-drop_oldest (x ∷ cs) = ground (arith, length-drop_oldest cs)

pub length-buffer_chunks :
    (c : PendingChunk) (cs : List PendingChunk) → length (buffer_chunks c cs) ≤ max_pending_chunks
unfolding buffer_chunks
length-buffer_chunks c cs =
    length-drop_oldest (if is_newest c cs then cs ++ c ∷ [] else insert_by_seq c cs)

-- A chunk that was just captured goes to the end.
pub Ascending-buffer_new :
    (lo hi : ℕ) (c : PendingChunk) (cs : List PendingChunk)
    → c.seq ≡ hi
    → Ascending lo cs hi
    → Ascending lo (buffer_chunks c cs) (hi + 1)
unfolding buffer_chunks
Ascending-buffer_new lo hi c [] e a =
    Ascending-drop_oldest lo (hi + 1) (c ∷ []) (Ascending-append lo hi [] c e a)
Ascending-buffer_new lo hi c (x ∷ cs) e a = ground (
  arith,
  last_seq_or-lt x.seq hi cs a.1,
  Ascending-drop_oldest lo (hi + 1) ((x ∷ cs) ++ c ∷ []),
  Ascending-append lo hi (x ∷ cs) c e a,
)

-- A chunk that comes back goes before all that were captured after it.
pub Ascending-buffer_again :
    (lo hi : ℕ) (c : PendingChunk) (cs : List PendingChunk)
    → Ascending lo (c ∷ cs) hi
    → Ascending lo (buffer_chunks c cs) hi
unfolding buffer_chunks
Ascending-buffer_again lo hi c [] a = Ascending-drop_oldest lo hi (c ∷ []) a
Ascending-buffer_again lo hi c (x ∷ cs) a =
    ground (arith, le-last_seq_or x.seq hi cs a.1.1, Ascending-drop_oldest lo hi (c ∷ x ∷ cs) a)
