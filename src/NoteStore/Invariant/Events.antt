-- ===== src/NoteStore/Invariant/Events.antt =====
-- The calls of `loadNote` and of the editor keep a note's session sound.
use nangman_note.Base.{
  ℕ, String, Bool, true, false, Option, none, some, ◌≡◌, refl, not, ◌||◌, str_eq, arith, Bool-cases,
  inl, inr,
}
use nangman_note.NoteStore.Drafts.{NoteDraft}
use nangman_note.NoteStore.{
  Note, ErrorKind, load, save, conflict, idle, fetching, Desk, ApiError, backup, accept_server,
  publish,
}
use nangman_note.NoteStore.Loading.{
  is_loading_phase, start_load, load_answered, load_failed, set_content, typed, restore, resolve,
  restore_found, finish_load, contest, is_stale,
}
use nangman_note.NoteStore.Invariant.{
  Control, control, IsOrderly, IsSound, HasCopy, is_in_flight, backup-HasCopy, control-backup,
  accept_server-HasCopy, accept_server-IsSynced, control-accept_server,
}

-- Text that was just backed up is dirty, and the rest is as it was.
backup-IsSound :
    (now : ℕ) (d : Desk) → d.state.is_dirty ≡ true → IsOrderly (control d) → IsSound (backup now d)
backup-IsSound now d e s = record {
  copied = λ h. backup-HasCopy now d;
  synced = grind (arith, control-backup now d);
  orderly = rw (control-backup now d) s;
}

typed-IsOrderly :
    (kind : Option ErrorKind) (c : String) (d : Desk)
    → kind ≡ d.state.error_kind
    → IsOrderly (control d)
    → IsOrderly (control (publish (typed kind c) d))
typed-IsOrderly none c d e s = ground (arith, s)
typed-IsOrderly (some load) c d e s = ground (arith, s)
typed-IsOrderly (some save) c d e s = ground (arith, s)
typed-IsOrderly (some conflict) c d e s = ground (arith, s)

typed-dirty :
    (kind : Option ErrorKind) (c : String) (d : Desk)
    → (publish (typed kind c) d).state.is_dirty ≡ true
typed-dirty kind c d = ground arith

pub set_content-IsSound :
    (c : String) (now : ℕ) (d : Desk) → IsSound d → IsSound (set_content c now d)
unfolding set_content
set_content-IsSound c now d s = elim (Bool-cases (str_eq d.state.note_content c)) [
  | inl e ↦ rw e s
  | inr e ↦ rw e (
      backup-IsSound now (publish (typed d.state.error_kind c) d)
        (typed-dirty d.state.error_kind c d)
        (typed-IsOrderly d.state.error_kind c d refl s.orderly))
]

pub start_load-IsSound : (d : Desk) → IsSound d → IsSound (start_load d)
unfolding start_load
start_load-IsSound d s = record {
  copied = ground (arith, s.copied);
  synced = ground (arith, s.synced);
  orderly = ground (arith, s.orderly);
}

accepted-IsOrderly :
    (k : Control) (b : Bool)
    → IsOrderly k
    → is_in_flight k.saving ≡ false
    → IsOrderly
        (record k { dirty = b; loaded = true; blocked = false; contested = false; based = true })
accepted-IsOrderly k b s e = ground (arith, s)

accept_server-IsSound :
    (n : Note) (r : Bool) (now : ℕ) (d : Desk)
    → IsSound d
    → is_in_flight d.saving ≡ false
    → IsSound (accept_server n r now d)
accept_server-IsSound n r now d s e = record {
  copied = accept_server-HasCopy n r now d;
  synced = λ l. accept_server-IsSynced n r now d;
  orderly =
      rw (control-accept_server n r now d)
        (accepted-IsOrderly (control d) (accept_server n r now d).state.is_dirty s.orderly e);
}

pub resolve-IsSound :
    (o : Option Note) (b : Bool) (now : ℕ) (d : Desk)
    → o ≡ d.state.conflict
    → IsSound d
    → IsSound (resolve o b now d)
unfolding resolve
resolve-IsSound none b now d e s = s
resolve-IsSound (some n) b now d e s = accept_server-IsSound n b now d s (ground (arith, s.orderly))

pub load_failed-IsSound :
    (e : ApiError) (d : Desk) → IsSound d → d.loading ≡ fetching → IsSound (load_failed e d)
unfolding load_failed
load_failed-IsSound e d s f = record {
  copied = s.copied;
  synced = s.synced;
  orderly = ground (arith, s.orderly);
}

contested-IsSound :
    (n : Note) (now : ℕ) (d : Desk)
    → IsSound d
    → d.loading ≡ fetching
    → d.state.is_dirty ≡ true
    → IsSound (finish_load (contest n d))
contested-IsSound n now d s f e = record {
  copied = s.copied;
  synced = ground arith;
  orderly = ground (arith, s.orderly);
}

accepted_load-IsSound :
    (n : Note) (now : ℕ) (d : Desk)
    → IsSound d
    → d.loading ≡ fetching
    → IsSound (finish_load (accept_server n (not d.state.is_dirty) now d))
accepted_load-IsSound n now d s f = record {
  copied = accept_server-HasCopy n (not d.state.is_dirty) now d;
  synced = λ l. accept_server-IsSynced n (not d.state.is_dirty) now d;
  orderly = grind (
    arith,
    control-accept_server n (not d.state.is_dirty) now d,
    accepted-IsOrderly (control d) (accept_server n (not d.state.is_dirty) now d).state.is_dirty
        s.orderly (ground (arith, s.orderly)),
  );
}

pub load_answered-IsSound :
    (n : Note) (now : ℕ) (d : Desk)
    → IsSound d
    → d.loading ≡ fetching
    → IsSound (load_answered n now d)
unfolding load_answered
load_answered-IsSound n now d s f = elim (Bool-cases (is_stale n d)) [
  | inl e ↦ rw e (contested-IsSound n now d s f (ground arith))
  | inr e ↦ rw e (accepted_load-IsSound n now d s f)
]

-- No save runs, and the flags show what runs.
pub record IsIdle (k : Control) : Type 0 where
  pub loading_shown : k.shows_loading ≡ is_loading_phase k.loading
  pub none_runs : k.saving ≡ idle
  pub none_shown : k.shows_saving ≡ false

pub load_copied-IsSound :
    (d : Desk) → HasCopy d → d.state.is_dirty ≡ true → IsIdle (control d) → IsSound (start_load d)
unfolding start_load
load_copied-IsSound d c e k = record {
  copied = λ h. ground (arith, c);
  synced = ground arith;
  orderly = ground (arith, k);
}

load_backed_up-IsSound :
    (now : ℕ) (d : Desk)
    → d.state.is_dirty ≡ true
    → IsIdle (control d)
    → IsSound (start_load (backup now d))
load_backed_up-IsSound now d e k =
    load_copied-IsSound (backup now d) (backup-HasCopy now d) (grind (arith, control-backup now d))
      (rw (control-backup now d) k)

saving_idle : (k : Control) → IsOrderly k → k.shows_saving ≡ false → k.saving ≡ idle
saving_idle k s e = ground (arith, s)

restore-IsSound :
    (draft : NoteDraft) (key : String) (now : ℕ) (d : Desk)
    → IsSound d
    → d.state.is_saving ≡ false
    → IsSound (restore draft key now d)
unfolding restore
restore-IsSound draft key now d s e = load_backed_up-IsSound now _ refl (record {
  loading_shown = s.orderly.loading_shown;
  none_runs = saving_idle (control d) s.orderly e;
  none_shown = e;
})

pub restore_found-IsSound :
    (o : Option NoteDraft) (key : String) (now : ℕ) (d : Desk)
    → IsSound d
    → IsSound (restore_found o key now d)
unfolding restore_found
restore_found-IsSound none key now d s = s
restore_found-IsSound (some draft) key now d s =
    elim (Bool-cases (d.state.is_dirty || d.state.is_saving)) [
      | inl e ↦ rw e s
      | inr e ↦ rw e (restore-IsSound draft key now d s (ground arith))
    ]
