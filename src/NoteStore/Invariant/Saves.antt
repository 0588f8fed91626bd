-- ===== src/NoteStore/Invariant/Saves.antt =====
-- The calls of `saveNote` keep a note's session sound.
use nangman_note.Base.{
  ℕ, Bool, true, false, Option, none, some, ◌≡◌, refl, not, ◌&&◌, str_eq, arith, Bool-cases, inl,
  inr,
}
use nangman_note.NoteStore.{Note, idle, refetching, Desk, ApiError, accept_server, finish_save}
use nangman_note.NoteStore.Saving.{
  start_save, save_turn, save_answered, save_refused, save_refetched,
}
use nangman_note.NoteStore.Loading.{is_loading_phase}
use nangman_note.NoteStore.Invariant.{
  Control, control, IsOrderly, IsSound, HasCopy, IsSynced, is_busy, is_fetching, is_in_flight,
  accept_server-HasCopy, accept_server-IsSynced, control-accept_server,
}

-- A save runs, and has a revision to send; whether the text is dirty is open.
record IsRunning (k : Control) : Type 0 where
  loading_shown : k.shows_loading ≡ is_loading_phase k.loading
  saving_shown : k.shows_saving ≡ is_busy k.saving
  exclusive : is_fetching k.loading ≡ false
  running : is_busy k.saving ≡ true
  ready : k.loaded && k.based && not k.contested ≡ true

orderly-IsRunning : (k : Control) → IsOrderly k → is_busy k.saving ≡ true → IsRunning k
orderly-IsRunning k s b = record {
  loading_shown = s.loading_shown;
  saving_shown = s.saving_shown;
  exclusive = s.exclusive b;
  running = b;
  ready = s.busy_ready b;
}

accepted-IsRunning :
    (k : Control) (b : Bool)
    → IsRunning k
    → IsRunning
        (record k { dirty = b; loaded = true; blocked = false; contested = false; based = true })
accepted-IsRunning k b s = record {
  loading_shown = s.loading_shown;
  saving_shown = s.saving_shown;
  exclusive = s.exclusive;
  running = s.running;
  ready = refl;
}

accept_server-IsRunning :
    (n : Note) (r : Bool) (now : ℕ) (d : Desk)
    → IsRunning (control d)
    → IsRunning (control (accept_server n r now d))
accept_server-IsRunning n r now d s =
    rw (control-accept_server n r now d)
      (accepted-IsRunning (control d) (accept_server n r now d).state.is_dirty s)

finished-IsOrderly :
    (k : Control) (b : Bool)
    → IsRunning k
    → IsOrderly (record k { saving = idle; shows_saving = false; blocked = b })
finished-IsOrderly k b s = ground (arith, s)

save_turn-IsOrderly :
    (online : Bool) (d : Desk) → IsRunning (control d) → IsOrderly (control (save_turn online d).0)
unfolding save_turn
save_turn-IsOrderly online d s = ground (arith, s)

save_turn-IsSound :
    (online : Bool) (d : Desk)
    → (d.state.is_dirty ≡ true → HasCopy d)
    → (d.state.is_dirty ≡ false → IsSynced d)
    → IsRunning (control d)
    → IsSound (save_turn online d).0
unfolding save_turn
save_turn-IsSound online d c y s = record {
  copied = ground arith;
  synced = ground arith;
  orderly = save_turn-IsOrderly online d s;
}

finished-IsSound :
    (d : Desk)
    → (d.state.is_dirty ≡ true → HasCopy d)
    → (d.state.is_dirty ≡ false → IsSynced d)
    → IsRunning (control d)
    → IsSound (finish_save (not d.state.is_dirty) d).0
finished-IsSound d c y s = record {
  copied = c;
  synced = λ l. y;
  orderly = finished-IsOrderly (control d) (control d).blocked s;
}

pub save_answered-IsSound :
    (n : Note) (online : Bool) (now : ℕ) (d : Desk)
    → IsSound d
    → is_busy d.saving ≡ true
    → IsSound (save_answered n online now d).0
unfolding save_answered
save_answered-IsSound n online now d s b =
    save_turn-IsSound online (accept_server n false now d) (accept_server-HasCopy n false now d)
      (accept_server-IsSynced n false now d)
      (accept_server-IsRunning n false now d (orderly-IsRunning (control d) s.orderly b))

pub continue-IsSound :
    (online : Bool) (d : Desk)
    → IsSound d
    → is_busy d.saving ≡ true
    → IsSound (save_turn online d).0
continue-IsSound online d s b =
    let running = orderly-IsRunning (control d) s.orderly b in
    save_turn-IsSound online d s.copied (λ e. s.synced (ground (arith, running.ready)) e) running

pub start_save-IsSound : (d : Desk) → IsSound d → d.saving ≡ idle → IsSound (start_save d).0
unfolding start_save
start_save-IsSound d s e = record {
  copied = ground (arith, s.copied);
  synced = ground (arith, s.synced);
  orderly = ground (arith, s.orderly);
}

pub save_refused-IsSound :
    (e : ApiError) (d : Desk)
    → IsSound d
    → is_in_flight d.saving ≡ true
    → IsSound (save_refused e d).0
unfolding save_refused
save_refused-IsSound e d s b = record {
  copied = ground (arith, s.copied);
  synced = ground (arith, s.synced);
  orderly = ground (arith, s.orderly);
}

pub save_refetched-IsSound :
    (n : Option Note) (now : ℕ) (d : Desk)
    → IsSound d
    → d.saving ≡ refetching
    → IsSound (save_refetched n now d).0
unfolding save_refetched
save_refetched-IsSound none now d s b = record {
  copied = ground (arith, s.copied);
  synced = ground (arith, s.synced);
  orderly = ground (arith, s.orderly);
}
save_refetched-IsSound (some n) now d s b =
    elim (Bool-cases (str_eq n.content d.state.note_content)) [
      | inl e ↦ rw e (
          finished-IsSound (accept_server n false now d) (accept_server-HasCopy n false now d)
            (accept_server-IsSynced n false now d)
            (accept_server-IsRunning n false now d
              (orderly-IsRunning (control d) s.orderly (ground arith))))
      | inr e ↦ rw e (record {
        copied = ground (arith, s.copied);
        synced = ground (arith, s.orderly.in_flight_dirty);
        orderly = ground (arith, s.orderly);
      })
    ]
