-- ===== src/NoteStore/Invariant/Outcomes.antt =====
-- What a sound session promises: it starts sound, and `saveNote` reports success only for text that
-- the server has.
use nangman_note.Base.{
  ℕ, String, Bool, true, false, Option, none, some, List, [], ◌∷◌, ◌≡◌, refl, arith, All, inl, inr,
  str_eq_refl,
}
use nangman_note.NoteStore.Drafts.{NoteDraft, LocalStorage, read_drafts, read_drafts-Stored, Stored}
use nangman_note.NoteStore.{
  Note, SavePhase, idle, looping, refetching, sending, Desk, ApiError, accept_server, Progress,
  clear_backups,
}
use nangman_note.NoteStore.Saving.{
  start_save, save_turn, save_answered, save_refused, save_refetched,
}
use nangman_note.NoteStore.Loading.{start_load, open_session, load_note}
use nangman_note.NoteStore.Steps.{
  Event, step, typing, save_asked, load_asked, saves_awaited, turned, answered, refused, failed,
  refetched, loaded, resolved, restored, ask, turn, answer, refuse, refetch,
}
use nangman_note.NoteStore.Invariant.{IsSound, IsSynced, control, control-accept_server}
use nangman_note.NoteStore.Invariant.Events.{IsIdle, load_copied-IsSound}
use nangman_note.NoteStore.Invariant.Steps.{step-IsSound}

-- The save resolved with true at a loaded session without unsaved text, if it resolved with true.
abbrev IsDone : Progress → Type 0
IsDone (d, r) = r ≡ some true → (d.state.has_loaded ≡ true) × (d.state.is_dirty ≡ false)

start_save-IsDone : (d : Desk) → IsDone (start_save d)
unfolding start_save
start_save-IsDone d h = ground arith

save_turn-IsDone :
    (online : Bool) (d : Desk) → d.state.has_loaded ≡ true → IsDone (save_turn online d)
unfolding save_turn
save_turn-IsDone online d l h = ground arith

accepted-loaded :
    (n : Note) (r : Bool) (now : ℕ) (d : Desk) → (accept_server n r now d).state.has_loaded ≡ true
accepted-loaded n r now d = grind (arith, control-accept_server n r now d)

save_answered-IsDone :
    (n : Note) (online : Bool) (now : ℕ) (d : Desk) → IsDone (save_answered n online now d)
unfolding save_answered
save_answered-IsDone n online now d =
    save_turn-IsDone online (accept_server n false now d) (accepted-loaded n false now d)

save_refused-IsDone :
    (e : ApiError) (d : Desk) → d.state.has_loaded ≡ true → IsDone (save_refused e d)
unfolding save_refused
save_refused-IsDone e d l h = ground arith

save_refetched-IsDone :
    (n : Option Note) (now : ℕ) (d : Desk)
    → d.state.has_loaded ≡ true
    → IsDone (save_refetched n now d)
unfolding save_refetched
save_refetched-IsDone none now d l h = ground arith
save_refetched-IsDone (some n) now d l h = grind (arith, accepted-loaded n false now d)

module _ (d : Desk) (s : IsSound d) where
  ask-IsDone : (p : SavePhase) → IsDone (ask p d)
  ask-IsDone idle = start_save-IsDone d
  ask-IsDone looping = ground arith
  ask-IsDone refetching = ground arith
  ask-IsDone (sending text) = ground arith

  turn-IsDone : (p : SavePhase) (online : Bool) → p ≡ d.saving → IsDone (turn p online d)
  turn-IsDone idle online e = ground arith
  turn-IsDone looping online e = save_turn-IsDone online d (ground (arith, s.orderly))
  turn-IsDone refetching online e = ground arith
  turn-IsDone (sending text) online e = ground arith

  answer-IsDone :
      (p : SavePhase) (n : Note) (online : Bool) (now : ℕ) → IsDone (answer p n online now d)
  answer-IsDone idle n online now = ground arith
  answer-IsDone looping n online now = ground arith
  answer-IsDone refetching n online now = ground arith
  answer-IsDone (sending text) n online now = save_answered-IsDone n online now d

  refuse-IsDone : (p : SavePhase) (x : ApiError) → p ≡ d.saving → IsDone (refuse p x d)
  refuse-IsDone idle x e = ground arith
  refuse-IsDone looping x e = ground arith
  refuse-IsDone refetching x e = ground arith
  refuse-IsDone (sending text) x e = save_refused-IsDone x d (ground (arith, s.orderly))

  refetch-IsDone :
      (p : SavePhase) (n : Option Note) (now : ℕ) → p ≡ d.saving → IsDone (refetch p n now d)
  refetch-IsDone idle n now e = ground arith
  refetch-IsDone looping n now e = ground arith
  refetch-IsDone refetching n now e = save_refetched-IsDone n now d (ground (arith, s.orderly))
  refetch-IsDone (sending text) n now e = ground arith

step-IsDone : (e : Event) (d : Desk) → IsSound d → IsDone (step e d)
unfolding step
step-IsDone (typing c now) d s = ground arith
step-IsDone save_asked d s = ask-IsDone d s d.saving
step-IsDone load_asked d s = ground arith
step-IsDone saves_awaited d s = ground arith
step-IsDone (turned online) d s = turn-IsDone d s d.saving online refl
step-IsDone (answered note online now) d s = answer-IsDone d s d.saving note online now
step-IsDone (refused x) d s = refuse-IsDone d s d.saving x refl
step-IsDone (failed x) d s = ground arith
step-IsDone (refetched current now) d s = refetch-IsDone d s d.saving current now refl
step-IsDone (loaded note now) d s = ground arith
step-IsDone (resolved b now) d s = ground arith
step-IsDone (restored key now) d s = ground arith

-- From a sound session, `saveNote` resolves with true only when no text is unsaved and the server
-- has the text of the editor.
pub saved-IsSynced :
    (e : Event) (d : Desk)
    → IsSound d
    → (step e d).1 ≡ some true
    → ((step e d).0.state.is_dirty ≡ false) × IsSynced (step e d).0
saved-IsSynced e d s r = let (l, c) = step-IsDone e d s r in (c, (step-IsSound e d s).synced l c)

empty-IsSound :
    (d : Desk)
    → d.state.is_dirty ≡ false
    → d.state.has_loaded ≡ false
    → IsIdle (control d)
    → IsSound (start_load d)
unfolding start_load
empty-IsSound d e l k = record {
  copied = ground arith;
  synced = ground arith;
  orderly = ground (arith, k);
}

open_session-IsSound :
    (meeting_id uuid : String) (memory : Option NoteDraft) (storage : LocalStorage)
    (drafts : List NoteDraft)
    → All (λ x. Stored x.content storage.items) drafts
    → IsSound (start_load (open_session meeting_id uuid memory storage drafts))
unfolding open_session
open_session-IsSound meeting_id uuid (some m) storage drafts h =
    load_copied-IsSound _ (inr refl) refl
      (record { loading_shown = refl; none_runs = refl; none_shown = refl })
open_session-IsSound meeting_id uuid none storage [] h =
    empty-IsSound _ refl refl (record { loading_shown = refl; none_runs = refl; none_shown = refl })
open_session-IsSound meeting_id uuid none storage (x ∷ drafts) (h, hs) =
    load_copied-IsSound _ (inl h) refl
      (record { loading_shown = refl; none_runs = refl; none_shown = refl })

-- A session that is opened for a meeting is sound, whatever drafts the browser still has.
pub load_note-IsSound :
    (meeting_id uuid : String) (memory : Option NoteDraft) (storage : LocalStorage)
    → IsSound (load_note meeting_id uuid memory storage)
unfolding load_note
load_note-IsSound meeting_id uuid memory storage =
    open_session-IsSound meeting_id uuid memory storage (read_drafts meeting_id storage)
      (read_drafts-Stored meeting_id storage)

-- When the server accepts the text that was sent and nothing was typed since, the loop ends at
-- once: the save resolves with true.
pub unedited-saved :
    (n : Note) (online : Bool) (now : ℕ) (d : Desk)
    → n.content ≡ d.state.note_content
    → (save_answered n online now d).1 ≡ some true
unfolding save_answered save_turn accept_server clear_backups
unedited-saved n online now d e = grind (arith, str_eq_refl n.content)
