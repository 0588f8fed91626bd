-- ===== src/NoteStore/Invariant/Steps.antt =====
-- Every event of a note's session keeps it sound, and `saveNote` reports success only for text that
-- the server has.
use nangman_note.Base.{ℕ, Bool, Option, ◌≡◌, refl, sym, arith}
use nangman_note.NoteStore.{
  Note, SavePhase, idle, looping, refetching, sending, LoadPhase, not_loading, awaiting_saves,
  fetching, Desk, ApiError,
}
use nangman_note.NoteStore.Loading.{resolve_conflict, restore_draft}
use nangman_note.NoteStore.Steps.{
  Event, step, typing, save_asked, load_asked, saves_awaited, turned, answered, refused, failed,
  refetched, loaded, resolved, restored, ask, turn, answer, refuse, refetch, fetch, load_with,
  fail_load,
}
use nangman_note.NoteStore.Invariant.{IsSound}
use nangman_note.NoteStore.Invariant.Saves.{
  start_save-IsSound, continue-IsSound, save_answered-IsSound, save_refused-IsSound,
  save_refetched-IsSound,
}
use nangman_note.NoteStore.Invariant.Events.{
  set_content-IsSound, start_load-IsSound, resolve-IsSound, load_failed-IsSound,
  load_answered-IsSound, restore_found-IsSound,
}

module _ (d : Desk) (s : IsSound d) where
  ask-IsSound : (p : SavePhase) → p ≡ d.saving → IsSound (ask p d).0
  ask-IsSound idle e = start_save-IsSound d s (sym e)
  ask-IsSound looping e = s
  ask-IsSound refetching e = s
  ask-IsSound (sending text) e = s

  turn-IsSound : (p : SavePhase) (online : Bool) → p ≡ d.saving → IsSound (turn p online d).0
  turn-IsSound idle online e = s
  turn-IsSound looping online e = continue-IsSound online d s (ground arith)
  turn-IsSound refetching online e = s
  turn-IsSound (sending text) online e = s

  answer-IsSound :
      (p : SavePhase) (n : Note) (online : Bool) (now : ℕ)
      → p ≡ d.saving
      → IsSound (answer p n online now d).0
  answer-IsSound idle n online now e = s
  answer-IsSound looping n online now e = s
  answer-IsSound refetching n online now e = s
  answer-IsSound (sending text) n online now e =
      save_answered-IsSound n online now d s (ground arith)

  refuse-IsSound : (p : SavePhase) (x : ApiError) → p ≡ d.saving → IsSound (refuse p x d).0
  refuse-IsSound idle x e = s
  refuse-IsSound looping x e = s
  refuse-IsSound refetching x e = s
  refuse-IsSound (sending text) x e = save_refused-IsSound x d s (ground arith)

  refetch-IsSound :
      (p : SavePhase) (n : Option Note) (now : ℕ) → p ≡ d.saving → IsSound (refetch p n now d).0
  refetch-IsSound idle n now e = s
  refetch-IsSound looping n now e = s
  refetch-IsSound refetching n now e = save_refetched-IsSound n now d s (sym e)
  refetch-IsSound (sending text) n now e = s

  fetching-IsSound :
      d.loading ≡ awaiting_saves → d.saving ≡ idle → IsSound (record d { loading = fetching })
  fetching-IsSound l e = record {
    copied = s.copied;
    synced = s.synced;
    orderly = ground (arith, s.orderly);
  }

  fetch-IsSound :
      (l : LoadPhase) (p : SavePhase) → l ≡ d.loading → p ≡ d.saving → IsSound (fetch l p d)
  fetch-IsSound not_loading p l e = s
  fetch-IsSound awaiting_saves idle l e = fetching-IsSound (sym l) (sym e)
  fetch-IsSound awaiting_saves looping l e = s
  fetch-IsSound awaiting_saves refetching l e = s
  fetch-IsSound awaiting_saves (sending text) l e = s
  fetch-IsSound fetching p l e = s

  load_with-IsSound :
      (l : LoadPhase) (n : Note) (now : ℕ) → l ≡ d.loading → IsSound (load_with l n now d)
  load_with-IsSound not_loading n now e = s
  load_with-IsSound awaiting_saves n now e = s
  load_with-IsSound fetching n now e = load_answered-IsSound n now d s (sym e)

  fail_load-IsSound : (l : LoadPhase) (x : ApiError) → l ≡ d.loading → IsSound (fail_load l x d)
  fail_load-IsSound not_loading x e = s
  fail_load-IsSound awaiting_saves x e = s
  fail_load-IsSound fetching x e = load_failed-IsSound x d s (sym e)

-- Every event keeps a session sound: text that is not saved has a copy in the storage or in memory,
-- text that is not dirty after a load is the server's, and no save waits for an answer while a load
-- does, is in flight with clean text, runs into a conflict that is not settled, or has no revision
-- to send.
pub step-IsSound : (e : Event) (d : Desk) → IsSound d → IsSound (step e d).0
unfolding step resolve_conflict restore_draft
step-IsSound (typing c now) d s = set_content-IsSound c now d s
step-IsSound save_asked d s = ask-IsSound d s d.saving refl
step-IsSound load_asked d s = start_load-IsSound d s
step-IsSound saves_awaited d s = fetch-IsSound d s d.loading d.saving refl refl
step-IsSound (turned online) d s = turn-IsSound d s d.saving online refl
step-IsSound (answered note online now) d s = answer-IsSound d s d.saving note online now refl
step-IsSound (refused x) d s = refuse-IsSound d s d.saving x refl
step-IsSound (failed x) d s = fail_load-IsSound d s d.loading x refl
step-IsSound (refetched current now) d s = refetch-IsSound d s d.saving current now refl
step-IsSound (loaded note now) d s = load_with-IsSound d s d.loading note now refl
step-IsSound (resolved b now) d s = resolve-IsSound d.state.conflict b now d refl s
step-IsSound (restored key now) d s = restore_found-IsSound _ key now d s
