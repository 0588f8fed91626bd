-- ===== src/NoteStore/Saving.antt =====
-- domains/note/stores/noteStore.ts: `saveNote`, cut at its awaits. The loop that drains the latest
-- input goes round once per answer of the server.
use nangman_note.Base.{
  ℕ, String, Bool, true, false, Option, none, some, ◌+◌, ltb, ◌==◌, not, ◌||◌, or_else,
  if◌then◌else◌, str_eq, utf16_length,
}
use nangman_note.NoteStore.{
  Note, ErrorKind, load, save, conflict, looping, refetching, sending, Desk, ApiError, is_retryable,
  note_max_length, conflict_message, publish, accept_server, Progress, finish_save,
}

abbrev pub is_blocked : Option ErrorKind → Bool
is_blocked none = false
is_blocked (some load) = true
is_blocked (some save) = false
is_blocked (some conflict) = true

-- `saveNote` up to its first `await`, without the case of a save that is running already.
unfoldable pub start_save : Desk → Progress
start_save d =
    if d.state.is_loading || not d.state.has_loaded || is_blocked d.state.error_kind
    then (d, some false)
    else (if not d.state.is_dirty
        then (d, some true)
        else (publish (λ s. record s { is_saving = true }) (record d { saving = looping }), none))

abbrev too_long_message : String
too_long_message = "노트는 최대 100,000자까지 저장할 수 있습니다. 내용을 줄여주세요."

abbrev offline_message : String
offline_message = "오프라인입니다. 연결되면 자동으로 저장합니다."

-- One turn of the loop, up to the request.
unfoldable pub save_turn : Bool → Desk → Progress
save_turn online d =
    if not d.state.is_dirty
    then finish_save true d
    else (if ltb note_max_length (utf16_length d.state.note_content)
        then finish_save false (
            publish
              (λ s. record s {
                error = some too_long_message;
                error_kind = some save;
                retryable = false;
              })
              d)
        else (if not online
            then finish_save false (
                publish
                  (λ s. record s {
                    error = some offline_message;
                    error_kind = some save;
                    retryable = true;
                  })
                  d)
            else (
              publish (λ s. record s { error = none; error_kind = none })
                  (record d { saving = sending d.state.note_content }),
              none,
            )))

-- The server accepted the text, and the loop goes on.
unfoldable pub save_answered : Note → Bool → ℕ → Desk → Progress
unfolding save_turn
save_answered saved online now d = save_turn online (accept_server saved false now d)

unfoldable pub save_refused : ApiError → Desk → Progress
unfolding is_retryable
save_refused e d =
    if or_else e.status_code 0 == 409
    then (
      publish
          (λ s. record s {
            error = some conflict_message;
            error_kind = some conflict;
            retryable = false;
          })
          (record d { saving = refetching }),
      none,
    )
    else finish_save (not d.state.is_dirty) (
        publish
          (λ s. record s {
            error = some e.message;
            error_kind = some save;
            retryable = is_retryable e;
            save_failures = s.save_failures + 1;
          })
          d)

-- The answer of `noteApi.get` after a conflict, if there was one.
unfoldable pub save_refetched : Option Note → ℕ → Desk → Progress
save_refetched none now d = finish_save (not d.state.is_dirty) d
save_refetched (some current) now d =
    let d2 =
      if str_eq current.content d.state.note_content
      then accept_server current false now d
      else publish (λ s. record s { server_note = some current; conflict = some current }) d in
    finish_save (not d2.state.is_dirty) d2
