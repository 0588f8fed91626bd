-- ===== src/Result/Outcomes.antt =====
-- result/application/result.service.ts: what generating a result and generating it again leave
-- behind, on every way.
use nangman_note.Base.{
  ℕ, String, true, false, Option, none, some, ◌∷◌, Failure, ok, thrown, message, ◌≡◌, ◌⊎◌, inl, inr,
  refl, arith, str_eq_refl, outcome-cases, is_ok, eq_iff,
}
use nangman_note.Meeting.Entity.{MeetingEntity, completed}
use nangman_note.Meeting.Context.{World, Services, IsLawful, is_meeting, is_meeting_row}
use nangman_note.Meeting.Lifecycle.{
  LifecyclePatch, find_by_id, update_processing_phase, apply_patch,
}
use nangman_note.Meeting.Lifecycle.Rows.{IsUp, is_meeting-id}
use nangman_note.Meeting.Editing.{update_prompt, only_prompt, edited, require_prompt}
use nangman_note.Result.{ResultServices}
use nangman_note.Result.Regeneration.{
  started, completed_event, failed, Studio, only_completed, prepare, regenerate_async,
  execute_regenerate, conclude, replace_result, undo,
}

module _ {S : Type 0} (services : Services S) (extra : ResultServices S) where
  -- The background task of a regeneration releases the meeting's lock and announces exactly one
  -- outcome, whatever any call in it does.
  pub regeneration-concluded :
      (id prompt_id original : String) (owner_sub : Option String) (now : ℕ) (s : Studio S)
      → let s' = execute_regenerate services extra id prompt_id original owner_sub now s in
        (s'.regenerating_meetings id ≡ false)
        × ((s'.announced ≡ completed_event id owner_sub ∷ s.announced)
            ⊎ ((text : String) × (s'.announced ≡ failed id owner_sub text ∷ s.announced)))
  unfolding execute_regenerate conclude
  regeneration-concluded id prompt_id original owner_sub now s =
      elim (outcome-cases (replace_result services extra id prompt_id owner_sub now s.world).0) [
        | inl (m, e) ↦ (rw (str_eq_refl id) refl, inl (rw e refl))
        | inr (x, e) ↦ (rw (str_eq_refl id) refl, inr (message x, rw e refl))
      ]

  -- A request to regenerate in the background is refused and changes nothing while the meeting's
  -- lock is held; otherwise it is accepted with the lock held and the start announced, or refused
  -- with the lock released and nothing announced.
  pub regenerate_async-lock :
      (id prompt_id : String) (owner_sub : Option String) (now : ℕ) (s : Studio S)
      → let (r, s') = regenerate_async services extra id prompt_id owner_sub now s in
        ((s.regenerating_meetings id ≡ true) × (is_ok r ≡ false) × (s' ≡ s))
        ⊎ ((s.regenerating_meetings id ≡ false)
            × (is_ok r ≡ true)
            × (s'.regenerating_meetings id ≡ true)
            × (s'.announced ≡ started id owner_sub ∷ s.announced))
        ⊎ ((s.regenerating_meetings id ≡ false)
            × (is_ok r ≡ false)
            × (s'.regenerating_meetings id ≡ false)
            × (s'.announced ≡ s.announced))
  unfolding regenerate_async
  regenerate_async-lock id prompt_id owner_sub now s = grind (arith, str_eq_refl id)

  prepared-prompt :
      (id prompt_id original : String) (owner_sub : Option String) (now : ℕ) (w : World S)
      (m : MeetingEntity)
      → services.meetings.rows.find_one (is_meeting id owner_sub) w.store ≡ ok (some m)
      → (prepare services extra id prompt_id owner_sub now w).0 ≡ ok original
      → original ≡ m.prompt_id
  unfolding prepare find_by_id
  prepared-prompt id prompt_id original owner_sub now w m f r = grind (arith, f, r)

  -- The background task is handed the prompt that the meeting had.
  accepted-prompt :
      (id prompt_id original : String) (owner_sub : Option String) (now : ℕ) (s : Studio S)
      (m : MeetingEntity)
      → services.meetings.rows.find_one (is_meeting id owner_sub) s.world.store ≡ ok (some m)
      → (regenerate_async services extra id prompt_id owner_sub now s).0 ≡ ok original
      → original ≡ m.prompt_id
  unfolding regenerate_async
  accepted-prompt id prompt_id original owner_sub now s m f r =
      grind (arith, f, r, prepared-prompt id prompt_id original owner_sub now s.world m f)

  -- What is relied on of the repository for the caller: what `save` returned is what the caller's
  -- next read finds, when it may read it.
  abbrev pub IsKeptFor : Option String → Type 0
  IsKeptFor owner_sub =
      (m m' : MeetingEntity) (s : S)
      → (services.meetings.rows.save m s).0 ≡ ok m'
      → is_meeting m.id owner_sub m' ≡ true
      → services.meetings.rows.find_one (is_meeting m.id owner_sub)
          (services.meetings.rows.save m s).1
        ≡ ok (some m')

  module _ (lawful : IsLawful services.meetings) (up : IsUp services) (owner_sub : Option String)
      (kept : IsKeptFor owner_sub) where
    -- The row that the caller reads.
    abbrev IsRead : String → World S → MeetingEntity → Type 0
    IsRead id w m = services.meetings.rows.find_one (is_meeting id owner_sub) w.store ≡ ok (some m)

    kept-meeting :
        (id : String) (m m2 m' : MeetingEntity)
        → is_meeting id owner_sub m ≡ true
        → m2.id ≡ m.id
        → m2.owner_sub ≡ m.owner_sub
        → m2.deleted_at ≡ m.deleted_at
        → m' ≡ record m2 { updated_at = m'.updated_at }
        → is_meeting m2.id owner_sub m' ≡ true
    unfolding is_meeting is_meeting_row
    kept-meeting id m m2 m' h e o d q = grind (arith, h, e, o, d, q, eq_iff m.id id)

    -- A change of a row that leaves its key, its owner and its deletion time is read afterwards.
    changed-IsRead :
        (id : String) (w : World S) (m m2 : MeetingEntity)
        → IsRead id w m
        → m2.id ≡ m.id
        → m2.owner_sub ≡ m.owner_sub
        → m2.deleted_at ≡ m.deleted_at
        → (m' : MeetingEntity) × ((services.meetings.rows.save m2 w.store).0 ≡ ok m')
          × (m' ≡ record m2 { updated_at = m'.updated_at })
          × (services.meetings.rows.find_one
                (is_meeting id owner_sub)
                (services.meetings.rows.save m2 w.store).1
              ≡ ok (some m'))
    changed-IsRead id w m m2 f e o d =
        let (m', r) = up m2 w.store in
        let q : m' ≡ record m2 { updated_at = m'.updated_at } =
          grind (arith, r, lawful.saved m2 w.store) in
        let found = lawful.found id owner_sub w.store m f in
        let k = kept m2 m' w.store r (kept-meeting id m m2 m' found e o d q) in
        (m', r, q, grind (arith, k, e, is_meeting-id id owner_sub m found))

    prompt-IsRead :
        (id prompt_id : String) (w : World S) (m : MeetingEntity)
        → services.ensure_prompt_exists prompt_id owner_sub w.store ≡ (ok tt, w.store)
        → IsRead id w m
        → (m' : MeetingEntity) × (m'.prompt_id ≡ prompt_id)
          × IsRead id
              (update_prompt services extra.results id (only_prompt prompt_id) owner_sub w).1
              m'
    unfolding update_prompt find_by_id edited require_prompt
    prompt-IsRead id prompt_id w m q f =
        let (m', r, e, k) =
          changed-IsRead id w m (edited (only_prompt prompt_id) m) f refl refl refl in
        (m', grind (arith, r, e, k), grind (arith, r, e, k, q, f))

    completed-IsRead :
        (id : String) (w : World S) (m : MeetingEntity)
        → IsRead id w m
        → (m' : MeetingEntity) × (m'.prompt_id ≡ m.prompt_id)
          × (m'.status ≡ completed)
          × (m'.processing_phase ≡ none)
          × IsRead id (update_processing_phase services id none owner_sub only_completed w).1 m'
    unfolding update_processing_phase find_by_id apply_patch
    completed-IsRead id w m f =
        let done : LifecyclePatch = record {
          status = some completed;
          processing_phase = some none;
          needs_attention = none;
          completion_state = none;
          ended_at = none;
        } in
        let (m', r, e, k) = changed-IsRead id w m (apply_patch done m) f refl refl refl in
        (
          m',
          grind (arith, r, e, k, f),
          grind (arith, r, e, k, f),
          grind (arith, r, e, k, f),
          grind (arith, r, e, k, f),
        )

    undo-IsRead :
        (id original : String) (w : World S) (m : MeetingEntity)
        → services.ensure_prompt_exists original owner_sub w.store ≡ (ok tt, w.store)
        → IsRead id w m
        → (m' : MeetingEntity) × (m'.prompt_id ≡ original)
          × (m'.status ≡ completed)
          × (m'.processing_phase ≡ none)
          × IsRead id (undo services extra id original owner_sub w) m'
    unfolding undo
    undo-IsRead id original w m q f =
        let (m1, p, f1) = prompt-IsRead id original w m q f in
        let (m2, p2, c, n, f2) = completed-IsRead id _ m1 f1 in (m2, grind (arith, p, p2), c, n, f2)

    -- A background regeneration that fails is undone: when a request for the meeting `m` was
    -- accepted, and its task, run at any later state with what the request handed on, fails, then
    -- the meeting has the prompt that `m` had before the request, is completed and in no phase. The
    -- table of meetings is up, and at the failure the row is there and that prompt still exists.
    pub failed-undone :
        (id prompt_id original : String) (now later : ℕ) (s s2 : Studio S) (w : World S)
        (m m2 : MeetingEntity) (e : Failure)
        → IsRead id s.world m
        → (regenerate_async services extra id prompt_id owner_sub now s).0 ≡ ok original
        → replace_result services extra id prompt_id owner_sub later s2.world ≡ (thrown e, w)
        → IsRead id w m2
        → services.ensure_prompt_exists m.prompt_id owner_sub w.store ≡ (ok tt, w.store)
        → (m' : MeetingEntity) × (m'.prompt_id ≡ m.prompt_id)
          × (m'.status ≡ completed)
          × (m'.processing_phase ≡ none)
          × IsRead id
              (execute_regenerate services extra id prompt_id original owner_sub later s2).world
              m'
    unfolding execute_regenerate conclude
    failed-undone id prompt_id original now later s s2 w m m2 e f a r g q =
        let same = accepted-prompt id prompt_id original owner_sub now s m f a in
        rw (r, same) (undo-IsRead id m.prompt_id w m2 q g)
