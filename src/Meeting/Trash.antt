-- ===== src/Meeting/Trash.antt =====
-- meeting/application/meeting.service.ts: a meeting is put into the trash, taken out of it, and
-- deleted for good, one by one and in bulk.
use nangman_note.Base.{
  String, Bool, true, false, Option, none, some, List, [], ◌∷◌, ok, not_found, Run, return, throw,
  catch, is_some, if◌then◌else◌, ◌>>=◌, ◌>>◌, ◌<>◌, All, ◌≡◌, inl, inr, refl, arith, row-cases,
  outcome-cases,
}
use nangman_note.Meeting.Entity.{MeetingEntity}
use nangman_note.Meeting.Context.{World, Services, stored, reading, is_meeting, is_meeting_row}
use nangman_note.Meeting.Lifecycle.{find_by_id}

pub record BulkResult : Type 0 where
  pub succeeded : List String
  pub failed : List String

-- `(succeeded ? result.succeeded : result.failed).push(id)`, from the back of the list.
abbrev pub put : Bool → String → BulkResult → BulkResult
put true id r = record r { succeeded = id ∷ r.succeeded }
put false id r = record r { failed = id ∷ r.failed }

-- The row, if it is in the trash: `!meeting || !meeting.deletedAt` fails.
abbrev pub in_trash : Option MeetingEntity → Option MeetingEntity
in_trash none = none
in_trash (some m) = if is_some m.deleted_at then some m else none

module _ {S : Type 0} (services : Services S) where
  open services use {meetings}

  unfoldable pub remove : String → Option String → Run (World S) (Unit {0})
  unfolding find_by_id
  remove id owner_sub = do m ← find_by_id services id owner_sub; stored (meetings.soft_remove m)

  -- `findOne` with `withDeleted: true`.
  abbrev pub find_trashed : String → Option String → Run (World S) (Option MeetingEntity)
  find_trashed id owner_sub = do
    found ← reading (meetings.rows.find_one (is_meeting_row id owner_sub))
    return (in_trash found)

  abbrev pub not_in_trash : {A : Type 0} → String → Run (World S) A
  not_in_trash id = throw (not_found ("Meeting " <> (id <> " not found in trash")))

  unfoldable pub restore : String → Option String → Run (World S) (Unit {0})
  restore id owner_sub = do
    found ← find_trashed id owner_sub
    elim found [ none ↦ not_in_trash id | some m ↦ stored (meetings.restore id) ]

  unfoldable pub purge : String → Option String → Run (World S) (Unit {0})
  purge id owner_sub = do
    found ← find_trashed id owner_sub
    elim found [ none ↦ not_in_trash id | some m ↦ stored (meetings.remove m) ]

  -- The body of each loop, as whether it succeeded: `try { … } catch { failed.push(id); }`.
  abbrev pub attempt :
      (String → Run (World S) (Option MeetingEntity))
      → (MeetingEntity → Run (World S) (Unit {0}))
      → String
      → Run (World S) Bool
  attempt look act id =
      catch
        (look id >>= λ found. elim found [ none ↦ return false | some m ↦ act m >> return true ])
        (λ e. return false)

  unfoldable pub bulk : (String → Run (World S) Bool) → List String → Run (World S) BulkResult
  bulk body [] = return (record { succeeded = []; failed = [] })
  bulk body (id ∷ ids) = do done ← body id; rest ← bulk body ids; return (put done id rest)

  unfoldable pub bulk_remove : List String → Option String → Run (World S) BulkResult
  unfolding bulk
  bulk_remove ids owner_sub =
      bulk
        (attempt (λ id. reading (meetings.rows.find_one (is_meeting id owner_sub)))
          (λ m. stored (meetings.soft_remove m)))
        ids

  unfoldable pub bulk_restore : List String → Option String → Run (World S) BulkResult
  unfolding bulk
  bulk_restore ids owner_sub =
      bulk (λ id. attempt (λ i. find_trashed i owner_sub) (λ m. stored (meetings.restore id)) id)
        ids

  unfoldable pub bulk_purge : List String → Option String → Run (World S) BulkResult
  unfolding bulk
  bulk_purge ids owner_sub =
      bulk (attempt (λ id. find_trashed id owner_sub) (λ m. stored (meetings.remove m))) ids

-- The ids in their order, each of them in exactly one of the two lists.
pub data IsMerge : List String → List String → List String → Type 0 where
  done : IsMerge [] [] []
  left : {x : String} {xs ys zs : List String} → IsMerge xs ys zs → IsMerge (x ∷ xs) ys (x ∷ zs)
  right : {y : String} {xs ys zs : List String} → IsMerge xs ys zs → IsMerge xs (y ∷ ys) (y ∷ zs)

put-IsMerge :
    (b : Bool) (id : String) (r : BulkResult) (ids : List String)
    → IsMerge r.succeeded r.failed ids
    → IsMerge (put b id r).succeeded (put b id r).failed (id ∷ ids)
put-IsMerge true id r ids m = left m
put-IsMerge false id r ids m = right m

module _ {S : Type 0} (services : Services S) where
  -- A loop whose body does not throw reports on every id, in its order, and does not throw.
  bulk-IsMerge :
      (body : String → Run (World S) Bool)
      → ((id : String) (w : World S) → (b : Bool) × ((body id w).0 ≡ ok b))
      → (ids : List String) (w : World S)
      → (r : BulkResult) × ((bulk services body ids w).0 ≡ ok r) × IsMerge r.succeeded r.failed ids
  unfolding bulk
  bulk-IsMerge body total [] w = (record { succeeded = []; failed = [] }, refl, done)
  bulk-IsMerge body total (id ∷ ids) w =
      let (b, e) = total id w in
      let (r, e', m) = bulk-IsMerge body total ids (body id w).1 in
      (put b id r, grind (arith, e, e'), put-IsMerge b id r ids m)

  attempt-ok :
      (look : String → Run (World S) (Option MeetingEntity))
      (act : MeetingEntity → Run (World S) (Unit {0})) (id : String) (w : World S)
      → (b : Bool) × ((attempt services look act id w).0 ≡ ok b)
  attempt-ok look act id w = elim (outcome-cases (attempt services look act id w).0) [
    | inl x ↦ x
    | inr (e, h) ↦ absurd (ground arith)
  ]

  -- Emptying the trash in bulk never throws, whatever the repository does, and tells of each id
  -- once, in the order given, whether it succeeded.
  pub bulk_purge-IsMerge :
      (ids : List String) (owner_sub : Option String) (w : World S)
      → (r : BulkResult) × ((bulk_purge services ids owner_sub w).0 ≡ ok r)
        × IsMerge r.succeeded r.failed ids
  unfolding bulk_purge bulk
  bulk_purge-IsMerge ids owner_sub w =
      bulk-IsMerge
        (attempt services (λ id. find_trashed services id owner_sub)
          (λ m. stored (services.meetings.remove m)))
        (λ id v.
          attempt-ok (λ i. find_trashed services i owner_sub)
            (λ m. stored (services.meetings.remove m)) id v)
        ids w

  -- What is purged was in the trash: a purge that returns has found the row with its time of
  -- deletion, and has deleted that row.
  pub purge_from_trash :
      (id : String) (owner_sub : Option String) (w w' : World S)
      → purge services id owner_sub w ≡ (ok tt, w')
      → (m : MeetingEntity) × (services.meetings.rows.find_one (is_meeting_row id owner_sub) w.store
          ≡ ok (some m))
        × (is_some m.deleted_at ≡ true)
        × (w'.store ≡ (services.meetings.remove m w.store).1)
  unfolding purge
  purge_from_trash id owner_sub w w' h =
      elim (row-cases (services.meetings.rows.find_one (is_meeting_row id owner_sub) w.store)) [
        | inl (m, e) ↦ (m, e, ground arith, ground arith)
        | inr n ↦ absurd (ground arith)
      ]

  -- Meetings that are not in the trash survive a bulk purge: all their ids are reported as failed,
  -- and nothing has changed.
  pub bulk_purge_keeps_live :
      (ids : List String) (owner_sub : Option String) (w : World S)
      → All
          (λ id.
            (m : MeetingEntity) × (services.meetings.rows.find_one
                (is_meeting_row id owner_sub)
                w.store
              ≡ ok (some m))
            × (m.deleted_at ≡ none))
          ids
      → bulk_purge services ids owner_sub w ≡ (ok (record { succeeded = []; failed = ids }), w)
  unfolding bulk_purge bulk
  bulk_purge_keeps_live [] owner_sub w h = refl
  bulk_purge_keeps_live (id ∷ ids) owner_sub w ((m, e, d), h) =
      grind (arith, bulk_purge_keeps_live ids owner_sub w h)
