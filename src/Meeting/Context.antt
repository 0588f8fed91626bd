-- ===== src/Meeting/Context.antt =====
-- What the services share: the state that their calls change, and the repositories over it.
use nangman_note.Base.{
  String, Bool, true, false, Option, none, some, List, ◌∷◌, Outcome, ok, thrown, Run, Repository,
  truthy_text, is_some, not, ◌&&◌, str_eq, ◌≡◌, arith,
}
use nangman_note.Meeting.Entity.{MeetingEntity, MeetingStatusChangedEvent}
use nangman_note.Transcription.Entity.{TranscriptionJobEntity, TranscriptionUploadEntity}

-- `store` holds every row and the state behind the external services; `emitted` are the events
-- handed to the EventEmitter2, the latest first; `polls` are the meetings and jobs whose polling
-- was started in the background, the latest first.
pub record World (S : Type 0) : Type 0 where
  pub store : S
  pub emitted : List MeetingStatusChangedEvent
  pub polls : List (String × String)

-- The calls of the meeting's repository. `soft_remove` sets `deleted_at`, `restore` clears it and
-- `remove` deletes the row.
pub record MeetingRepository (S : Type 0) : Type 0 where
  pub rows : Repository MeetingEntity S
  pub soft_remove : MeetingEntity → Run S (Unit {0})
  pub restore : String → Run S (Unit {0})
  pub remove : MeetingEntity → Run S (Unit {0})

-- The services behind which code stands that a meeting calls: `PromptService.ensureExists` and
-- `MeetingSearchDocumentService.refreshByMeetingId`.
pub record Services (S : Type 0) : Type 0 where
  pub meetings : MeetingRepository S
  pub jobs : Repository TranscriptionJobEntity S
  pub uploads : Repository TranscriptionUploadEntity S
  pub ensure_prompt_exists : String → Option String → Run S (Unit {0})
  pub refresh_by_meeting_id : String → Run S (Unit {0})

module _ {S : Type 0} where
  -- A call that changes the store alone.
  abbrev pub stored : {A : Type 0} → Run S A → Run (World S) A
  stored m w = let (r, s) = m w.store in (r, record w { store = s })

  -- A call that only reads.
  abbrev pub reading : {A : Type 0} → (S → Outcome A) → Run (World S) A
  reading f w = (f w.store, w)

  abbrev pub emit : MeetingStatusChangedEvent → Run (World S) (Unit {0})
  emit e w = (ok tt, record w { emitted = e ∷ w.emitted })

abbrev pub matches_owner : Option String → Option String → Bool
matches_owner none sub = true
matches_owner (some owner) none = false
matches_owner (some owner) (some sub) = str_eq sub owner

-- `where: ownerSub ? { id, ownerSub } : { id }`, with and without deleted rows.
unfoldable pub is_meeting_row : String → Option String → MeetingEntity → Bool
is_meeting_row id owner_sub m = str_eq m.id id && matches_owner (truthy_text owner_sub) m.owner_sub

unfoldable pub is_meeting : String → Option String → MeetingEntity → Bool
unfolding is_meeting_row
is_meeting id owner_sub m = is_meeting_row id owner_sub m && not (is_some m.deleted_at)

-- `save` returns the entity that it was given, with no column changed but `updated_at`.
abbrev pub IsSaved : MeetingEntity → Outcome MeetingEntity → Type 0
IsSaved m (ok m') = m' ≡ record m { updated_at = m'.updated_at }
IsSaved m (thrown e) = Unit

-- What `save` returned is what the next reader of that meeting finds.
abbrev pub IsKept :
    {S : Type 0} → MeetingRepository S → MeetingEntity → Outcome MeetingEntity × S → Type 0
IsKept R m (ok m', s) = R.rows.find_one (is_meeting m.id none) s ≡ ok (some m')
IsKept R m (thrown e, s) = Unit

pub is_meeting-live :
    (id : String) (owner_sub : Option String) (m : MeetingEntity)
    → is_meeting id owner_sub m ≡ true
    → m.deleted_at ≡ none
unfolding is_meeting
is_meeting-live id owner_sub m h = ground arith

-- What the proofs rely on of TypeORM's repository of meetings: a row that is found meets the
-- `where` clause, `save` keeps the columns, and what was saved is found afterwards.
pub record IsLawful {S : Type 0} (R : MeetingRepository S) : Type 0 where
  pub found :
      (id : String) (owner_sub : Option String) (s : S) (m : MeetingEntity)
      → R.rows.find_one (is_meeting id owner_sub) s ≡ ok (some m)
      → is_meeting id owner_sub m ≡ true
  pub saved : (m : MeetingEntity) (s : S) → IsSaved m (R.rows.save m s).0
  pub kept : (m : MeetingEntity) (s : S) → m.deleted_at ≡ none → IsKept R m (R.rows.save m s)
