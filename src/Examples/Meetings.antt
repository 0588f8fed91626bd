-- ===== src/Examples/Meetings.antt =====
-- The theorems on the meeting service at concrete rows.
use nangman_note.Base.{true, false, none, some, ok, ◌≡◌, ◌⊎◌, refl, is_some}
use nangman_note.Meeting.Entity.{
  MeetingEntity, processing, completed, recording, generating, uploading, batch, realtime,
}
use nangman_note.Meeting.Context.{World, is_meeting, is_meeting_row}
use nangman_note.Meeting.Lifecycle.{CompleteOptions, complete}
use nangman_note.Meeting.Lifecycle.Ending.{IsEnded, complete-IsEnded}
use nangman_note.Meeting.Trash.{purge, purge_from_trash}
use nangman_note.Examples.Db.{Db, db_services, db-IsLawful, a_meeting, an_upload, world_with}

abbrev plain : CompleteOptions
plain = record { skip_transcription = false; mark_attention_required = false }

abbrev live_meeting : MeetingEntity
live_meeting = a_meeting recording realtime

abbrev ended_live : MeetingEntity
ended_live = record live_meeting {
  status = processing;
  processing_phase = some generating;
  ended_at = some 500;
}

abbrev live : World Db
live = world_with (some live_meeting) none none

abbrev live_done : World Db
live_done = (complete db_services "m1" plain none 500 live).1

complete-IsEnded_example :
    (m : MeetingEntity) × (db_services.meetings.rows.find_one (is_meeting "m1" none) live.store
      ≡ ok (some m))
    × (((m.status ≡ completed) × (ended_live ≡ m) × (live_done ≡ live))
        ⊎ IsEnded plain m ended_live 500 live live_done)
unfolding complete is_meeting is_meeting_row
complete-IsEnded_example =
    complete-IsEnded db_services "m1" plain none 500 live live_done ended_live db-IsLawful refl

abbrev done_meeting : MeetingEntity
done_meeting = a_meeting completed batch

abbrev finished : World Db
finished = world_with (some done_meeting) none none

abbrev recorded : World Db
recorded = world_with (some (a_meeting recording batch)) none (some an_upload)

abbrev waiting : MeetingEntity
waiting = record (a_meeting recording batch) {
  status = processing;
  processing_phase = some uploading;
  ended_at = some 500;
}

abbrev busy_meeting : MeetingEntity
busy_meeting = a_meeting processing batch

abbrev busy : World Db
busy = world_with (some busy_meeting) none none

abbrev generating_meeting : MeetingEntity
generating_meeting = record busy_meeting { processing_phase = some generating }

abbrev flagged_meeting : MeetingEntity
flagged_meeting = record busy_meeting { needs_attention = true }

abbrev trashed_meeting : MeetingEntity
trashed_meeting = record done_meeting { deleted_at = some 7 }

abbrev trashed : World Db
trashed = world_with (some trashed_meeting) none none

purge_from_trash_example :
    (m : MeetingEntity) × (db_services.meetings.rows.find_one
        (is_meeting_row "m1" none)
        trashed.store
      ≡ ok (some m))
    × (is_some m.deleted_at ≡ true)
    × ((world_with none none none).store ≡ (db_services.meetings.remove m trashed.store).1)
unfolding purge is_meeting_row
purge_from_trash_example =
    purge_from_trash db_services "m1" none trashed (world_with none none none) refl
