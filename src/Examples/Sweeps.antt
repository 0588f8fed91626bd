-- ===== src/Examples/Sweeps.antt =====
-- The theorems on the sweep over stuck meetings at concrete rows.
use nangman_note.Base.{
  Bool, false, none, some, [], ◌∷◌, Outcome, ok, thrown, Failure, other, ◌≡◌, refl,
}
use nangman_note.Meeting.Entity.{MeetingEntity, processing, recording, batch, realtime}
use nangman_note.Meeting.Context.{World}
use nangman_note.Transcription.Collector.{Collaborators}
use nangman_note.Transcription.Batch.{BatchHost}
use nangman_note.Transcription.Sweeping.{SweepHost, recover_abandoned_recording_meetings}
use nangman_note.Transcription.Sweeping.Recovering.{abandoned-ok}
use nangman_note.Examples.Db.{Db, db_services, a_meeting, world_with}

abbrev outage : Failure
outage = other "connection lost"

abbrev a_collector : Collaborators Db
a_collector = record {
  services = db_services;
  get_job_status = λ id s. (thrown outage, s);
  fetch_transcript = λ uri s. (thrown outage, s);
  parse_time = λ s. 0;
  default_confidence = 0;
  last_end_time_before = λ id t s. ok none;
  delete_job_segments = λ m j s. (ok tt, s);
  save_segments = λ m segments s. (ok tt, s);
  delete_audio_file = λ uri s. (ok tt, s);
  generate_for_pipeline = λ id w. (ok tt, w);
}

abbrev a_batch_host : BatchHost Db
a_batch_host = record {
  services = db_services;
  submit_batch_job = λ job s. (thrown outage, s);
  has_active_session = λ id s. false;
  object_exists = λ bucket key s. (ok false, s);
  random_uuid = λ s. (ok "j-2", s);
}

-- The table of results answers as given.
abbrev sweeper : Outcome Bool → SweepHost Db
sweeper answer = record {
  collector = a_collector;
  batch = a_batch_host;
  has_result = λ id s. answer;
}

abbrev left_alone : World Db
left_alone = world_with (some (a_meeting recording realtime)) none none

abandoned-ok_example :
    (recover_abandoned_recording_meetings (sweeper (ok false)) 90000000 left_alone).0 ≡ ok tt
abandoned-ok_example =
    abandoned-ok (sweeper (ok false)) 90000000 left_alone (a_meeting recording realtime ∷ []) refl

abbrev stuck_meeting : MeetingEntity
stuck_meeting = record (a_meeting processing batch) { ended_at = some 50 }

abbrev stuck : World Db
stuck = world_with (some stuck_meeting) none none
