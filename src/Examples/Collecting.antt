-- ===== src/Examples/Collecting.antt =====
-- The theorems on the collector at concrete rows and answers.
use nangman_note.Base.{
  ℕ, ◌+◌, ◌*◌, true, false, none, some, List, [], ◌++◌, Outcome, ok, thrown, Failure, other, All,
  ◌≡◌, ◌≢◌, ◌⊎◌, refl, arith, ◌<>◌,
}
use nangman_note.Meeting.Entity.{
  MeetingEntity, processing, completed, generating, batch, phase, MeetingStatusChangedEvent,
  is_generating,
}
use nangman_note.Meeting.Context.{World, is_meeting, is_meeting_row}
use nangman_note.Meeting.Lifecycle.{find_by_id, status_event}
use nangman_note.Transcription.Entity.{
  TranscriptionJobEntity, TranscriptionJobStatus, unsettled_transcription_job, pending_upload,
  collection_failure_prefix,
}
use nangman_note.Transcription.Collector.{
  Collaborators, JobStatusResult, Transcript, emit_generating_phase_if_all_jobs_settled,
  parse_and_save_results,
}
use nangman_note.Transcription.Collector.Generating.{IsReady, generating_only_when_ready}
use nangman_note.Transcription.Collector.Collecting.{collect_job, failed_collection_lem}
use nangman_note.Transcription.Collector.Polling.{poll_and_collect, poll_and_collect_ends}
use nangman_note.Transcription.Collector.Finishing.{
  handle_generating_phase, handle_generating_phase_completes, update_meeting_status,
}
use nangman_note.Transcription.Collector.Quiet.{update_meeting_status-quiet}
use nangman_note.Examples.Db.{Db, db_services, db-IsLawful, db-IsUp, a_meeting, a_job, world_with}

-- The collaborators of a collector, by the answers of the provider and of the file store.
abbrev collector_of : Outcome JobStatusResult → Outcome Transcript → Collaborators Db
collector_of answer transcript = record {
  services = db_services;
  get_job_status = λ id s. (answer, s);
  fetch_transcript = λ uri s. (transcript, s);
  parse_time = λ s. 0;
  default_confidence = 0;
  last_end_time_before = λ id t s. ok none;
  delete_job_segments = λ m j s. (ok tt, s);
  save_segments = λ m segments s. (ok tt, s);
  delete_audio_file = λ uri s. (ok tt, s);
  generate_for_pipeline = λ id w. (ok tt, w);
}

abbrev outage : Failure
outage = other "provider is down"

abbrev silent : Collaborators Db
silent = collector_of (thrown outage) (thrown outage)

abbrev empty_transcript : Transcript
empty_transcript = record { items = []; speakers = λ t. none }

abbrev running : JobStatusResult
running = record {
  status = TranscriptionJobStatus.processing;
  transcript_uri = none;
  error_message = none;
}

abbrev answering : Collaborators Db
answering = collector_of (ok running) (ok empty_transcript)

abbrev busy_meeting : MeetingEntity
busy_meeting = a_meeting processing batch

abbrev done_meeting : MeetingEntity
done_meeting = a_meeting completed batch

abbrev collected : TranscriptionJobEntity
collected = a_job TranscriptionJobStatus.completed (some 300)

abbrev uncollected : TranscriptionJobEntity
uncollected = a_job TranscriptionJobStatus.completed none

abbrev ready_world : World Db
ready_world = world_with (some busy_meeting) (some collected) none

abbrev done_world : World Db
done_world = world_with (some done_meeting) (some collected) none

abbrev open_world : World Db
open_world = world_with (some busy_meeting) (some uncollected) none

generating_only_when_ready_example :
    ((emit_generating_phase_if_all_jobs_settled silent "m1" none 400 open_world).1 ≡ open_world)
    ⊎ IsReady silent "m1" none 400 open_world
generating_only_when_ready_example = generating_only_when_ready silent "m1" none 400 open_world

ready : IsReady silent "m1" none 400 ready_world
unfolding is_meeting is_meeting_row unsettled_transcription_job pending_upload
ready = record {
  meeting = busy_meeting;
  found = refl;
  open_meeting = refl;
  all_settled = refl;
  uploads = [];
  pending = refl;
  all_old = refl;
}

failed_collection_lem_example :
    ((collect_job silent uncollected (some "s3://t") none 400 open_world).0 ≡ ok none)
    × ((collect_job silent uncollected (some "s3://t") none 400 open_world).1.emitted ≡ [])
    × ((saved : TranscriptionJobEntity) × ((collect_job silent uncollected
            (some "s3://t")
            none
            400
            open_world).1.store
          ≡ (db_services.jobs.save saved
              (parse_and_save_results silent uncollected (some "s3://t") open_world).1.store).1)
        × (saved.error_message ≡ some (collection_failure_prefix <> "provider is down"))
        × (unsettled_transcription_job "m1" saved ≡ true))
unfolding parse_and_save_results
failed_collection_lem_example =
    failed_collection_lem silent uncollected (some "s3://t") none 400 open_world {e = outage} refl

abbrev steady_clock : ℕ → ℕ
steady_clock k = 1000 + 5000 * k

poll_and_collect_ends_example : poll_and_collect answering "m1" "j1" steady_clock open_world ≢ none
poll_and_collect_ends_example =
    poll_and_collect_ends answering "m1" "j1" steady_clock open_world (λ k. omega arith)

abbrev generating_event : MeetingStatusChangedEvent
generating_event = status_event busy_meeting (some (phase generating))

handle_generating_phase_completes_example :
    (m' : MeetingEntity) × (find_by_id db_services "m1" none
        (handle_generating_phase silent generating_event open_world).1
      ≡ (ok m', (handle_generating_phase silent generating_event open_world).1))
    × (m'.status ≡ completed)
    × (m'.processing_phase ≡ none)
    × (m'.needs_attention ≡ false)
unfolding is_meeting is_meeting_row
handle_generating_phase_completes_example =
    handle_generating_phase_completes silent generating_event open_world busy_meeting db-IsLawful
      db-IsUp refl refl

update_meeting_status-quiet_example :
    (es : List MeetingStatusChangedEvent) × ((update_meeting_status db_services "m1" true
        open_world).1.emitted
      ≡ es ++ [])
    × All (λ e. is_generating e.phase ≡ false) es
update_meeting_status-quiet_example =
    update_meeting_status-quiet db_services "m1" true open_world db-IsLawful
