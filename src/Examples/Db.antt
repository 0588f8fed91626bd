-- ===== src/Examples/Db.antt =====
-- A store in memory with one row per table, and the services over it.
use nangman_note.Base.{
  ℕ, Bool, true, false, Option, none, some, List, [], ◌∷◌, ok, Repository, ◌≡◌, refl, arith,
  str_eq_refl, if◌then◌else◌, is_some,
}
use nangman_note.Meeting.Entity.{MeetingEntity, MeetingStatus, MeetingTranscriptionMode}
use nangman_note.Meeting.Context.{
  World, Services, MeetingRepository, IsLawful, is_meeting, is_meeting_row,
}
use nangman_note.Meeting.Lifecycle.Rows.{IsUp}
use nangman_note.Transcription.Entity.{
  TranscriptionJobEntity, TranscriptionUploadEntity, TranscriptionJobStatus, issued,
}

pub record Db : Type 0 where
  pub meeting : Option MeetingEntity
  pub job : Option TranscriptionJobEntity
  pub upload : Option TranscriptionUploadEntity

abbrev pub matching : {E : Type 0} → (E → Bool) → Option E → Option E
matching p none = none
matching p (some x) = if p x then some x else none

abbrev pub as_list : {E : Type 0} → Option E → List E
as_list none = []
as_list (some x) = x ∷ []

abbrev pub one_if : Bool → ℕ
one_if true = 1
one_if false = 0

-- A table of one row, by a field of the store.
abbrev pub table : {E : Type 0} → (Db → Option E) → (Option E → Db → Db) → Repository E Db
table get set = record {
  find = λ p s. ok (as_list (matching p (get s)));
  find_one = λ p s. ok (matching p (get s));
  find_latest = λ p s. ok (matching p (get s));
  count = λ p s. ok (one_if (is_some (matching p (get s))));
  save = λ x s. (ok x, set (some x) s);
  update = λ p f s. (ok tt, s);
  insert = λ x s. (ok x, set (some x) s);
}

abbrev pub meeting_table : MeetingRepository Db
meeting_table = record {
  rows = table (λ s. s.meeting) (λ x s. record s { meeting = x });
  soft_remove = λ m s. (ok tt, record s { meeting = some (record m { deleted_at = some 1 }) });
  restore = λ id s. (ok tt, s);
  remove = λ m s. (ok tt, record s { meeting = none });
}

abbrev pub db_services : Services Db
db_services = record {
  meetings = meeting_table;
  jobs = table (λ s. s.job) (λ x s. record s { job = x });
  uploads = table (λ s. s.upload) (λ x s. record s { upload = x });
  ensure_prompt_exists = λ id sub s. (ok tt, s);
  refresh_by_meeting_id = λ id s. (ok tt, s);
}

matching-true :
    {E : Type 0} (p : E → Bool) (row : Option E) (x : E) → matching p row ≡ some x → p x ≡ true
matching-true p none x h = ground arith
matching-true p (some y) x h = grind arith

is_meeting_self : (m : MeetingEntity) → m.deleted_at ≡ none → is_meeting m.id none m ≡ true
unfolding is_meeting is_meeting_row
is_meeting_self m d = grind (arith, str_eq_refl m.id)

pub db-IsLawful : IsLawful db_services.meetings
db-IsLawful = record {
  found = λ id sub s m h. matching-true (is_meeting id sub) s.meeting m (ground arith);
  saved = λ m s. refl;
  kept = λ m s d. ground (arith, is_meeting_self m d);
}

pub db-IsUp : IsUp db_services
db-IsUp m s = (m, refl)

abbrev pub a_meeting : MeetingStatus → MeetingTranscriptionMode → MeetingEntity
a_meeting status mode = record {
  id = "m1";
  owner_sub = some "u1";
  title = none;
  agenda = none;
  prompt_id = "p1";
  status = status;
  processing_phase = none;
  needs_attention = false;
  completion_state = none;
  transcription_mode = mode;
  language_code = none;
  translate_target_language = none;
  started_at = 10;
  ended_at = none;
  updated_at = 20;
  deleted_at = none;
}

abbrev pub a_job : TranscriptionJobStatus → Option ℕ → TranscriptionJobEntity
a_job status collected_at = record {
  id = "j1";
  meeting_id = "m1";
  provider_job_id = "aws-transcribe-m1-j1";
  status = status;
  media_uri = "s3://audio/m1";
  idempotency_key = some "s3://audio/m1";
  language_code = "ko-KR";
  transcript_uri = none;
  error_message = none;
  collected_at = collected_at;
  start_offset = none;
  created_at = 100;
  updated_at = 100;
}

abbrev pub an_upload : TranscriptionUploadEntity
an_upload = record {
  id = "up1";
  meeting_id = "m1";
  bucket = "audio";
  s3_key = "m1";
  media_uri = "s3://audio/m1";
  status = issued;
  content_type = "audio/webm";
  transcription_job_id = none;
  error_message = none;
  confirmed_at = none;
  job_queued_at = none;
  expires_at = none;
  start_offset = none;
  created_at = 100;
}

abbrev pub world_of : Db → World Db
world_of db = record { store = db; emitted = []; polls = [] }

abbrev pub world_with :
    Option MeetingEntity
    → Option TranscriptionJobEntity
    → Option TranscriptionUploadEntity
    → World Db
world_with m j u = world_of (record { meeting = m; job = j; upload = u })
