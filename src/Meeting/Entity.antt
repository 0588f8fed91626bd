-- ===== src/Meeting/Entity.antt =====
-- meeting/domain: the entity and its enums, and shared/events/meeting-status-changed.event.ts.
use nangman_note.Base.{ℕ, String, Bool, Option}

pub data MeetingStatus : Type 0 where
  recording processing completed : MeetingStatus

pub data MeetingProcessingPhase : Type 0 where
  uploading transcribing generating regenerating : MeetingProcessingPhase

pub data MeetingCompletionState : Type 0 where
  succeeded partial attention_required failed : MeetingCompletionState

pub data MeetingTranscriptionMode : Type 0 where
  batch realtime : MeetingTranscriptionMode

-- A column that is null and one that is undefined are both `none`. Times are milliseconds.
pub record MeetingEntity : Type 0 where
  pub id : String
  pub owner_sub : Option String
  pub title : Option String
  pub agenda : Option String
  pub prompt_id : String
  pub status : MeetingStatus
  pub processing_phase : Option MeetingProcessingPhase
  pub needs_attention : Bool
  pub completion_state : Option MeetingCompletionState
  pub transcription_mode : MeetingTranscriptionMode
  pub language_code : Option String
  pub translate_target_language : Option String
  pub started_at : ℕ
  pub ended_at : Option ℕ
  pub updated_at : ℕ
  pub deleted_at : Option ℕ

pub data MeetingStatusPhase : Type 0 where
  phase : MeetingProcessingPhase → MeetingStatusPhase
  completed : MeetingStatusPhase

pub record MeetingStatusChangedEvent : Type 0 where
  pub meeting_id : String
  pub status : MeetingStatus
  pub phase : Option MeetingStatusPhase
  pub owner_sub : Option String
  pub needs_attention : Bool
  pub completion_state : Option MeetingCompletionState

-- Tests on the enums, as `===` makes them.
abbrev pub is_recording : MeetingStatus → Bool
is_recording recording = Bool.true
is_recording _ = Bool.false

abbrev pub is_processing : MeetingStatus → Bool
is_processing processing = Bool.true
is_processing _ = Bool.false

abbrev pub is_completed : MeetingStatus → Bool
is_completed completed = Bool.true
is_completed _ = Bool.false

abbrev pub is_batch : MeetingTranscriptionMode → Bool
is_batch batch = Bool.true
is_batch realtime = Bool.false

abbrev pub is_regenerating : Option MeetingProcessingPhase → Bool
is_regenerating (Option.some regenerating) = Bool.true
is_regenerating _ = Bool.false

abbrev pub is_generating : Option MeetingStatusPhase → Bool
is_generating (Option.some (phase generating)) = Bool.true
is_generating _ = Bool.false
