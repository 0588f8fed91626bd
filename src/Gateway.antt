-- ===== src/Gateway.antt =====
-- transcription/infrastructure/transcription.gateway.ts: the sockets of the meetings and their
-- realtime sessions. The clock is an argument, `now`; log lines are left out, but not the state that
-- throttles them.
pub mod Sockets
pub mod Sessions
pub mod Audio
pub mod Producer
pub mod Breaker
pub mod Grace
pub mod Events
pub mod Kept
pub mod Roles
pub mod Monopoly
use nangman_note.Base.{
  ℕ, String, Bool, true, false, Option, none, some, List, [], ◌∷◌, Outcome, Run, ◌+◌, ◌*◌, max,
  trim, truthy, if◌then◌else◌, str_eq, or_else, ◌==◌,
}

-- A `Map` or a `Set` keyed by a meeting's or a socket's id.
abbrev pub put : {A : Type 0} → String → A → (String → A) → String → A
put key value f k = if str_eq k key then value else f k

pub record SessionFailures : Type 0 where
  pub count : ℕ
  pub last_at : ℕ

-- What is sent to the sockets: the event, and the meeting's room or the one socket.
pub data Message : Type 0 where
  to_room to_socket : String → String → Message

-- The fields of the gateway, with the messages sent, the latest first, the sockets disconnected by
-- it, and `store`, the state behind the services that it calls.
pub record Hall (S : Type 0) : Type 0 where
  pub meeting_clients : String → Option (List String)
  pub meeting_producers : String → Option String
  pub pending_session_stops : String → Bool
  pub session_failures : String → Option SessionFailures
  pub socket_users : String → Option (Option String)
  pub socket_auth_expires_at : String → Option ℕ
  pub socket_auth_expiry_timers : String → Bool
  pub starting_session : String → Bool
  pub last_backpressure_log_at : String → Option ℕ
  pub last_producer_reject_log_at : String → Option ℕ
  pub sent : List Message
  pub dropped : List String
  pub store : S

-- The configured values, and the query parameter of a socket's handshake.
pub record Limits : Type 0 where
  pub max_concurrent_realtime_sessions : ℕ
  pub max_audio_chunk_bytes : ℕ
  pub backpressure_retry_ms : ℕ

abbrev configured : Option ℕ → ℕ → ℕ
configured none default = default
configured (some n) default = if n == 0 then default else n

-- The constructor: 0 and an absent value are falsy.
unfoldable pub limits : Option ℕ → Option ℕ → Option ℕ → Limits
limits sessions bytes retry = record {
  max_concurrent_realtime_sessions = max 1 (configured sessions 8);
  max_audio_chunk_bytes = max 4096 (configured bytes 65536);
  backpressure_retry_ms = max 50 (configured retry 200);
}

pub data Query : Type 0 where
  absent : Query
  one : String → Query
  many : List (Option String) → Query

pub record Client : Type 0 where
  pub id : String
  pub meeting_id : Query

abbrev pub access_token_clock_tolerance_ms : ℕ
access_token_clock_tolerance_ms = 5000

-- The realtime calls of transcription.service.ts over the state that they change, `findById` of
-- meeting.service.ts, and `isUUID`. The calls that a chunk of audio waits for are events.
pub record RealtimeService (S : Type 0) : Type 0 where
  pub is_uuid : String → Bool
  pub find_meeting : String → Option String → S → Outcome (Unit {0})
  pub has_active_realtime_session : String → S → Bool
  pub is_realtime_session_ready : String → S → Bool
  pub get_active_realtime_session_count : S → ℕ
  pub feed_realtime_audio : String → List ℕ → S → Bool × S
  pub stop_realtime_session : String → Run S (Unit {0})
  pub clear_realtime_time_offset : String → S → S

abbrev checked : (String → Bool) → String → Option String
checked is_uuid s =
    if truthy (trim s) then (if is_uuid (trim s) then some (trim s) else none) else none

unfoldable pub resolve_meeting_id : (String → Bool) → Query → Option String
unfolding trim
resolve_meeting_id is_uuid absent = none
resolve_meeting_id is_uuid (one s) = checked is_uuid s
resolve_meeting_id is_uuid (many []) = none
resolve_meeting_id is_uuid (many (none ∷ rest)) = none
resolve_meeting_id is_uuid (many (some s ∷ rest)) = checked is_uuid s

module _ {S : Type 0} where
  abbrev pub tell_room : String → String → Hall S → Hall S
  tell_room meeting event h = record h { sent = to_room event meeting ∷ h.sent }

  abbrev pub tell_socket : String → String → Hall S → Hall S
  tell_socket socket event h = record h { sent = to_socket event socket ∷ h.sent }

  abbrev pub drop_socket : String → Hall S → Hall S
  drop_socket socket h = record h { dropped = socket ∷ h.dropped }
