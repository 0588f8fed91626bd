-- ===== src/Streaming/Policy.antt =====
-- frontend/domains/transcription/hooks/audioStreamingPolicy.ts.
use nangman_note.Base.{ℕ, ◌+◌, Bool, true, false, Option, none, some, ◌&&◌, leb, if◌then◌else◌}

-- The reasons that the code tells apart; `other` is any other text or none.
pub data AckReason : Type 0 where
  realtime_capacity_exceeded backpressure session_warming session_start_failed chunk_too_large
        ack_timeout other :
      AckReason

pub record AudioAckResponse : Type 0 where
  pub ok : Bool
  pub reason : AckReason
  pub retry_after : Option ℕ
  pub fallback_to_batch : Bool
  pub is_batch_mode : Bool

abbrev pub ack_timeout_ms : ℕ
ack_timeout_ms = 3000

abbrev pub max_consecutive_timeouts : ℕ
max_consecutive_timeouts = 15

abbrev pub max_consecutive_backpressure : ℕ
max_consecutive_backpressure = 30

abbrev pub max_saturation_ms : ℕ
max_saturation_ms = 10000

-- The texts that the user is shown, and the reasons that the fallback callback is given.
pub data Message : Type 0 where
  server_overloaded server_delayed warming_up chunk_lost unstable capacity_exceeded ack_delayed
        network_delayed connection_lost :
      Message

pub data FallbackReason : Type 0 where
  client_backpressure client_ack_timeout client_network_saturation client_connection_lost :
      FallbackReason
  from_server : AckReason → FallbackReason

pub data AckError : Type 0 where
  fallback : FallbackReason → Message → AckError
  warning : Message → AckError

-- `now - saturationStartedAt >= MAX`; the clock does not go back.
abbrev pub should_fallback_for_saturation : Option ℕ → ℕ → Bool
should_fallback_for_saturation none now = false
should_fallback_for_saturation (some started_at) now = leb (started_at + max_saturation_ms) now

abbrev pub is_capacity_reason : AckReason → Bool
is_capacity_reason realtime_capacity_exceeded = true
is_capacity_reason _ = false

abbrev pub is_backpressure : AckReason → Bool
is_backpressure backpressure = true
is_backpressure _ = false

unfoldable pub is_capacity_fallback_ack : AudioAckResponse → Bool
is_capacity_fallback_ack response =
    is_capacity_reason response.reason && (response.fallback_to_batch && response.is_batch_mode)

abbrev error_by_reason : AckReason → ℕ → AckError
error_by_reason backpressure n =
    if leb max_consecutive_backpressure n
    then fallback client_backpressure server_overloaded
    else warning server_delayed
error_by_reason session_warming n = warning warming_up
error_by_reason chunk_too_large n = warning chunk_lost
error_by_reason _ n = warning unstable

unfoldable pub get_ack_error_message : AudioAckResponse → ℕ → AckError
get_ack_error_message response n = error_by_reason response.reason n
