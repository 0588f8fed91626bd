-- ===== src/Examples/Sockets.antt =====
-- The theorems on the gateway and on the transcript of the page at concrete inputs.
use nangman_note.Base.{
  ℕ, String, true, false, none, some, List, [], ◌∷◌, ok, ◌≡◌, ◌≢◌, inl, refl, ◌+◌, arith, length,
  trim, trim_start, trim_end, is_space, eq_iff,
}
use nangman_note.Gateway.{Hall, Client, one, RealtimeService, limits, resolve_meeting_id}
use nangman_note.Gateway.Sockets.{AuthContext, has, handle_connection, grace_over}
use nangman_note.Gateway.Sessions.{stream_error, starting, switching_unstable}
use nangman_note.Gateway.Audio.{handle_audio, waits}
use nangman_note.Gateway.Roles.{IsProducer}
use nangman_note.Gateway.Monopoly.{is_answered, intruder_answered}
use nangman_note.Gateway.Breaker.{unstable_session-not_started}
use nangman_note.Gateway.Grace.{IsTidy}
use nangman_note.Gateway.Events.{
  Event, connected, disconnected, grace_passed, audio_sent, audio_resumed, run, run-IsTidy,
  reconnected-kept,
}
use nangman_note.TranscriptStore.{
  FinalSegment, TranscriptionState, Content, final_result, handle_payload, ServerSegment,
  sync_segments_from_server, from_server, add_final, is_duplicate, get_translation_status,
}
use nangman_note.TranscriptStore.Unique.{Distinct, handle_payload-Distinct}
use nangman_note.TranscriptStore.Synced.{Sorted, Mem, synced-Sorted}

-- The sessions that run, as the meetings' ids, and the chunks that were fed.
pub record Service : Type 0 where
  pub sessions : List String
  pub fed : ℕ

abbrev a_service : RealtimeService Service
a_service = record {
  is_uuid = λ s. true;
  find_meeting = λ id sub s. ok tt;
  has_active_realtime_session = λ id s. has id s.sessions;
  is_realtime_session_ready = λ id s. true;
  get_active_realtime_session_count = λ s. length s.sessions;
  feed_realtime_audio = λ id chunk s. (true, record s { fed = s.fed + 1 });
  stop_realtime_session = λ id s. (ok tt, record s { sessions = [] });
  clear_realtime_time_offset = λ id s. s;
}

abbrev silence : Service
silence = record { sessions = []; fed = 0 }

abbrev a_hall : Hall Service
a_hall = record {
  meeting_clients = λ m. none;
  meeting_producers = λ m. none;
  pending_session_stops = λ m. false;
  session_failures = λ m. none;
  socket_users = λ m. none;
  socket_auth_expires_at = λ m. none;
  socket_auth_expiry_timers = λ m. false;
  starting_session = λ m. false;
  last_backpressure_log_at = λ m. none;
  last_producer_reject_log_at = λ m. none;
  sent = [];
  dropped = [];
  store = silence;
}

abbrev a_client : Client
a_client = record { id = "s1"; meeting_id = one "m1" }

abbrev an_owner : AuthContext
an_owner = record { owner_sub = some "u1"; expires_at_ms = some 500000 }

m1-resolved : resolve_meeting_id a_service.is_uuid a_client.meeting_id ≡ some "m1"
unfolding resolve_meeting_id trim trim_start trim_end is_space
m1-resolved = refl

-- The socket has sent the meeting's first chunk.
abbrev busy_hall : Hall Service
busy_hall = record a_hall {
  meeting_clients = λ m. some ("s1" ∷ []);
  meeting_producers = λ m. some "s1";
}

abbrev an_intruder : Client
an_intruder = record { id = "s2"; meeting_id = one "m1" }

intruder-resolved : resolve_meeting_id a_service.is_uuid an_intruder.meeting_id ≡ some "m1"
unfolding resolve_meeting_id trim trim_start trim_end is_space
intruder-resolved = refl

-- The other socket comes, sends a chunk and goes, a session starts, and the other socket is back.
abbrev intrusion : List (Event Service)
intrusion =
    connected true (ok an_owner) an_intruder 7
    ∷ audio_sent an_intruder (1 ∷ 2 ∷ []) 8
    ∷ disconnected an_intruder
    ∷ audio_resumed a_client "m1" (1 ∷ []) starting (ok true) 9
    ∷ connected true (ok an_owner) an_intruder 10
    ∷ []

intruder_answered_example :
    let h' = run a_service (limits none none none) intrusion busy_hall in
    let turn = handle_audio a_service (limits none none none) an_intruder (3 ∷ []) 11 h' in
    IsProducer "s1" "m1" h'
    × (is_answered turn.0 ≡ true)
    × (turn.1.starting_session ≡ h'.starting_session)
    × (turn.1.store ≡ h'.store)
intruder_answered_example =
    intruder_answered a_service (limits none none none) "s1" "m1" intrusion an_intruder (3 ∷ []) 11
      busy_hall (record { is_producer = refl; connected = refl }) (tt, (tt, (refl, (tt, (tt, tt)))))
      intruder-resolved (λ e. ground (arith, (eq_iff "s2" "s1").1 e))

-- The session of a meeting has failed twice; it fails again, and a start of another meeting's
-- session succeeds.
abbrev shaky_hall : Hall Service
shaky_hall = record a_hall { session_failures = λ m. some (record { count = 2; last_at = 2000 }) }

abbrev retries : List (Event Service)
retries =
    audio_sent a_client (1 ∷ 2 ∷ []) 4000
    ∷ audio_resumed a_client "m1" (1 ∷ 2 ∷ []) switching_unstable (ok true) 4100
    ∷ audio_resumed a_client "m2" (1 ∷ 2 ∷ []) starting (ok true) 4200
    ∷ []

unstable_session-not_started_example :
    (handle_audio a_service
      (limits none none none)
      a_client
      (5 ∷ [])
      60000
      (run a_service (limits none none none) retries (stream_error "m1" 3000 shaky_hall))).0
    ≢ waits "m1" starting
unstable_session-not_started_example =
    unstable_session-not_started a_service (limits none none none) "m1" 3000
      (record { count = 2; last_at = 2000 }) retries a_client (5 ∷ []) 60000 shaky_hall refl
      (omega arith) (omega arith) (ground arith) (omega arith)

a_hall-IsTidy : IsTidy a_hall
a_hall-IsTidy = record { filled = λ m. tt }

abbrev blip : List (Event Service)
blip =
    connected true (ok an_owner) a_client 7
    ∷ disconnected a_client
    ∷ connected true (ok an_owner) a_client 9
    ∷ grace_passed "m1"
    ∷ []

run-IsTidy_example : IsTidy (run a_service (limits none none none) blip a_hall)
run-IsTidy_example = run-IsTidy a_service (limits none none none) blip a_hall a_hall-IsTidy

reconnected-kept_example :
    let h' = handle_connection a_service true (ok an_owner) a_client 9 a_hall in
    ((clients : List String) × (h'.meeting_clients "m1" ≡ some clients) × (has "s1" clients ≡ true))
    × (h'.pending_session_stops "m1" ≡ false)
    × ((grace_over a_service "m1" h').store ≡ silence)
reconnected-kept_example =
    reconnected-kept a_service (limits none none none) an_owner a_client "m1" 9 a_hall m1-resolved
      refl

-- The transcript of the page, with texts that need no cleaning.
abbrev same : String → String
same s = s

abbrev a_segment : String → String → ℕ → FinalSegment
a_segment id text start = record {
  result_id = id;
  text = text;
  translated_text = none;
  translation_status = none;
  start_time = start;
  end_time = start + 1000;
  detected_language = none;
  speaker_label = none;
}

abbrev a_transcript : TranscriptionState
a_transcript = record {
  segments = a_segment "r1" "hello" 0 ∷ [];
  partial = none;
  is_connected = true;
  is_transcript_expanded = false;
  has_active_session = true;
  error = none;
}

abbrev a_final : Content
a_final = record {
  result_id = "r2";
  text = "world";
  translated_text = none;
  translation_pending = false;
  start_time = 5000;
  end_time = 6000;
  detected_language = none;
  speaker_label = none;
}

handle_payload-Distinct_example :
    Distinct (a_segment "r1" "hello" 0 ∷ a_segment "r2" "world" 5000 ∷ [])
unfolding handle_payload add_final is_duplicate get_translation_status
handle_payload-Distinct_example =
    handle_payload-Distinct same same (final_result a_final) a_transcript (refl, tt)

abbrev a_row : ServerSegment
a_row = record {
  id = "7";
  text = "missed";
  translated_text = none;
  start_time = 2000;
  end_time = 3000;
  detected_language = none;
  speaker_label = none;
  provider_result_id = some "r9";
}

synced-Sorted_example :
    let after = (sync_segments_from_server same same (a_row ∷ []) a_transcript).segments in
    Sorted (λ x. x.start_time) after
    × Mem (from_server same same a_transcript.segments a_row) after
    × ((from_server same same a_transcript.segments a_row).text ≡ "missed")
synced-Sorted_example = synced-Sorted same same a_row [] a_transcript a_row (inl refl)
