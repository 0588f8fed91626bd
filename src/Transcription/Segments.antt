-- ===== src/Transcription/Segments.antt =====
-- transcription/application/transcription-result-collector.service.ts: how the words of a batch
-- result become segments (`buildSpeakerLookup`, `itemsToSegments`) on one timeline
-- (`mergeBatchSegments`). Times, floats of seconds in the source, are in milliseconds, and
-- `parse_time` stands for `parseFloat` of such a text. The confidence of a segment, a quotient of
-- floats, is an exact fraction.
pub mod Words
pub mod Texts
pub mod Lossless
pub mod Ink
pub mod Timeline
use Prim.Native.Char.{Char, code}
use nangman_note.Base.{
  ℕ, suc, ◌+◌, String, Bool, true, false, Option, none, some, List, [], ◌∷◌, ◌++◌, ◌&&◌, ◌||◌, not,
  leb, ltb, ◌==◌, if◌then◌else◌, or_else, truthy, is_some, str_eq, map, trim, ◌<>◌, includes_any,
}

pub record TranscribeItem : Type 0 where
  pub is_punctuation : Bool
  pub content : Option String
  pub confidence : Option ℕ
  pub start_time : Option String
  pub end_time : Option String

pub record SpeakerItem : Type 0 where
  pub start_time : String
  pub speaker_label : String

-- The quotient of two numbers, as they are.
pub record Fraction : Type 0 where
  pub numerator : ℕ
  pub denominator : ℕ

pub record Segment : Type 0 where
  pub start_time : ℕ
  pub end_time : ℕ
  pub text : String
  pub confidence : Fraction
  pub speaker_label : Option String
  pub transcription_job_id : Option String

-- The map from start times to speakers: of two entries for one time, the later one counts.
unfoldable pub build_speaker_lookup : List SpeakerItem → String → Option String
build_speaker_lookup [] time = none
build_speaker_lookup (item ∷ items) time =
    let rest = build_speaker_lookup items time in
    if is_some rest
    then rest
    else (if str_eq item.start_time time then some item.speaker_label else none)

-- The variables of `itemsToSegments`; `segments` has the latest first.
pub record Draft : Type 0 where
  pub segments : List Segment
  pub current_text : String
  pub current_start_time : ℕ
  pub current_end_time : ℕ
  pub current_confidence : ℕ
  pub current_speaker : Option String
  pub word_count : ℕ

abbrev pub empty_draft : Draft
empty_draft = record {
  segments = [];
  current_text = "";
  current_start_time = 0;
  current_end_time = 0;
  current_confidence = 0;
  current_speaker = none;
  word_count = 0;
}

abbrev pub current_segment : Draft → Segment
current_segment d = record {
  start_time = d.current_start_time;
  end_time = d.current_end_time;
  text = trim d.current_text;
  confidence = record { numerator = d.current_confidence; denominator = d.word_count };
  speaker_label = d.current_speaker;
  transcription_job_id = none;
}

abbrev pub flush_segment : Draft → Draft
flush_segment d = record d {
  segments =
      if truthy (trim d.current_text) && ltb 0 d.word_count
      then current_segment d ∷ d.segments
      else d.segments;
  current_text = "";
  current_confidence = 0;
  word_count = 0;
}

-- `/[.?!]/.test(content)`.
abbrev ends_sentence : Char → Bool
ends_sentence c = code c == b'.' || (code c == b'?' || code c == b'!')

abbrev pub is_sentence_end : String → Bool
is_sentence_end s = includes_any ends_sentence s

unfoldable pub add_punctuation : String → Draft → Draft
add_punctuation content d =
    let d' : Draft = record d { current_text = d.current_text <> content } in
    if is_sentence_end content && ltb 0 d.word_count then flush_segment d' else d'

-- `a && b && a !== b`, for two labels that may be absent.
abbrev pub differs : Option String → Option String → Bool
differs (some a) (some b) = truthy a && (truthy b && not (str_eq a b))
differs _ _ = false

-- A change of speaker closes the segment that has words.
abbrev pub split_on_speaker : Option String → Draft → Draft
split_on_speaker speaker d =
    if differs speaker d.current_speaker && ltb 0 d.word_count then flush_segment d else d

abbrev pub open_segment : ℕ → Option String → Draft → Draft
open_segment start_time speaker d =
    if d.word_count == 0
    then record d { current_start_time = start_time; current_speaker = speaker }
    else d

abbrev speaker_or : Option String → Option String → Option String
speaker_or none old = old
speaker_or (some s) old = if truthy s then some s else old

abbrev pub append_word : String → ℕ → ℕ → Option String → Draft → Draft
append_word content confidence end_time speaker d = record d {
  current_text =
      (if truthy d.current_text then d.current_text <> " " else d.current_text) <> content;
  current_end_time = end_time;
  current_confidence = d.current_confidence + confidence;
  current_speaker = speaker_or speaker d.current_speaker;
  word_count = d.word_count + 1;
}

abbrev pub max_words : ℕ
max_words = 20

abbrev pub max_span_ms : ℕ
max_span_ms = 15000

-- `wordCount >= 20 || endTime - currentStartTime >= 15`.
abbrev pub flush_if_long : ℕ → Draft → Draft
flush_if_long end_time d =
    if leb max_words d.word_count || leb (d.current_start_time + max_span_ms) end_time
    then flush_segment d
    else d

unfoldable pub add_word : String → ℕ → ℕ → ℕ → Option String → Draft → Draft
add_word content confidence start_time end_time speaker d = flush_if_long end_time (
    append_word content confidence end_time speaker
      (open_segment start_time speaker (split_on_speaker speaker d)))

module _ (parse_time : String → ℕ) (default_confidence : ℕ)
    (speakers : String → Option String) where
  unfoldable pub add_item : TranscribeItem → Draft → Draft
  unfolding add_punctuation add_word
  add_item item d =
      if item.is_punctuation
      then add_punctuation (or_else item.content "") d
      else add_word (or_else item.content "") (or_else item.confidence default_confidence)
          (parse_time (or_else item.start_time "0")) (parse_time (or_else item.end_time "0"))
          (speakers (or_else item.start_time "")) d

  unfoldable pub add_items : List TranscribeItem → Draft → Draft
  unfolding add_item
  add_items [] d = d
  add_items (item ∷ items) d = add_items items (add_item item d)

abbrev pub reverse_onto : List Segment → List Segment → List Segment
reverse_onto [] out = out
reverse_onto (s ∷ ss) out = reverse_onto ss (s ∷ out)

-- The segments in the order of the text.
unfoldable pub items_to_segments :
    (String → ℕ) → ℕ → (String → Option String) → List TranscribeItem → List Segment
unfolding add_items
items_to_segments parse_time default_confidence speakers items =
    reverse_onto
      (flush_segment (add_items parse_time default_confidence speakers items empty_draft)).segments
      []

-- The loop of `mergeBatchSegments`: the job's id and its offset on the meeting's timeline.
abbrev pub place : String → ℕ → Segment → Segment
place job_id offset segment =
    let tagged : Segment = record segment { transcription_job_id = some job_id } in
    if ltb 0 offset
    then record tagged {
      start_time = segment.start_time + offset;
      end_time = segment.end_time + offset;
    }
    else tagged

unfoldable pub place_segments : String → ℕ → List Segment → List Segment
place_segments job_id offset segments = map (place job_id offset) segments
