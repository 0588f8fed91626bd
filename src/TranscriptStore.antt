-- ===== src/TranscriptStore.antt =====
-- domains/transcription/stores/transcriptionStore.ts: the transcript that the page shows. Times are
-- in milliseconds. The two text functions are parameters: `sanitize` (`sanitizeTranscriptText`) and
-- `normalize` (`normalizeTextForCompare`).
pub mod Unique
pub mod Synced
use nangman_note.Base.{
  ℕ, String, Bool, true, false, Option, none, some, List, [], ◌∷◌, ◌++◌, map, ◌+◌, ◌-◌, ltb, leb,
  not, ◌&&◌, ◌||◌, any, filter, or_else, truthy, truthy_text, is_some, length, drop, if◌then◌else◌,
  str_eq, ◌<>◌,
}

pub data TranslationStatus : Type 0 where
  pending done failed : TranslationStatus

pub record FinalSegment : Type 0 where
  pub result_id : String
  pub text : String
  pub translated_text : Option String
  pub translation_status : Option TranslationStatus
  pub start_time : ℕ
  pub end_time : ℕ
  pub detected_language : Option String
  pub speaker_label : Option String

pub record PartialSegment : Type 0 where
  pub result_id : String
  pub text : String
  pub start_time : ℕ
  pub end_time : ℕ
  pub detected_language : Option String

pub record TranscriptionState : Type 0 where
  pub segments : List FinalSegment
  pub partial : Option PartialSegment
  pub is_connected : Bool
  pub is_transcript_expanded : Bool
  pub has_active_session : Bool
  pub error : Option String

pub record Content : Type 0 where
  pub result_id : String
  pub text : String
  pub translated_text : Option String
  pub translation_pending : Bool
  pub start_time : ℕ
  pub end_time : ℕ
  pub detected_language : Option String
  pub speaker_label : Option String

pub data Payload : Type 0 where
  translation : String → Option String → Bool → Payload
  partial_result final_result : Content → Payload

-- A row that the server has.
pub record ServerSegment : Type 0 where
  pub id : String
  pub text : String
  pub translated_text : Option String
  pub start_time : ℕ
  pub end_time : ℕ
  pub detected_language : Option String
  pub speaker_label : Option String
  pub provider_result_id : Option String

-- `Math.abs(a - b)`.
abbrev pub distance : ℕ → ℕ → ℕ
distance a b = (a - b) + (b - a)

abbrev pub has_id : String → List FinalSegment → Bool
has_id id ss = any (λ s. str_eq s.result_id id) ss

unfoldable pub get_translation_status : Content → Option TranslationStatus
get_translation_status p =
    if p.translation_pending
    then some pending
    else (if is_some (truthy_text p.translated_text) then some done else none)

abbrev newer_text : Option String → Option String → Option String
newer_text none old = old
newer_text (some t) old = some t

unfoldable pub translate : String → Option String → Bool → FinalSegment → FinalSegment
translate id text is_failed s =
    if str_eq s.result_id id
    then record s {
      translated_text = newer_text text s.translated_text;
      translation_status = some (if is_failed then failed else done);
    }
    else s

abbrev last_of : List FinalSegment → Option FinalSegment
last_of [] = none
last_of (s ∷ []) = some s
last_of (s ∷ t ∷ ss) = last_of (t ∷ ss)

-- `sort((a, b) => a.startTime - b.startTime)`, which is stable.
module _ {A : Type 0} (start : A → ℕ) where
  unfoldable pub insert_by : A → List A → List A
  insert_by x [] = x ∷ []
  insert_by x (y ∷ ys) =
      let rest = insert_by x ys in if leb (start x) (start y) then x ∷ y ∷ ys else y ∷ rest

  unfoldable pub sort_by : List A → List A
  unfolding insert_by
  sort_by [] = []
  sort_by (x ∷ xs) = insert_by x (sort_by xs)

module _ (sanitize normalize : String → String) where
  -- The same text, ending within the tolerance.
  abbrev is_near : String → ℕ → ℕ → FinalSegment → Bool
  is_near text end tolerance s =
      str_eq (normalize s.text) text && ltb (distance s.end_time end) tolerance

  abbrev is_near_last : String → ℕ → Option FinalSegment → Bool
  is_near_last text end none = false
  is_near_last text end (some s) = is_near text end 800 s

  unfoldable pub is_duplicate : Content → List FinalSegment → Bool
  is_duplicate p ss =
      let text = normalize (sanitize p.text) in
      not (truthy text)
      || has_id p.result_id ss
      || is_near_last text p.end_time (last_of ss)
      || any (is_near text p.end_time 2500) (drop (length ss - 3) ss)

  abbrev pub final_segment : Content → FinalSegment
  final_segment p = record {
    result_id = p.result_id;
    text = sanitize p.text;
    translated_text = p.translated_text;
    translation_status = get_translation_status p;
    start_time = p.start_time;
    end_time = p.end_time;
    detected_language = p.detected_language;
    speaker_label = p.speaker_label;
  }

  unfoldable pub add_final : Content → List FinalSegment → List FinalSegment
  unfolding is_duplicate get_translation_status
  add_final p ss = if is_duplicate p ss then ss else ss ++ (final_segment p ∷ [])

  abbrev is_same_partial : Content → Option PartialSegment → Bool
  is_same_partial p none = false
  is_same_partial p (some q) =
      str_eq q.result_id p.result_id && str_eq (normalize q.text) (normalize (sanitize p.text))

  unfoldable pub handle_payload : Payload → TranscriptionState → TranscriptionState
  unfolding translate add_final
  handle_payload (translation id text is_failed) s = record s {
    segments = map (translate id text is_failed) s.segments;
  }
  handle_payload (partial_result p) s = if is_same_partial p s.partial then s else record s {
    partial = some (record {
      result_id = p.result_id;
      text = sanitize p.text;
      start_time = p.start_time;
      end_time = p.end_time;
      detected_language = p.detected_language;
    });
  }
  handle_payload (final_result p) s = record s { partial = none; segments = add_final p s.segments }

  unfoldable pub is_equivalent_segment : FinalSegment → String → ℕ → ℕ → Bool
  is_equivalent_segment s text start end =
      str_eq (normalize s.text) (normalize text)
      && leb (distance s.start_time start) 1000
      && leb (distance s.end_time end) 1000

  abbrev has_provider_id : Option String → FinalSegment → Bool
  has_provider_id none s = false
  has_provider_id (some id) s = truthy id && str_eq s.result_id id

  unfoldable pub local_match : ServerSegment → List FinalSegment → Option FinalSegment
  unfolding is_equivalent_segment
  local_match r [] = none
  local_match r (s ∷ ss) =
      let rest = local_match r ss in
      if has_provider_id r.provider_result_id s
        || is_equivalent_segment s (sanitize r.text) r.start_time r.end_time
      then some s
      else rest

  abbrev status_of : Option String → Option TranslationStatus → Option TranslationStatus
  status_of text old = if is_some (truthy_text text) then some done else old

  abbrev id_of : Option FinalSegment → String → String
  id_of none id = "server-" <> id
  id_of (some s) id = s.result_id

  abbrev text_of : Option FinalSegment → Option String
  text_of none = none
  text_of (some s) = s.translated_text

  abbrev old_status : Option FinalSegment → Option TranslationStatus
  old_status none = none
  old_status (some s) = s.translation_status

  -- The row as a segment, with what the page already had of it.
  unfoldable pub from_server : List FinalSegment → ServerSegment → FinalSegment
  unfolding local_match
  from_server ss r =
      let found = local_match r ss in
      record {
        result_id = or_else r.provider_result_id (id_of found r.id);
        text = sanitize r.text;
        translated_text = newer_text r.translated_text (text_of found);
        translation_status = status_of r.translated_text (old_status found);
        start_time = r.start_time;
        end_time = r.end_time;
        detected_language = r.detected_language;
        speaker_label = r.speaker_label;
      }

  abbrev end_of : Option FinalSegment → ℕ
  end_of none = 0
  end_of (some s) = s.end_time

  -- A local segment that the server may not have yet.
  unfoldable pub is_local_tail : List FinalSegment → FinalSegment → Bool
  unfolding is_equivalent_segment
  is_local_tail synced s =
      ltb (end_of (last_of synced) + 500) s.end_time
      && not (
          any
            (λ t.
              str_eq t.result_id s.result_id
              || is_equivalent_segment t s.text s.start_time s.end_time)
            synced)

  unfoldable pub synced_segments : List ServerSegment → List FinalSegment → List FinalSegment
  unfolding from_server sort_by
  synced_segments rows ss = map (from_server ss) (sort_by (λ r. r.start_time) rows)

  unfoldable pub merged_segments : List ServerSegment → List FinalSegment → List FinalSegment
  unfolding synced_segments is_local_tail sort_by
  merged_segments rows ss =
      let synced = synced_segments rows ss in
      sort_by (λ s. s.start_time) (synced ++ filter (is_local_tail synced) ss)

  unfoldable pub sync_segments_from_server :
      List ServerSegment → TranscriptionState → TranscriptionState
  unfolding merged_segments
  sync_segments_from_server [] s = s
  sync_segments_from_server (r ∷ rows) s = record s {
    segments = merged_segments (r ∷ rows) s.segments;
  }
