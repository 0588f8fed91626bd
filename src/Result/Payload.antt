-- ===== src/Result/Payload.antt =====
-- result/application/result.service.ts: what a result is made of, `generateResultPayload`.
use Prim.Native.String.{[], ◌∷◌}
use nangman_note.Base.{
  ℕ, String, Bool, true, false, Option, none, some, List, Outcome, Run, return, ◌>>=◌, ◌+◌, ◌-◌,
  ◌/◌, max, trim, truthy, is_space, any, or_else, if◌then◌else◌, ◌&&◌, ◌||◌, not, utf16_length, ◌≡◌,
  refl,
}
use nangman_note.Meeting.Entity.{
  MeetingEntity, MeetingCompletionState, succeeded, partial, attention_required,
}
use nangman_note.Meeting.Context.{World, Services, stored, reading}
use nangman_note.Meeting.Lifecycle.{find_by_id}
use nangman_note.Result.Entity.{ResultMetadata}

-- The columns of a transcript segment that are read; its end in whole seconds.
pub record Segment : Type 0 where
  pub text : Option String
  pub end_time : ℕ

pub record ResultPayload : Type 0 where
  pub prompt_id : String
  pub content : String
  pub needs_attention : Bool
  pub completion_state : MeetingCompletionState
  pub metadata : ResultMetadata

-- What is read and called: `PromptService.findById`, the note's content, the segments by start
-- time, `generateContentWithAI` with the meeting, the prompt, the note and the segments, and
-- `buildEmptyContentNotice`. A prompt is only handed on.
pub record Sources (S : Type 0) : Type 1 where
  pub Prompt : Type 0
  pub find_prompt : String → Option String → S → Outcome Prompt
  pub find_note : String → S → Outcome (Option String)
  pub find_segments : String → S → Outcome (List Segment)
  pub write_content : MeetingEntity → Prompt → String → List Segment → Run S String
  pub empty_notice : MeetingEntity → String

unfoldable pub determine_completion_state : Bool → Bool → MeetingCompletionState
determine_completion_state has_note has_transcript =
    if has_note && has_transcript
    then succeeded
    else (if has_note || has_transcript then partial else attention_required)

abbrev pub is_attention : MeetingCompletionState → Bool
is_attention attention_required = true
is_attention _ = false

abbrev pub has_text : Segment → Bool
has_text s = truthy (trim (or_else s.text ""))

-- `text.split(/\s+/).filter(Boolean).length`, and whether the text before ended in a word.
unfoldable pub count_words : Bool → String → ℕ
unfolding is_space
count_words in_word [] = 0
count_words in_word (c ∷ s) =
    let here = is_space c in (if not here && not in_word then 1 else 0) + count_words (not here) s

-- `segments.map((s) => s.text).join(' ')` puts a space between the texts, so words end with them.
unfoldable pub transcript_word_count : List Segment → ℕ
unfolding count_words
transcript_word_count List.[] = 0
transcript_word_count (List.◌∷◌ s ss) =
    count_words false (or_else s.text "") + transcript_word_count ss

abbrev pub last_end : List Segment → ℕ
last_end List.[] = 0
last_end (List.◌∷◌ s ss) = max s.end_time (last_end ss)

abbrev duration_by_meeting : MeetingEntity → ℕ
duration_by_meeting m = elim m.ended_at [ none ↦ 0 | some t ↦ (t - m.started_at) / 1000 ]

abbrev pub completion_of : String → List Segment → MeetingCompletionState
completion_of note segments = determine_completion_state (truthy note) (any has_text segments)

unfoldable pub metadata_of : MeetingEntity → String → List Segment → ℕ → ResultMetadata
unfolding transcript_word_count
metadata_of m note segments now = record {
  title = m.title;
  generated_at = now;
  total_duration = max (duration_by_meeting m) (last_end segments);
  transcript_word_count = transcript_word_count segments;
  note_length = utf16_length note;
}

module _ {S : Type 0} (services : Services S) (sources : Sources S) where
  open sources use {Prompt, find_prompt, find_note, find_segments, write_content, empty_notice}

  unfoldable pub content_of : MeetingEntity → Prompt → String → List Segment → Run (World S) String
  unfolding determine_completion_state
  content_of m prompt note segments =
      if is_attention (completion_of note segments)
      then return (empty_notice m)
      else stored (write_content m prompt note segments)

  unfoldable pub payload_with :
      MeetingEntity → String → Prompt → String → List Segment → ℕ → Run (World S) ResultPayload
  unfolding content_of metadata_of
  payload_with m prompt_id prompt note segments now = do
    content ← content_of m prompt note segments
    return (record {
      prompt_id = prompt_id;
      content = content;
      needs_attention = is_attention (completion_of note segments);
      completion_state = completion_of note segments;
      metadata = metadata_of m note segments now;
    })

  unfoldable pub generate_result_payload :
      String → Option String → Option String → ℕ → Run (World S) ResultPayload
  unfolding payload_with trim
  generate_result_payload meeting_id override owner_sub now = do
    m ← find_by_id services meeting_id owner_sub
    prompt ← reading (find_prompt (or_else override m.prompt_id) owner_sub)
    note ← reading (find_note meeting_id)
    segments ← reading (find_segments meeting_id)
    payload_with m (or_else override m.prompt_id) prompt (trim (or_else note "")) segments now

  -- A meeting without a word in its note and in its transcript costs no call of the model, and its
  -- payload asks for attention; a payload asks for attention in no other case.
  pub payload-quiet :
      (m : MeetingEntity) (prompt_id : String) (prompt : Prompt) (note : String)
      (segments : List Segment) (now : ℕ) (w : World S)
      → truthy note ≡ false
      → any has_text segments ≡ false
      → (payload_with m prompt_id prompt note segments now w).1 ≡ w
  unfolding payload_with content_of determine_completion_state
  payload-quiet m prompt_id prompt note segments now w a b = rw (a, b) refl
