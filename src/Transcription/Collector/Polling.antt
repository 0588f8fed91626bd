-- ===== src/Transcription/Collector/Polling.antt =====
-- The poll of a job that runs at the provider: `pollAndCollectInternal` of
-- transcription-result-collector.service.ts. `clock k` is the time of the `k`-th test of the loop;
-- between two tests the loop sleeps for `POLL_INTERVAL_MS`. The rounds are fuel.
use nangman_note.Base.{
  ℕ, zero, suc, ◌+◌, ◌-◌, ◌*◌, ◌≤◌, ◌<◌, String, true, Option, none, some, Outcome, ok, thrown, Run,
  return, catch, is_some, if◌then◌else◌, ltb, ◌>>=◌, ◌>>◌, ◌≢◌, arith,
}
use nangman_note.Meeting.Context.{World, stored}
use nangman_note.Meeting.Lifecycle.{find_by_id, mark_needs_attention}
use nangman_note.Transcription.Entity.{
  TranscriptionJobEntity, TranscriptionJobStatus, completed, failed,
}
use nangman_note.Transcription.Collector.{
  Collaborators, JobStatusResult, CollectResult, failed_result, collect_result, is_job, with_status,
  retrigger_generation_if_stuck, emit_generating_phase_if_all_jobs_settled,
}
use nangman_note.Transcription.Collector.Collecting.{collect_completed_job}

abbrev pub poll_interval_ms : ℕ
poll_interval_ms = 5000

abbrev pub max_poll_duration_ms : ℕ
max_poll_duration_ms = 14400000

-- The loop gets as many rounds as sleeps fit into its window, and one more.
abbrev pub max_rounds : ℕ
max_rounds = 2881

module _ {S : Type 0} (host : Collaborators S) where
  open host use {services}

  -- The audio file is kept.
  unfoldable pub finalize_after_failed_transcription :
      String → Option String → ℕ → Run (World S) (Unit {0})
  finalize_after_failed_transcription meeting_id owner_sub now =
      mark_needs_attention services meeting_id owner_sub
      >> emit_generating_phase_if_all_jobs_settled host meeting_id owner_sub now

  -- `getJobStatus`, and the answer written to the row of the job.
  abbrev pub refresh_status : TranscriptionJobEntity → Run (World S) JobStatusResult
  refresh_status job = do
    result ← stored (host.get_job_status job.provider_job_id)
    stored (services.jobs.update (is_job job.id) (with_status result))
    return result

  -- What follows on the answer: a job that ended is collected or closed.
  abbrev pub settle :
      TranscriptionJobStatus
      → TranscriptionJobEntity
      → String
      → Option String
      → Option String
      → ℕ
      → Run (World S) (Option CollectResult)
  settle completed job meeting_id uri owner_sub now = do
    count ← collect_completed_job host job.id uri owner_sub now
    return (some (collect_result count))
  settle failed job meeting_id uri owner_sub now = do
    finalize_after_failed_transcription meeting_id owner_sub now
    return (some failed_result)
  settle _ job meeting_id uri owner_sub now = return none

  -- The body of the loop, without its sleep: an exception is logged, and the loop goes on.
  unfoldable pub poll_round :
      TranscriptionJobEntity → String → Option String → ℕ → Run (World S) (Option CollectResult)
  poll_round job meeting_id owner_sub now =
      catch
        (refresh_status job >>= λ r. settle r.status job meeting_id r.transcript_uri owner_sub now)
        (λ e. return none)

  -- The loop, from its `k`-th test on; `none` when the rounds did not suffice.
  abbrev pub next_round :
      Outcome (Option CollectResult)
      → Option (CollectResult × World S)
      → World S
      → Option (CollectResult × World S)
  next_round (ok (some r)) rest w = some (r, w)
  next_round (ok none) rest w = rest
  next_round (thrown e) rest w = rest

  unfoldable pub poll_loop :
      ℕ
      → (ℕ → ℕ)
      → ℕ
      → TranscriptionJobEntity
      → String
      → Option String
      → World S
      → Option (CollectResult × World S)
  unfolding poll_round
  poll_loop zero clock k job meeting_id owner_sub w = none
  poll_loop (suc rounds) clock k job meeting_id owner_sub w =
      let (r, w') = poll_round job meeting_id owner_sub (clock k) w in
      let rest = poll_loop rounds clock (suc k) job meeting_id owner_sub w' in
      if ltb (clock k - clock 0) max_poll_duration_ms
      then next_round r rest w'
      else some (failed_result, w)

  -- `meetingOwnerSub` is undefined when the meeting is not found.
  abbrev owner_of : String → Run (World S) (Option String)
  owner_of meeting_id =
      catch (find_by_id services meeting_id none >>= λ m. return m.owner_sub) (λ e. return none)

  abbrev pub poll_job :
      TranscriptionJobEntity
      → String
      → Option String
      → (ℕ → ℕ)
      → World S
      → Option (Outcome CollectResult × World S)
  poll_job job meeting_id owner_sub clock w =
      elim (poll_loop max_rounds clock 0 job meeting_id owner_sub w) [
        | none ↦ none
        | some x ↦ some (ok x.0, x.1)
      ]

  -- The poll of a job that was found. Of a job that is collected, nothing is fetched.
  abbrev pub poll_found :
      Option TranscriptionJobEntity
      → String
      → Option String
      → (ℕ → ℕ)
      → World S
      → Option (Outcome CollectResult × World S)
  poll_found none meeting_id owner_sub clock w = some (ok failed_result, w)
  poll_found (some job) meeting_id owner_sub clock w =
      if is_some job.collected_at
      then some (
          (retrigger_generation_if_stuck host meeting_id owner_sub (clock 0)
              >> return (record { success = true; segment_count = 0 }))
            w)
      else poll_job job meeting_id owner_sub clock w

  abbrev pub poll_row :
      Outcome (Option TranscriptionJobEntity)
      → String
      → Option String
      → (ℕ → ℕ)
      → World S
      → Option (Outcome CollectResult × World S)
  poll_row (ok found) meeting_id owner_sub clock w = poll_found found meeting_id owner_sub clock w
  poll_row (thrown e) meeting_id owner_sub clock w = some (thrown e, w)

  unfoldable pub poll_and_collect :
      String → String → (ℕ → ℕ) → World S → Option (Outcome CollectResult × World S)
  poll_and_collect meeting_id job_id clock w =
      let (r, w') = owner_of meeting_id w in
      elim r [
        | thrown e ↦ some (thrown e, w')
        | ok owner_sub ↦
            poll_row (services.jobs.find_one (is_job job_id) w'.store) meeting_id owner_sub clock w'
      ]

  clock_grows :
      (clock : ℕ → ℕ)
      → ((k : ℕ) → clock k + poll_interval_ms ≤ clock (suc k))
      → (k : ℕ) → clock 0 + poll_interval_ms * k ≤ clock k
  clock_grows clock step zero = omega arith
  clock_grows clock step (suc k) = grind (arith, step k, clock_grows clock step k)

  -- With the rounds that are left, the loop reaches the end of its window.
  poll_loop_ends :
      (rounds : ℕ) (clock : ℕ → ℕ) (k : ℕ) (job : TranscriptionJobEntity) (meeting_id : String)
      (owner_sub : Option String) (w : World S)
      → ((k : ℕ) → clock k + poll_interval_ms ≤ clock (suc k))
      → k < max_rounds
      → max_rounds ≤ rounds + k
      → poll_loop rounds clock k job meeting_id owner_sub w ≢ none
  unfolding poll_loop
  poll_loop_ends zero clock k job meeting_id owner_sub w step lt enough = omega arith
  poll_loop_ends (suc rounds) clock k job meeting_id owner_sub w step lt enough = grind (
    arith,
    clock_grows clock step k,
    poll_loop_ends rounds clock (suc k) job meeting_id owner_sub
        (poll_round job meeting_id owner_sub (clock k) w).1 step,
  )

  -- When each sleep takes at least its five seconds, the poll ends: it never runs out of rounds.
  pub poll_and_collect_ends :
      (meeting_id job_id : String) (clock : ℕ → ℕ) (w : World S)
      → ((k : ℕ) → clock k + poll_interval_ms ≤ clock (suc k))
      → poll_and_collect meeting_id job_id clock w ≢ none
  unfolding poll_and_collect
  poll_and_collect_ends meeting_id job_id clock w step = grind (
    arith,
    λ (job : TranscriptionJobEntity) (owner_sub : Option String) (v : World S).
        poll_loop_ends max_rounds clock 0 job meeting_id owner_sub v step (omega arith)
          (omega arith),
  )
