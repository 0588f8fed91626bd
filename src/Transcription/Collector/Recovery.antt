-- ===== src/Transcription/Collector/Recovery.antt =====
-- The recovery of a job whose poll has died: `recoverMissingBatchJob` and
-- `recoverStalledBatchJob` of transcription-result-collector.service.ts.
use nangman_note.Base.{
  ℕ, ◌+◌, ◌-◌, ◌≤◌, ◌<◌, String, Bool, true, false, Option, none, some, ◌∷◌, Outcome, Failure, ok,
  thrown, Run, return, modify, catch, is_some, if◌then◌else◌, ltb, ◌||◌, ◌>>=◌, ◌>>◌, ◌≡◌, ◌≢◌,
  arith,
}
use nangman_note.Meeting.Entity.{MeetingEntity, processing}
use nangman_note.Meeting.Context.{World, stored, reading, is_meeting}
use nangman_note.Meeting.Lifecycle.{mark_needs_attention, find_by_id}
use nangman_note.Transcription.Entity.{
  TranscriptionJobEntity, TranscriptionJobStatus, completed, failed,
}
use nangman_note.Transcription.Collector.{
  Collaborators, JobStatusResult, CollectResult, failed_result, is_job, with_status,
  max_job_lifetime_ms, retrigger_generation_if_stuck, emit_generating_phase,
}
use nangman_note.Transcription.Collector.Polling.{settle, finalize_after_failed_transcription}

abbrev pub is_completed_job : TranscriptionJobStatus → Bool
is_completed_job completed = true
is_completed_job _ = false

-- Of a job in progress.
abbrev pub is_running : TranscriptionJobStatus → Bool
is_running completed = false
is_running failed = false
is_running _ = true

abbrev pub stalled_error : String
stalled_error = "Batch transcription did not finish within 6h"

abbrev pub with_stall : TranscriptionJobEntity → TranscriptionJobEntity
with_stall job = record job { status = failed; error_message = some stalled_error }

module _ {S : Type 0} (host : Collaborators S) where
  open host use {services}

  unfoldable pub recover_missing_batch_job : String → Option String → Run (World S) (Unit {0})
  recover_missing_batch_job meeting_id owner_sub =
      mark_needs_attention services meeting_id owner_sub
      >> emit_generating_phase host meeting_id owner_sub

  -- `resumePollingInBackground`, which is not awaited.
  abbrev pub resume_polling : String → String → Run (World S) (Unit {0})
  resume_polling meeting_id job_id =
      modify (λ w. record w { polls = (meeting_id, job_id) ∷ w.polls })

  -- The body of the `try`, with the job as it was assigned to on the way, which an exception does
  -- not undo; `none` stands for the ways that go on behind it.
  abbrev pub recheck :
      Outcome JobStatusResult
      → TranscriptionJobEntity
      → String
      → Option String
      → ℕ
      → Run (World S) (TranscriptionJobEntity × Option CollectResult)
  recheck (thrown e) job meeting_id owner_sub now = return (job, none)
  recheck (ok r) job meeting_id owner_sub now =
      catch
        (stored (services.jobs.update (is_job job.id) (with_status r))
          >> settle host r.status job meeting_id r.transcript_uri owner_sub now
          >>= λ result. return (with_status r job, result))
        (λ e. return (with_status r job, none))

  -- A job beyond its lifetime fails at last, unless it is known to be completed.
  abbrev pub give_up :
      TranscriptionJobEntity → String → Option String → ℕ → Run (World S) CollectResult
  give_up job meeting_id owner_sub now =
      if is_completed_job job.status || is_some job.collected_at
      then (retrigger_generation_if_stuck host meeting_id owner_sub now >> return failed_result)
      else (stored (services.jobs.update (is_job job.id) with_stall)
          >> finalize_after_failed_transcription host meeting_id owner_sub now
          >> return failed_result)

  abbrev pub after_recheck :
      Option CollectResult
      → TranscriptionJobEntity
      → String
      → String
      → Option String
      → ℕ
      → Bool
      → Run (World S) CollectResult
  after_recheck (some result) job meeting_id job_id owner_sub now young = return result
  after_recheck none job meeting_id job_id owner_sub now true =
      resume_polling meeting_id job_id >> return failed_result
  after_recheck none job meeting_id job_id owner_sub now false =
      give_up job meeting_id owner_sub now

  unfoldable pub recover_job :
      TranscriptionJobEntity → String → String → Option String → ℕ → Run (World S) CollectResult
  recover_job job meeting_id job_id owner_sub now w =
      let (answer, w') = stored (host.get_job_status job.provider_job_id) w in
      (recheck answer job meeting_id owner_sub now >>= λ x.
      after_recheck x.1 x.0 meeting_id job_id owner_sub now
        (ltb (now - job.created_at) max_job_lifetime_ms))
        w'

  unfoldable pub recover_stalled_batch_job :
      String → String → Option String → ℕ → Run (World S) CollectResult
  unfolding recover_job recover_missing_batch_job
  recover_stalled_batch_job meeting_id job_id owner_sub now = do
    found ← reading (services.jobs.find_one (is_job job_id))
    elim found [
      | none ↦ recover_missing_batch_job meeting_id owner_sub >> return failed_result
      | some job ↦ recover_job job meeting_id job_id owner_sub now
    ]

  -- Within its lifetime, a job of which the provider cannot be asked is polled again: the call
  -- returns, no event goes out, and of the store nothing changes but what the question did.
  pub young_job-polled_again :
      (meeting_id job_id : String) (owner_sub : Option String) (now : ℕ) (w : World S)
      (job : TranscriptionJobEntity) {e : Failure}
      → services.jobs.find_one (is_job job_id) w.store ≡ ok (some job)
      → now < job.created_at + max_job_lifetime_ms
      → (host.get_job_status job.provider_job_id w.store).0 ≡ thrown e
      → recover_stalled_batch_job meeting_id job_id owner_sub now w ≡ (
        ok failed_result,
        record w {
          store = (host.get_job_status job.provider_job_id w.store).1;
          polls = (meeting_id, job_id) ∷ w.polls;
        },
      )
  unfolding recover_stalled_batch_job
  young_job-polled_again meeting_id job_id owner_sub now w job f y h = ground arith

  -- Within its lifetime, a job that the provider still works on is polled again, and no event
  -- goes out, whether the row could be written or not.
  pub running_job-polled_again :
      (meeting_id job_id : String) (owner_sub : Option String) (now : ℕ) (w : World S)
      (job : TranscriptionJobEntity) (r : JobStatusResult)
      → services.jobs.find_one (is_job job_id) w.store ≡ ok (some job)
      → now < job.created_at + max_job_lifetime_ms
      → (host.get_job_status job.provider_job_id w.store).0 ≡ ok r
      → is_running r.status ≡ true
      → ((recover_stalled_batch_job meeting_id job_id owner_sub now w).0 ≡ ok failed_result)
        × ((recover_stalled_batch_job meeting_id job_id owner_sub now w).1.emitted ≡ w.emitted)
        × ((recover_stalled_batch_job meeting_id job_id owner_sub now w).1.polls
            ≡ (meeting_id, job_id) ∷ w.polls)
  unfolding recover_stalled_batch_job
  running_job-polled_again meeting_id job_id owner_sub now w job r f y h s = ground arith

  -- Beyond its lifetime, a job that was collected is not overwritten when the provider cannot be
  -- asked: if its meeting is not in processing, nothing changes but what the question did.
  pub collected_job-kept :
      (meeting_id job_id : String) (owner_sub : Option String) (now t : ℕ) (w : World S)
      (job : TranscriptionJobEntity) (m : MeetingEntity) {e : Failure}
      → services.jobs.find_one (is_job job_id) w.store ≡ ok (some job)
      → job.collected_at ≡ some t
      → job.created_at + max_job_lifetime_ms ≤ now
      → (host.get_job_status job.provider_job_id w.store).0 ≡ thrown e
      → services.meetings.rows.find_one
          (is_meeting meeting_id owner_sub)
          (host.get_job_status job.provider_job_id w.store).1
        ≡ ok (some m)
      → m.status ≢ processing
      → recover_stalled_batch_job meeting_id job_id owner_sub now w ≡ (
        ok failed_result,
        record w { store = (host.get_job_status job.provider_job_id w.store).1 },
      )
  unfolding recover_stalled_batch_job retrigger_generation_if_stuck find_by_id
  collected_job-kept meeting_id job_id owner_sub now t w job m f c y h g s = ground arith
