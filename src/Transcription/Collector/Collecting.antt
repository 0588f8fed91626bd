-- ===== src/Transcription/Collector/Collecting.antt =====
-- How a job whose transcript is ready is collected, and how one that failed is closed:
-- `collectCompletedJob` and `finalizeAfterFailedTranscription` of
-- transcription-result-collector.service.ts.
use nangman_note.Base.{
  ℕ, String, true, false, Option, none, some, Outcome, Failure, ok, thrown, message, Run, return,
  catch, is_some, if◌then◌else◌, ◌>>=◌, ◌>>◌, ◌<>◌, str_eq_refl, starts_with-append, ◌≡◌, inl, inr,
  refl, arith, outcome-cases,
}
use nangman_note.Meeting.Context.{World, stored, reading}
use nangman_note.Transcription.Entity.{
  TranscriptionJobEntity, completed, failed, collection_failure_prefix, unsettled_transcription_job,
}
use nangman_note.Transcription.Collector.{
  Collaborators, is_job, or_kept, parse_and_save_results, retrigger_generation_if_stuck,
  emit_generating_phase_if_all_jobs_settled,
}

-- `transcriptUri ?? job.transcriptUri`.
abbrev pub effective_uri : Option String → Option String → Option String
effective_uri none saved = saved
effective_uri (some uri) saved = some uri

-- The job as it is saved when its transcript could not be collected, and when it was.
abbrev pub with_failure : Failure → TranscriptionJobEntity → TranscriptionJobEntity
with_failure e job = record job {
  status = failed;
  error_message = some (collection_failure_prefix <> message e);
}

abbrev pub with_collection : Option String → ℕ → TranscriptionJobEntity → TranscriptionJobEntity
with_collection uri now job = record job {
  status = completed;
  transcript_uri = or_kept uri job.transcript_uri;
  error_message = none;
  collected_at = some now;
}

module _ {S : Type 0} (host : Collaborators S) where
  open host use {services}

  -- `deleteAudioFile`, whose failure is logged only.
  abbrev pub delete_audio : String → Run (World S) (Unit {0})
  delete_audio media_uri = catch (stored (host.delete_audio_file media_uri)) (λ e. return tt)

  abbrev pub save_failure : Failure → TranscriptionJobEntity → Run (World S) (Option ℕ)
  save_failure e job =
      catch (stored (services.jobs.save (with_failure e job)) >> return tt) (λ e. return tt)
      >> return none

  abbrev pub save_collection :
      TranscriptionJobEntity → Option String → Option String → ℕ → ℕ → Run (World S) (Option ℕ)
  save_collection job uri owner_sub now segment_count = do
    stored (services.jobs.save (with_collection uri now job))
    delete_audio job.media_uri
    emit_generating_phase_if_all_jobs_settled host job.meeting_id owner_sub now
    return (some segment_count)

  -- The `try` around `parseAndSaveResults` ends before the result is saved.
  abbrev pub after_parsing :
      TranscriptionJobEntity
      → Option String
      → Option String
      → ℕ
      → Outcome ℕ
      → Run (World S) (Option ℕ)
  after_parsing job uri owner_sub now (ok segment_count) =
      save_collection job uri owner_sub now segment_count
  after_parsing job uri owner_sub now (thrown e) = save_failure e job

  unfoldable pub collect_job :
      TranscriptionJobEntity → Option String → Option String → ℕ → Run (World S) (Option ℕ)
  unfolding parse_and_save_results
  collect_job job uri owner_sub now w =
      let (parsed, w') = parse_and_save_results host job uri w in
      after_parsing job uri owner_sub now parsed w'

  unfoldable pub collect_completed_job :
      String → Option String → Option String → ℕ → Run (World S) (Option ℕ)
  unfolding collect_job
  collect_completed_job job_id transcript_uri owner_sub now = do
    found ← reading (services.jobs.find_one (is_job job_id))
    elim found [
      | none ↦ return (some 0)
      | some job ↦
          if is_some job.collected_at
          then (retrigger_generation_if_stuck host job.meeting_id owner_sub now >> return (some 0))
          else collect_job job (effective_uri transcript_uri job.transcript_uri) owner_sub now
    ]

  failure-unsettled :
      (e : Failure) (job : TranscriptionJobEntity)
      → unsettled_transcription_job job.meeting_id (with_failure e job) ≡ true
  unfolding unsettled_transcription_job
  failure-unsettled e job =
      grind (
        arith,
        str_eq_refl job.meeting_id,
        starts_with-append collection_failure_prefix (message e),
      )

  collection-settled :
      (meeting_id : String) (uri : Option String) (now : ℕ) (job : TranscriptionJobEntity)
      → unsettled_transcription_job meeting_id (with_collection uri now job) ≡ false
  unfolding unsettled_transcription_job
  collection-settled meeting_id uri now job = ground arith

  -- When a transcript cannot be fetched, parsed or stored, the call returns `null` and tells
  -- nobody; the row that it hands to `save` carries the error and counts as not settled.
  pub failed_collection_lem :
      (job : TranscriptionJobEntity) (uri owner_sub : Option String) (now : ℕ) (w : World S)
      {e : Failure}
      → (parse_and_save_results host job uri w).0 ≡ thrown e
      → ((collect_job job uri owner_sub now w).0 ≡ ok none)
        × ((collect_job job uri owner_sub now w).1.emitted ≡ w.emitted)
        × ((saved : TranscriptionJobEntity) × ((collect_job job uri owner_sub now w).1.store
              ≡ (services.jobs.save saved (parse_and_save_results host job uri w).1.store).1)
            × (saved.error_message ≡ some (collection_failure_prefix <> message e))
            × (unsettled_transcription_job job.meeting_id saved ≡ true))
  unfolding collect_job parse_and_save_results
  failed_collection_lem job uri owner_sub now w {e} h = (
    ground arith,
    ground arith,
    (with_failure e job, ground arith, refl, failure-unsettled e job),
  )

  -- When a job's transcript was collected, its number of segments is returned, the row that was
  -- saved has the time of the collection and no error, and it counts as settled.
  pub collected_lem :
      (job : TranscriptionJobEntity) (uri owner_sub : Option String) (now n : ℕ) (w w' : World S)
      → collect_job job uri owner_sub now w ≡ (ok (some n), w')
      → ((parse_and_save_results host job uri w).0 ≡ ok n)
        × ((saved row : TranscriptionJobEntity) × ((services.jobs.save saved
                (parse_and_save_results host job uri w).1.store).0
              ≡ ok row)
            × (saved.collected_at ≡ some now)
            × (saved.error_message ≡ none)
            × (unsettled_transcription_job job.meeting_id saved ≡ false))
  unfolding collect_job
  collected_lem job uri owner_sub now n w w' h =
      elim (outcome-cases
        (services.jobs.save (with_collection uri now job)
          (parse_and_save_results host job uri w).1.store).0) [
            | inl (r, e) ↦ (
              ground arith,
              (
                with_collection uri now job,
                r,
                ground arith,
                refl,
                refl,
                collection-settled job.meeting_id uri now job,
              ),
            )
            | inr (x, e) ↦ absurd (ground arith)
          ]
