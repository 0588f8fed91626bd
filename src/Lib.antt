-- ===== src/Lib.antt =====
-- Verification of nangman-note, a note taker that records meetings, transcribes them, and has a
-- language model write up the result. The NestJS server keeps meetings, transcription jobs and
-- uploads in a database and talks to AWS; the browser records the audio and streams or uploads it.
--
-- What is modelled, and where:
-- - Meeting: backend/src/domain/meeting. Meeting/Entity holds the entity, its enums and the status
--   event; Meeting/Context the state of the services (the store behind the repositories, the
--   events emitted, the polls started) and the repositories; Meeting/Lifecycle the operations
--   findById, complete, updateStatus, updateProcessingPhase and markNeedsAttention of
--   MeetingService; Meeting/Trash its remove, restore, purge and their bulk forms; Meeting/Editing
--   its updatePrompt.
-- - Transcription: backend/src/domain/transcription/application. Segments is itemsToSegments and
--   mergeBatchSegments, Collector the TranscriptionResultCollectorService (its children: collecting,
--   polling, recovery, and the handler of the generating phase), Batch the upload and job part of
--   TranscriptionService, and Sweeping the StalledMeetingRecoveryService.
-- - Gateway: backend/src/domain/transcription/infrastructure/transcription.gateway.ts. Gateway holds
--   its maps and what it calls; Sockets the connections and disconnections with the grace period
--   and the expiry of tokens, Sessions the start of a session with the circuit breaker and the
--   limit, Audio the chunks and the stop. A chunk is cut at the await for its session, and Events is
--   any order of these turns, of the other handlers, which run as one turn, and of changes behind
--   the services.
-- - Result: backend/src/domain/result/application/result.service.ts. Payload is
--   generateResultPayload, Result its reading and generating, Regeneration both ways of generating
--   a result again.
-- - Note: backend/src/domain/note/application/note.service.ts. Register is the abstract register
--   that it implements, Interleaving the commits of several editors.
-- - NoteStore: frontend/domains/note/stores, noteStore.ts and noteDrafts.ts (Drafts), with the calls
--   cut at their awaits; Steps is any order of the editor's calls and the server's answers.
-- - TranscriptStore: frontend/domains/transcription/stores/transcriptionStore.ts.
-- - Encryption: backend/src/shared/crypto/encryption.service.ts.
-- - Notes: backend/src/shared/aws/bedrock/long-note-extraction.ts, splitSourceText and
--   splitNoteSources.
-- - Streaming: frontend/domains/transcription, lib/audioStreamingRuntime.ts with
--   hooks/audioStreamingPolicy.ts and the acknowledgements of hooks/useAudioStreaming.ts.
-- - Base: the calls (an awaited call returns or throws, and keeps what it wrote), the
--   repository interface, lists, texts and tests. Examples: a store in memory and concrete inputs.
--
-- How the parts interact: completing a meeting emits an event; the collector's handler of the
-- generating phase reacts to it. The collector and the sweep call the meeting service, the sweep
-- calls the collector and the upload service, and each of these starts polls of jobs. The note and
-- the result services read the meeting first, and the result service sets its prompt and phase. The
-- note store saves through the note service, whose conflicts it resolves; the page's transcript is
-- filled by what the gateway sends.
--
-- Conventions. Names are the source's, in snake case. A method of a service is a function into
-- `Run (World S)`, where `S` is the state behind the repositories and the external services, which
-- are parameters: TypeORM's repositories, AWS, the clock (an argument `now` or `clock`), the
-- generation of a result, and regular expressions. What the proofs need of the meetings' repository
-- is the record `IsLawful` and, where a result is promised, `IsUp`. A theorem that follows a row
-- through several calls is for calls of the server itself, without an owner, except for that of the
-- regeneration, which is for any owner and has `IsKeptFor`. Null and undefined are both `none`.
-- Times and offsets, floats of seconds in places, are natural numbers of milliseconds.
--
-- Bounds and fuel: the poll of a job has 2881 rounds, one more than the sleeps of five seconds that
-- fit into four hours; the cutting of a text has its length as fuel, and each chunk uses up at
-- least one code unit. The loop of a save goes round once per answer, as a step of the session. All
-- other loops are recursion on lists.
--
-- Not modelled: advisory locks, log lines and request contexts; the search, statistics and export
-- of meetings; the streaming provider and what TranscriptionService does behind the gateway; the
-- sharing of one generation between simultaneous requests of a process; the order of saves across
-- two sessions of one note; prompts and settings; rendering of documents; authentication; the views
-- of the browser. They are I/O, glue or left for later.
pub mod Base
pub mod Encryption
pub mod Meeting
pub mod Transcription
pub mod Gateway
pub mod Streaming
pub mod Note
pub mod NoteStore
pub mod Notes
pub mod Result
pub mod TranscriptStore
pub mod Examples
