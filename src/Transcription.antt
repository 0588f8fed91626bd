-- ===== src/Transcription.antt =====
-- backend/src/domain/transcription: batch uploads, transcription jobs, and what collects them.
pub mod Entity
pub mod Segments
pub mod Collector
pub mod Batch
pub mod Sweeping
