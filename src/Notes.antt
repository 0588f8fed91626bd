-- ===== src/Notes.antt =====
-- How the sources of a note are cut up for the language model:
-- backend/src/shared/aws/bedrock/long-note-extraction.ts.
pub mod Splitting
pub mod Sources
