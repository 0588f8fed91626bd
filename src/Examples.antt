-- ===== src/Examples.antt =====
-- Concrete inputs on which the theorems are applied, and a small store in memory.
pub mod Db
mod Meetings
mod Collecting
mod Uploading
mod Sweeps
mod Cutting
mod Audio
mod Editing
mod Sockets
mod Documents
