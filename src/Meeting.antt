-- ===== src/Meeting.antt =====
-- backend/src/domain/meeting: the meeting entity, its store, and the service that moves a meeting
-- through its life.
pub mod Entity
pub mod Context
pub mod Lifecycle
pub mod Trash
pub mod Editing
