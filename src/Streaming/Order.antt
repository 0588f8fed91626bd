-- ===== src/Streaming/Order.antt =====
-- The order in which audio leaves the browser: one chunk at a time, by ascending number.
pub mod Buffer
pub mod Invariant
pub mod Steps
