-- ===== src/Watch.antt =====
-- The watch pipeline of src/watch: raw events are coalesced and become reconcile jobs.
pub mod Coalescer
pub mod Service
pub mod Reconcile
mod Tests
