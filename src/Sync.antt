-- ===== src/Sync.antt =====
-- packages/core-state/src/sync.ts: the log of coordination updates that a host keeps, and the cache
-- that an agent rebuilds from it. Copies of updates are values in the model.
pub mod Log
pub mod Cache
pub mod Retained
pub mod Converge
mod Tests
