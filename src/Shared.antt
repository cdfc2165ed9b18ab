-- ===== src/Shared.antt =====
-- Small classes that the parts share: FreeList and MessageQueue.
pub mod FreeList
pub mod MessageQueue
mod Tests
