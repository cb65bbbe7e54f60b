-- ===== src/Locks.antt =====
-- atomics.c and atomics.h: write locks on buckets with their counts, read locks, and the sequence
-- counter of a bucket.
mod Defs
mod Calls
pub mod Held
pub mod Changes
pub mod Tracking
pub mod Upgrades
pub mod Threads
pub mod Balance
pub mod Outcome
unfoldable pub use Defs.*
unfoldable pub use Calls.*
