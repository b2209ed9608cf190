-- ===== src/Crdt.antt =====
-- internal/crdt: the counter, the vector clock and the delta functions.
pub mod Counts
pub mod Sums
pub mod Copies
pub mod Extensional
pub mod Keys
pub mod PnCounter
pub mod VectorClock
pub mod Delta
pub mod Respect
