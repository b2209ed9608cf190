-- ===== src/Election.antt =====
-- internal/election: leader election by the Bully algorithm.
pub mod Bully
