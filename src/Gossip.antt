-- ===== src/Gossip.antt =====
-- internal/gossip.
pub mod Circuit
pub mod Engine
