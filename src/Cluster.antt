-- ===== src/Cluster.antt =====
-- internal/cluster: the member table and the failure detector.
pub mod Member
pub mod Membership
pub mod Swim
pub mod Discovery
