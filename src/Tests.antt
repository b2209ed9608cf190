-- ===== src/Tests.antt =====
-- Tests and the theorems at concrete inputs.
mod Crdt
mod Cluster
mod Election
mod Gossip
mod Service
mod Listing
mod Startup
mod Join
mod Persistence
mod System
mod Dashboard
