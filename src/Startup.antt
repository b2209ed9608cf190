-- ===== src/Startup.antt =====
-- cmd/server/main.go: what a starting node does with its seeds, and its loops over the member table.
pub mod Seeds
pub mod Join
pub mod Recover
pub mod Pings
