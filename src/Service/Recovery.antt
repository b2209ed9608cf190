-- ===== src/Service/Recovery.antt =====
-- What a restarted process rebuilds from its store and its log.
pub mod Same
pub mod Calls
pub mod Durable
pub mod Restart
pub mod Handled
pub mod Crashes
pub mod Damage
pub mod Twice
