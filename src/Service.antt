-- ===== src/Service.antt =====
-- internal/service/counter_service.go.
pub mod State
pub mod Handlers
pub mod Sync
pub mod Members
pub mod Listing
pub mod Recovery
