-- ===== src/Server.antt =====
-- internal/server: what stands before the handlers of the gRPC server.
pub mod Auth
pub mod Floats
pub mod RateLimit
pub mod Chain
