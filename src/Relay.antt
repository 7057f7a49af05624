-- ===== src/Relay.antt =====
-- The relay service (services/relay).
pub mod Limiter
pub mod Handler
pub mod Exec
pub mod Grader
pub mod Main
pub mod Observed
