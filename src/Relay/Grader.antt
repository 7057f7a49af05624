-- ===== src/Relay/Grader.antt =====
-- services/relay/grader: what a terminal printed is cut into lines, and the tasks' patterns are
-- matched against them.
pub mod Lines
pub mod Tasks
pub mod Backend
pub mod Listener
