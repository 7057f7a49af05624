-- ===== src/Relay/Exec.antt =====
-- services/relay/exec: terminals of a lab's pods, whose output is forwarded to the grader.
pub mod Forwarder
pub mod Session
pub mod Backend
pub mod Kube
