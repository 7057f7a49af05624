-- ===== src/Controller.antt =====
-- services/attempt-controller: attempts in PocketBase and LabEnvironments in Kubernetes are kept
-- in step.
pub mod Value
pub mod Upstream
pub mod Downstream
pub mod Pocketbase
pub mod Subscription
pub mod Realtime
pub mod Config
pub mod Main
pub mod Kubernetes
