-- ===== src/Operator.antt =====
-- services/labenv-operator: a LabEnvironment is turned into the objects of its namespace.
pub mod Api
pub mod Main
pub mod Kube
pub mod Cluster
pub mod Action
pub mod RelayConfig
pub mod Host
pub mod Objects
pub mod Ensure
pub mod Status
pub mod Reconcile
pub mod Deployment
pub mod Traffic
pub mod Watch
pub mod Manager
