-- ===== src/Examples.antt =====
-- Runs of the definitions, and the theorems at concrete inputs.
mod Limiter
mod Access
mod Grader
mod Controller
mod Cluster
mod Lab
mod Operator
mod Reconcile
mod Deployment
mod Traffic
mod Session
mod Program
mod Manager
mod Observed
