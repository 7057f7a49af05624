-- ===== src/Lib.antt =====
-- The Go services of rootenv, which give each attempt at a lab an environment of its own in
-- Kubernetes: the program's core logic as definitions that run, and the theorems about it.
--
-- How the parts interact. An attempt is a record in PocketBase. The attempt controller hears of
-- its changes (Controller/Realtime), fetches it (Controller/Pocketbase), and applies it as a
-- LabEnvironment or deletes that (Controller/Subscription, Controller/Downstream). The operator
-- builds the environment (Operator/Reconcile, Operator/Ensure) and writes its status, which the
-- controller writes back to the attempt (Controller/Upstream). A browser reaches the
-- environment through a relay: the ingress asks the authenticator first (Authenticator), the
-- relay's handler checks the headers which that sets and limits the connections of a user
-- (Relay/Handler, Relay/Limiter), and Access puts the two together; Operator/Deployment adds
-- what the operator tells a relay of the lab that it serves. The exec relay forwards what a
-- terminal prints (Relay/Exec) to the grader, which matches the tasks' patterns against the
-- lines of it (Relay/Grader). Relay/Observed goes from a terminal to the grader, and Progress
-- from the operator to PocketBase. Controller/Main, Relay/Main/Server and Operator/Manager are
-- whole programs, as the steps that they take.
--
-- Where the code is, under services/:
--   Authenticator/Path, /Handler  relay-authenticator/internal/auth/handler.go
--   Authenticator/Client          relay-authenticator/internal/pbclient/client.go
--   Relay/Limiter                 relay/pkg/relaybase/limiter.go
--   Relay/Handler                 relay/pkg/relaybase/handler.go
--   Relay/Grader/Lines            relay/grader/lines.go
--   Relay/Grader/Tasks            relay/grader/tasks.go
--   Relay/Grader/Backend          relay/grader/backend.go
--   Relay/Grader/Listener         relay/grader/listener.go
--   Relay/Exec/Backend            relay/exec/backend.go
--   Relay/Exec/Session            relay/exec/backend.go, the goroutines of Serve
--   Relay/Exec/Kube               relay/exec/kube.go
--   Relay/Exec/Forwarder          relay/exec/forwarder.go
--   Relay/Main                    relay/cmd/relay-exec/main.go, relay/cmd/relay-grader/main.go
--   Authenticator/Main            relay-authenticator/cmd/main.go
--   Operator/Main                 labenv-operator/cmd/main.go
--   Operator/Api                  labenv-operator/api/v1alpha1/labenvironment_types.go
--   Operator/Objects, /Ensure     labenv-operator/internal/controller/{labenvironment_controller,
--                                 relay,grader}.go: the objects of a lab, the methods that make them
--   Operator/Traffic              what the network policies of Operator/Objects let through
--   Operator/RelayConfig          labenv-operator/internal/controller/relay.go, loadRelayConfig
--   Operator/Host                 labenv-operator/internal/controller/{labimages,grader}.go
--   Operator/Status, /Reconcile   labenv-operator/internal/controller/labenvironment_controller.go
--   Operator/Watch, /Manager      the same file, SetupWithManager
--   Controller/Config             attempt-controller/internal/config/config.go
--   Controller/Upstream           attempt-controller/internal/upstream/{reconcile,watcher}.go
--   Controller/Downstream         attempt-controller/internal/downstream/reconcile.go
--   Controller/Pocketbase         attempt-controller/internal/pocketbase/pbclient.go
--   Controller/Realtime           attempt-controller/internal/pocketbase/realtime.go
--   Controller/Subscription       attempt-controller/cmd/main.go, the handler of realtime events
--   Controller/Main               attempt-controller/cmd/main.go, internal/health/health.go
--   Progress                      labenv-operator/api/v1alpha1/labenvironment_types.go, the status
--   Controller/Kubernetes         attempt-controller/internal/k8s/k8sclient.go
-- Common holds what the parts share, Text what they use of Go's `strings`; Examples holds runs of
-- the definitions. Names are the source's, in lower case: `reconcile_lab_env` is `ReconcileLabEnv`.
--
-- Conventions. Go's strings are lists of bytes and its maps association lists. A function that
-- changes an object returns the changed one. A call on the outside (HTTP, Kubernetes, websockets,
-- JSON, regular expressions, clocks) is a parameter that gives its outcome; what a function asks of
-- the outside is in its result. Goroutines that share a lock or an atomic counter are steps, in any
-- order. The operator's methods are actions on the state of a Kubernetes API (Operator/Cluster),
-- which stop at the first error and keep what they changed; the API is a record of its calls, and
-- IsLawful says what Kubernetes documents of them. Reads go through the cache of the operator's
-- client, which may be behind: IsLawful takes what is found to be there still, and nothing of what
-- is not found. Logging is left out.
--
-- Bounds and fuel. `subscribe_attempts` counts the frames of a connection; its termination theorem
-- says how many steps are enough. All else is by recursion on the data. A Go integer that counts
-- connections is an integer without bounds here: it stays between 0 and the number of goroutines.
-- The operator's durations wrap around at 64 bits (Common/Int64). `digits` has fuel for one digit
-- more than its number's value (Operator/Status/Laws).
--
-- Not modelled: the routing of Go's HTTP servers, the intervals of timers, and logging; a token of
-- PocketBase that another goroutine renews between two requests of a call; the
-- generated copies of the API types; the helpers of the end-to-end tests; the frontend, PocketBase's
-- hooks, scripts, labs and manifests, which are not Go.
pub mod Common
pub mod Text
pub mod Access
pub mod Progress
pub mod Authenticator
pub mod Relay
pub mod Operator
pub mod Controller
mod Examples
