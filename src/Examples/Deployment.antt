-- ===== src/Examples/Deployment.antt =====
-- The relay that the operator deploys for Ann's attempt.
use rootenv.Authenticator.Handler.Laws.{IsConfirmed}
use rootenv.Common.Dict
use rootenv.Common.{◌≡◌, refl, false, some, [], ◌∷◌, Bytes, bytes_eq, bytes_beq, codes}
use rootenv.Examples.Access.{
  ann, client, pocket_base, browser, quiet, sixteen, granted_request, vm_served,
}
use rootenv.Examples.Lab as Lab
use rootenv.Operator.Api.{LabEnvironment}
use rootenv.Operator.Deployment.{IsEnvironment, serve_http-IsOwner}
use rootenv.Operator.Kube.{Labels}
use rootenv.Operator.Objects.Lab.{namespace_of}
use rootenv.Operator.Objects.Relay.{relay_deployment}
use rootenv.Operator.RelayConfig.{RelayConfig}
use rootenv.Relay.Main.Exec as Exec
use rootenv.Relay.Main.{info}

abbrev env : LabEnvironment
env = record (Lab.env) { spec = record (Lab.env.spec) { owner_id = ann } }

abbrev ns : Bytes
ns = namespace_of (codes "a7")

abbrev exec_config : RelayConfig
exec_config = record {
  image = codes "exec:1";
  ingress_class = [];
  ingress_base_path = codes "/relay/exec";
  ingress_annotations = [];
  ingress_controller_namespace = codes "kube-system";
}

-- The variables of both pods; each has more than it reads.
abbrev variables : Labels
variables =
    (codes "RELAY_MY_NAMESPACE", ns)
    ∷ (codes "RELAY_MY_ATTEMPT_ID", codes "a7")
    ∷ (codes "RELAY_MY_OWNER_ID", ann)
    ∷ (codes "RELAY_GRADER_ADDR", codes "relay-grader:8081")
    ∷ (codes "RELAY_TASKS_FILE", codes "/etc/grader/tasks.json")
    ∷ (codes "RELAY_GRADER_INTERNAL_PORT", codes "8081")
    ∷ []

abbrev environment : Bytes → Bytes
environment k = Dict.get_or k [] variables

exec_environment : IsEnvironment environment (relay_deployment env ns exec_config)
unfolding Dict.get_or bytes_beq
exec_environment = ((refl, (refl, (refl, (refl, tt)))), λ e. cc)

abbrev config : Exec.Config
config = record {
  port = codes "8080";
  namespace = ns;
  attempt_id = codes "a7";
  owner_id = ann;
  grader_addr = codes "relay-grader:8081";
  skip_auth = false;
  allowed_origins = [];
  log_level = info;
}

loaded : Exec.load_config environment ≡ some config
unfolding Exec.load_config Dict.get_or bytes_beq
loaded = refl

serve_http-IsOwner_example :
    (ann ≡ env.spec.owner_id) × IsConfirmed pocket_base client browser ann (codes "a7")
serve_http-IsOwner_example =
    serve_http-IsOwner environment env exec_config config pocket_base client browser ann
      (codes "a7") quiet sixteen (codes "vm/") (codes "vm") ann exec_environment (λ e. cc) (λ e. cc)
      loaded granted_request vm_served
