-- ===== src/Operator/Objects/Relay.antt =====
-- services/labenv-operator/internal/controller/relay.go: the objects of the terminal relay.
use rootenv.Common.{
  true, false, Option, none, some, List, [], ◌∷◌, ◌++◌, Bytes, bytes_eq, codes, ◌==◌, String,
  if◌then◌else◌,
}
use rootenv.Operator.Api.{LabEnvironment}
use rootenv.Operator.Kube.{
  Labels, Object, Container, ContainerSecurity, PodSpec, service_account_content, role_content,
  role_binding_content, deployment_content, service_content, ingress_content,
}
use rootenv.Operator.Objects.{plain, label, app}
use rootenv.Operator.RelayConfig.{RelayConfig}

abbrev pub relay_service_account : Bytes → Object
relay_service_account ns = plain ns "relay" service_account_content

abbrev pub relay_role : Bytes → Object
relay_role ns = plain ns "relay" (
    role_content (
      record {
        api_groups = [] ∷ [];
        resources = codes "pods" ∷ [];
        verbs = codes "get" ∷ codes "list" ∷ [];
      }
      ∷ record {
        api_groups = [] ∷ [];
        resources = codes "pods/exec" ∷ [];
        verbs = codes "create" ∷ [];
      }
      ∷ []))

abbrev pub relay_role_binding : Bytes → Object
relay_role_binding ns = plain ns "relay" (role_binding_content (codes "relay") ns (codes "relay"))

abbrev pub hardened : ContainerSecurity
hardened = record {
  allow_privilege_escalation = false;
  read_only_root_filesystem = true;
  dropped_capabilities = codes "ALL" ∷ [];
}

-- The pods of both relays; they differ in their containers, accounts and volumes.
abbrev pub relay_pod_spec : Bytes → Container → List (Bytes × Bytes) → PodSpec
relay_pod_spec account container volumes = record {
  restart_policy = [];
  host_users = none;
  host_network = false;
  host_pid = false;
  host_ipc = false;
  automount_token = none;
  service_account = account;
  run_as_non_root = some true;
  run_as_user = some 10001;
  seccomp_profile = codes "RuntimeDefault";
  containers = container ∷ [];
  config_map_volumes = volumes;
}

abbrev relay_container : LabEnvironment → Bytes → RelayConfig → Container
relay_container env ns cfg = record {
  name = codes "relay-exec";
  image = cfg.image;
  pull_policy = codes "IfNotPresent";
  command = [];
  env =
      label "RELAY_MY_NAMESPACE" ns
      ∷ label "RELAY_MY_ATTEMPT_ID" env.name
      ∷ label "RELAY_MY_OWNER_ID" env.spec.owner_id
      ∷ label "RELAY_GRADER_ADDR" (codes "relay-grader:8081")
      ∷ [];
  ports = [];
  read_only_mounts = [];
  security = some hardened;
  readiness_probe = some (codes "/healthz", 8080);
  requests = label "cpu" (codes "20m") ∷ label "memory" (codes "64Mi") ∷ [];
  limits = label "cpu" (codes "50m") ∷ label "memory" (codes "96Mi") ∷ [];
}

abbrev pub deployment : Bytes → String → PodSpec → Object
deployment ns name spec = record (plain ns name (deployment_content 1 (app name) (app name) spec)) {
  labels = app name;
}

abbrev pub relay_deployment : LabEnvironment → Bytes → RelayConfig → Object
relay_deployment env ns cfg =
    deployment ns "relay-exec" (relay_pod_spec (codes "relay") (relay_container env ns cfg) [])

abbrev pub relay_service : Bytes → Object
relay_service ns = plain ns "relay" (
    service_content [] (app "relay-exec")
      (record { name = []; port = 8080; target_port = 8080 } ∷ []))

abbrev pub class_of : Bytes → Option Bytes
class_of class = if class == [] then none else some class

-- The ingresses of both relays. Annotations that are none and an empty map are the same.
abbrev pub ingress : Bytes → String → Bytes → Labels → Bytes → Object
ingress ns name class annotations path =
    record (plain ns name (
      ingress_content (record {
        tls = true;
        class_name = class_of class;
        path_prefix = path;
        backend = codes name;
        backend_port = 8080;
      }))) { annotations = annotations }

abbrev pub relay_ingress : LabEnvironment → Bytes → RelayConfig → Object
relay_ingress env ns cfg =
    ingress ns "relay" cfg.ingress_class cfg.ingress_annotations
      (cfg.ingress_base_path ++ codes "/" ++ env.name)
