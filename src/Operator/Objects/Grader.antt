-- ===== src/Operator/Objects/Grader.antt =====
-- services/labenv-operator/internal/controller/grader.go: the objects of the grader.
use rootenv.Common.{some, List, [], ◌∷◌, ◌++◌, map, Bytes, codes}
use rootenv.Operator.Api.{Exercise, LabEnvironmentSpec, LabEnvironment}
use rootenv.Operator.Host.{GraderTask, GraderConfig}
use rootenv.Operator.Kube.{Object, Container, config_map_content, service_content}
use rootenv.Operator.Objects.Relay.{hardened, relay_pod_spec, deployment, ingress}
use rootenv.Operator.Objects.{plain, label, app}

abbrev pub grader_task : Exercise → GraderTask
grader_task ex = record { id = ex.id; type = ex.type; template = ex.template; asset = ex.asset }

abbrev pub grader_tasks : LabEnvironmentSpec → List GraderTask
grader_tasks spec = map grader_task spec.exercises

abbrev pub grader_tasks_config_map : Bytes → Bytes → Object
grader_tasks_config_map ns tasks_json =
    plain ns "grader-tasks" (config_map_content (label "tasks.json" tasks_json ∷ []))

abbrev grader_container : LabEnvironment → Bytes → GraderConfig → Container
grader_container env ns cfg = record {
  name = codes "relay-grader";
  image = cfg.image;
  pull_policy = codes "IfNotPresent";
  command = [];
  env =
      label "RELAY_MY_NAMESPACE" ns
      ∷ label "RELAY_MY_ATTEMPT_ID" env.name
      ∷ label "RELAY_MY_OWNER_ID" env.spec.owner_id
      ∷ label "RELAY_TASKS_FILE" (codes "/etc/grader/tasks.json")
      ∷ label "RELAY_GRADER_INTERNAL_PORT" (codes "8081")
      ∷ [];
  ports = 8081 ∷ [];
  read_only_mounts = label "grader-tasks" (codes "/etc/grader") ∷ [];
  security = some hardened;
  readiness_probe = some (codes "/healthz", 8080);
  requests = label "cpu" (codes "20m") ∷ label "memory" (codes "64Mi") ∷ [];
  limits = label "cpu" (codes "50m") ∷ label "memory" (codes "96Mi") ∷ [];
}

abbrev pub grader_deployment : LabEnvironment → Bytes → GraderConfig → Object
grader_deployment env ns cfg = deployment ns "relay-grader" (
    relay_pod_spec [] (grader_container env ns cfg)
      (label "grader-tasks" (codes "grader-tasks") ∷ []))

abbrev pub grader_service : Bytes → Object
grader_service ns = plain ns "relay-grader" (
    service_content [] (app "relay-grader") (
      record { name = codes "http"; port = 8080; target_port = 8080 }
      ∷ record { name = codes "internal"; port = 8081; target_port = 8081 }
      ∷ []))

abbrev pub grader_ingress : LabEnvironment → Bytes → GraderConfig → Object
grader_ingress env ns cfg =
    ingress ns "relay-grader" cfg.ingress_class cfg.ingress_annotations
      (cfg.ingress_base_path ++ codes "/" ++ env.name)
