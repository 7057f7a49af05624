-- ===== src/Operator/Objects/Lab.antt =====
-- The namespace of a lab, its limits, pods and headless services
-- (services/labenv-operator/internal/controller/labenvironment_controller.go).
use rootenv.Common.{false, none, some, [], ◌∷◌, ◌++◌, Bytes, codes, String}
use rootenv.Operator.Api.{Asset, LabEnvironment}
use rootenv.Operator.Kube.{
  Labels, Object, Container, PodSpec, PodStatus, namespace_content, resource_quota_content,
  limit_range_content, pod_content, service_content,
}
use rootenv.Operator.Objects.{plain, label}

abbrev pub finalizer_name : Bytes
finalizer_name = codes "labenv.rootenv.io/cleanup"

abbrev pub phase_terminating : Bytes
phase_terminating = codes "Terminating"

abbrev pub namespace_of : Bytes → Bytes
namespace_of name = codes "rootenv-lab-" ++ name

abbrev owned : LabEnvironment → Labels → Labels
owned env more =
    label "rootenv.io/attempt" env.name
    ∷ label "rootenv.io/owner-id" env.spec.owner_id
    ∷ label "rootenv.io/lab-id" env.spec.lab_id
    ∷ more

abbrev managed : Labels
managed = label "rootenv.io/managed-by" (codes "labenv-operator") ∷ []

abbrev owner_name : LabEnvironment → Labels
owner_name env = label "rootenv.io/owner-name" env.spec.owner_name ∷ []

abbrev pub lab_namespace : LabEnvironment → Bytes → Object
lab_namespace env ns = record {
  namespace = [];
  name = ns;
  labels = owned env managed;
  annotations = owner_name env;
  deleting = false;
  content = namespace_content;
}

abbrev pub resource_quota : Bytes → Object
resource_quota ns = plain ns "resource-quota" (
    resource_quota_content (
      label "limits.cpu" (codes "2")
      ∷ label "limits.memory" (codes "4Gi")
      ∷ label "requests.storage" (codes "5Gi")
      ∷ label "pods" (codes "6")
      ∷ []))

abbrev resources : String → String → Labels
resources cpu memory = label "cpu" (codes cpu) ∷ label "memory" (codes memory) ∷ []

abbrev pub limit_range : Bytes → Object
limit_range ns = plain ns "limit-range" (
    limit_range_content (resources "100m" "128Mi") (resources "100m" "128Mi")
      (resources "1000m" "1Gi"))

abbrev pub unknown_status : PodStatus
unknown_status = record { phase = []; container_states = []; conditions = [] }

abbrev main_container : Asset → Bytes → Container
main_container asset image = record {
  name = codes "main";
  image = image;
  pull_policy = codes "IfNotPresent";
  command = codes "sleep" ∷ codes "infinity" ∷ [];
  env = [];
  ports = [];
  read_only_mounts = [];
  security = none;
  readiness_probe = none;
  requests = [];
  limits =
      label "cpu" asset.cpu
      ∷ label "memory" asset.memory
      ∷ label "ephemeral-storage" asset.disk
      ∷ [];
}

abbrev pub lab_pod_spec : Asset → Bytes → PodSpec
lab_pod_spec asset image = record {
  restart_policy = codes "Never";
  host_users = some false;
  host_network = false;
  host_pid = false;
  host_ipc = false;
  automount_token = some false;
  service_account = [];
  run_as_non_root = none;
  run_as_user = none;
  seccomp_profile = codes "RuntimeDefault";
  containers = main_container asset image ∷ [];
  config_map_volumes = [];
}

abbrev pub lab_pod : LabEnvironment → Bytes → Asset → Bytes → Object
lab_pod env ns asset image = record {
  namespace = ns;
  name = asset.name;
  labels = owned env (label "rootenv.io/asset" asset.name ∷ managed);
  annotations = owner_name env;
  deleting = false;
  content = pod_content (lab_pod_spec asset image) unknown_status;
}

abbrev pub headless_service : LabEnvironment → Bytes → Bytes → Object
headless_service env ns asset_name = record {
  namespace = ns;
  name = asset_name;
  labels = owned env managed;
  annotations = owner_name env;
  deleting = false;
  content = service_content (codes "None") (label "rootenv.io/asset" asset_name ∷ []) [];
}
