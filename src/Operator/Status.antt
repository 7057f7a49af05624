-- ===== src/Operator/Status.antt =====
-- services/labenv-operator/internal/controller/labenvironment_controller.go: the status that a
-- reconciliation works out from the pods of a lab.
pub mod Laws
use rootenv.Common.Dict
use rootenv.Common.Int.{ℤ}
use rootenv.Common.{
  ℕ, zero, suc, ◌+◌, ◌/◌, ◌%◌, Bool, true, false, not, Option, none, some, List, [], ◌∷◌, ◌++◌,
  length, Bytes, bytes_eq, nat_eq, ◌==◌, ltb, codes, if◌then◌else◌,
}
use rootenv.Operator.Api.{
  Asset, AssetStatus, Condition, LabEnvironmentSpec, LabEnvironmentStatus, LabEnvironment,
}
use rootenv.Operator.Cluster.{Read, found, not_found, read_failed}
use rootenv.Operator.Kube.{
  ContainerState, waiting, terminated, neither, PodStatus, Object, Content, pod_content,
}
use rootenv.Operator.Objects.Lab.{phase_terminating, unknown_status}

unfoldable pub container_reason : List ContainerState → Bytes
container_reason [] = []
container_reason (waiting reason ∷ _) = reason
container_reason (terminated reason ∷ _) = reason
container_reason (neither ∷ states) = container_reason states

unfoldable pub is_pod_ready : List (Bytes × Bool) → Bool
is_pod_ready [] = false
is_pod_ready ((type, status) ∷ conditions) =
    if type == codes "Ready" then status else is_pod_ready conditions

-- The status in an answer; the pod's zero value where there is none.
abbrev pub status_in : Content → PodStatus
status_in (pod_content _ status) = status
status_in _ = unknown_status

abbrev pub pod_status : Read Object → PodStatus
pod_status (found pod) = status_in pod.content
pod_status _ = unknown_status

abbrev pub pod_phase : Read Object → Bytes
pod_phase (found pod) = if pod.deleting then phase_terminating else (status_in pod.content).phase
pod_phase _ = codes "Pending"

unfoldable pub asset_status : Bytes → Asset → Read Object → AssetStatus
asset_status ns asset pod = record {
  name = asset.name;
  phase = pod_phase pod;
  reason = container_reason (pod_status pod).container_states;
  ready = is_pod_ready (pod_status pod).conditions;
  address = asset.name ++ codes "." ++ ns ++ codes ".svc.cluster.local";
  protocols = asset.protocols;
}

-- The lines on the assets that are not ready.
unfoldable pub not_ready_lines : List AssetStatus → List Bytes
not_ready_lines [] = []
not_ready_lines (a ∷ assets) =
    let rest = not_ready_lines assets in
    if a.ready then rest else (a.name ++ codes " - " ++ a.reason) ∷ rest

unfoldable pub count_ready : List AssetStatus → ℕ
count_ready [] = 0
count_ready (a ∷ assets) = let n = count_ready assets in if a.ready then suc n else n

-- `%d` of a number that is not negative; it has at most as many digits as its value, and one.
unfoldable pub digits : ℕ → ℕ → Bytes → Bytes
digits zero n later = later
digits (suc fuel) n later =
    let text = (48 + n % 10) ∷ later in
    let longer = digits fuel (n / 10) text in if ltb n 10 then text else longer

abbrev pub decimal : ℕ → Bytes
decimal n = digits (suc n) n []

-- `strings.Join(lines, ", ")`
unfoldable pub join_comma : List Bytes → Bytes
join_comma [] = []
join_comma (line ∷ []) = line
join_comma (line ∷ next ∷ lines) = line ++ codes ", " ++ join_comma (next ∷ lines)

abbrev pub ratio : ℕ → ℕ → Bytes
ratio ready total = decimal ready ++ codes "/" ++ decimal total

unfoldable pub lab_phase : ℕ → ℕ → Bytes
lab_phase ready total =
    if ready == total
    then codes "Ready"
    else if ready == 0
    then codes "Pending"
    else codes "Degraded"

unfoldable pub ready_condition : ℕ → ℕ → List Bytes → Condition
ready_condition ready total lines =
    if ready == total
    then record {
      type = codes "Ready";
      status = true;
      reason = codes "AllAssetsReady";
      message = codes "all assets are ready";
    }
    else record {
      type = codes "Ready";
      status = false;
      reason = codes "AssetsNotReady";
      message = ratio ready total ++ codes " assets ready; waiting for: " ++ join_comma lines;
    }

-- The end of `reconcileCreate` before the status is written. `set_condition` stands for
-- `meta.SetStatusCondition`.
unfoldable pub summarize :
    (Condition → List Condition → List Condition)
    → LabEnvironment
    → List AssetStatus
    → LabEnvironment
summarize set_condition env assets =
    let total = length env.spec.assets in
    let ready = count_ready assets in
    record (env) {
      status = record (env.status) {
        conditions =
            set_condition (ready_condition ready total (not_ready_lines assets))
              env.status.conditions;
        phase = lab_phase ready total;
        total_assets = total;
        ready_assets = ready;
        ready = ratio ready total;
        assets = assets;
      };
    }
