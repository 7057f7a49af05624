-- ===== src/Operator/Watch.antt =====
-- services/labenv-operator/internal/controller/labenvironment_controller.go: `SetupWithManager`,
-- the pods whose changes lead to a reconciliation, and of which lab.
use rootenv.Common.{
  ◌≡◌, ◌≢◌, ◌↔◌, List, [], ◌∷◌, Bytes, bytes_eq, bytes_beq, bytes_beq_iff, codes, if◌then◌else◌,
  arith,
}
use rootenv.Common.Dict
use rootenv.Operator.Api.{Asset, LabEnvironment}
use rootenv.Operator.Kube.{Labels}
use rootenv.Operator.Objects.Lab.{lab_pod}
use rootenv.Operator.Reconcile.{is_managed, pod_to_lab_env}

-- The requests that a change of a pod with these labels leads to.
unfoldable pub watch_requests : Labels → List Bytes
watch_requests labels = if is_managed labels then pod_to_lab_env labels else []

-- A change of a pod leads to one reconciliation, of the lab that its label names, exactly if it is
-- labelled as managed by the operator and that label is not empty; otherwise it leads to none.
pub watch_requests_iff :
    (labels : Labels) (name : Bytes)
    → (watch_requests labels ≡ name ∷ []) ↔ (
        (Dict.get_or (codes "rootenv.io/managed-by") [] labels ≡ codes "labenv-operator")
        × (Dict.get_or (codes "rootenv.io/attempt") [] labels ≡ name)
        × (name ≢ []))
unfolding watch_requests pod_to_lab_env
watch_requests_iff labels name = ground (
  arith,
  bytes_beq_iff (Dict.get_or (codes "rootenv.io/managed-by") [] labels) (codes "labenv-operator"),
  bytes_beq_iff (Dict.get_or (codes "rootenv.io/attempt") [] labels) [],
)

-- Every change of a pod that the operator makes for an asset leads to a reconciliation of the pod's
-- own lab, and of no other.
pub lab_pod-watched :
    (env : LabEnvironment) (ns : Bytes) (asset : Asset) (image : Bytes)
    → env.name ≢ []
    → watch_requests (lab_pod env ns asset image).labels ≡ env.name ∷ []
unfolding watch_requests pod_to_lab_env Dict.get_or bytes_beq
lab_pod-watched env ns asset image h = ground (arith, bytes_beq_iff env.name [])
