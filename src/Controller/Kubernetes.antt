-- ===== src/Controller/Kubernetes.antt =====
-- services/attempt-controller/internal/k8s/k8sclient.go, and the group version of
-- services/labenv-operator/api/v1alpha1/groupversion_info.go: the resource on which the two services
-- meet.
use rootenv.Common.{
  ◌≡◌, refl, ◌⊎◌, inl, Option, none, some, Bytes, bytes_eq, bytes_beq, codes, ◌++◌, String,
}
use rootenv.Controller.Downstream.{Attempt, to_lab_environment}
use rootenv.Controller.Value.{text, get}

pub record GroupVersion : Type 0 where
  pub group : Bytes
  pub version : Bytes

-- The operator's.
abbrev pub scheme_group_version : GroupVersion
scheme_group_version = record { group = codes "lab.rootenv.io"; version = codes "v1alpha1" }

pub record GroupVersionResource : Type 0 where
  pub group : Bytes
  pub version : Bytes
  pub resource : Bytes

-- The attempt controller's.
abbrev pub lab_environment_gvr : GroupVersionResource
lab_environment_gvr = record {
  group = codes "lab.rootenv.io";
  version = codes "v1alpha1";
  resource = codes "labenvironments";
}

-- `NewClient`: `in_cluster` and `from_kubeconfig` are the two configurations, `none` on an error, and
-- `new_for_config` makes the client; `inl` is an error.
unfoldable pub new_client : {C D : Type 0} → Option C → Option C → (C → String ⊎ D) → String ⊎ D
new_client (some cfg) from_kubeconfig new_for_config = new_for_config cfg
new_client none (some cfg) new_for_config = new_for_config cfg
new_client none none new_for_config = inl "k8s config"

-- What the attempt controller applies, to the resource whose group and version it names, is of the
-- group and version that the operator registers its LabEnvironment with.
pub to_lab_environment-group :
    (a : Attempt)
    → (get (codes "apiVersion") (to_lab_environment a)
        ≡ text (scheme_group_version.group ++ codes "/" ++ scheme_group_version.version))
      × (lab_environment_gvr.group ≡ scheme_group_version.group)
      × (lab_environment_gvr.version ≡ scheme_group_version.version)
unfolding to_lab_environment get bytes_beq
to_lab_environment-group a = (refl, refl, refl)
