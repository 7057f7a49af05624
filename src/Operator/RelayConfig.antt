-- ===== src/Operator/RelayConfig.antt =====
-- services/labenv-operator/internal/controller/relay.go: `loadRelayConfig`.
pub mod Laws
use rootenv.Common.Dict
use rootenv.Common.Dict.{Dict}
use rootenv.Common.{
  Option, none, some, List, [], ◌∷◌, ◌++◌, Bytes, bytes_eq, codes, ◌==◌, if◌then◌else◌,
}
use rootenv.Text.{trim_space, split, cut}

pub record RelayConfig : Type 0 where
  pub image : Bytes
  pub ingress_class : Bytes
  pub ingress_base_path : Bytes
  pub ingress_annotations : Dict Bytes Bytes
  pub ingress_controller_namespace : Bytes

abbrev pub default_ingress_controller_ns : Bytes
default_ingress_controller_ns = codes "kube-system"

abbrev pub middlewares_key : Bytes
middlewares_key = codes "traefik.ingress.kubernetes.io/router.middlewares"

abbrev pub auth_middleware : Bytes → Bytes
auth_middleware namespace = namespace ++ codes "-relay-auth-middleware@kubernetescrd"

abbrev pub or_default : Bytes → Bytes → Bytes
or_default v d = if v == [] then d else v

-- The key and the value that a token sets, if it sets any.
unfoldable pub entry_of : Bytes → Option (Bytes × Bytes)
entry_of token =
    let (k, after) = cut b'=' token in
    elim after [
      | none ↦ none
      | some v ↦ if trim_space k == [] then none else some (trim_space k, v)
    ]

unfoldable pub add_entry : Option (Bytes × Bytes) → Dict Bytes Bytes → Dict Bytes Bytes
add_entry none d = d
add_entry (some (k, v)) d = Dict.insert k v d

unfoldable pub add_tokens : List Bytes → Dict Bytes Bytes → Dict Bytes Bytes
add_tokens [] d = d
add_tokens (t ∷ ts) d = add_tokens ts (add_entry (entry_of t) d)

unfoldable pub add_raw : Bytes → Dict Bytes Bytes → Dict Bytes Bytes
add_raw raw d = if raw == [] then d else add_tokens (split b',' raw) d

-- `getenv` stands for `os.Getenv`; `none` is the error that the image is missing.
unfoldable pub load_relay_config : (Bytes → Bytes) → Option RelayConfig
load_relay_config getenv =
    let namespace =
      or_default (getenv (codes "RELAY_INGRESS_CONTROLLER_NAMESPACE"))
        default_ingress_controller_ns in
    if getenv (codes "RELAY_EXEC_IMAGE") == []
    then none
    else some (record {
      image = getenv (codes "RELAY_EXEC_IMAGE");
      ingress_class = getenv (codes "RELAY_INGRESS_CLASS");
      ingress_base_path =
          or_default (getenv (codes "RELAY_EXEC_INGRESS_BASE_PATH")) (codes "/relay/exec");
      ingress_annotations =
          add_raw (getenv (codes "RELAY_INGRESS_ANNOTATIONS"))
            ((middlewares_key, auth_middleware namespace) ∷ []);
      ingress_controller_namespace = namespace;
    })
