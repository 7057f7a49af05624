-- ===== src/Operator/Host.antt =====
-- What the operator uses of its process, and what it reads from it:
-- services/labenv-operator/internal/controller/labimages.go, and `loadGraderConfig` of grader.go.
use rootenv.Common.{
  Bool, Option, none, some, List, [], ◌∷◌, Bytes, bytes_eq, codes, ◌==◌, if◌then◌else◌,
}
use rootenv.Common.Dict.{Dict}
use rootenv.Operator.Api.{Condition}
use rootenv.Operator.Action.{Result, ok, err, unresolved_image}
use rootenv.Operator.RelayConfig.{
  or_default, default_ingress_controller_ns, middlewares_key, auth_middleware, add_raw,
}
use rootenv.Text.{trim_space}

pub data FileRead : Type 0 where
  contents : Bytes → FileRead
  no_file unreadable : FileRead

-- A task as the grader's file has it.
pub record GraderTask : Type 0 where
  pub id : Bytes
  pub type : Bytes
  pub template : Bytes
  pub asset : Bytes

-- `os.Getenv`, `os.ReadFile`, `filepath.Join` of two parts, whether `resource.ParseQuantity` takes
-- a text, `json.Marshal` of the tasks, and `meta.SetStatusCondition`.
pub record Host : Type 0 where
  pub getenv : Bytes → Bytes
  pub read_file : Bytes → FileRead
  pub join_path : Bytes → Bytes → Bytes
  pub is_quantity : Bytes → Bool
  pub marshal : List GraderTask → Option Bytes
  pub set_status_condition : Condition → List Condition → List Condition

abbrev pub default_lab_images_dir : Bytes
default_lab_images_dir = codes "/etc/lab-images"

abbrev pub lab_image_path : Host → Bytes → Bytes
lab_image_path h name =
    h.join_path (or_default (h.getenv (codes "LAB_IMAGES_DIR")) default_lab_images_dir) name

-- The error's text is left out.
abbrev pub ref_of : Bytes → FileRead → Result Bytes
ref_of name (contents file) = ok (trim_space file)
ref_of name no_file = ok name
ref_of name unreadable = err unresolved_image

abbrev pub load_lab_image_ref : Host → Bytes → Result Bytes
load_lab_image_ref h name = ref_of name (h.read_file (lab_image_path h name))

pub record GraderConfig : Type 0 where
  pub image : Bytes
  pub ingress_class : Bytes
  pub ingress_base_path : Bytes
  pub ingress_annotations : Dict Bytes Bytes
  pub ingress_controller_namespace : Bytes

unfoldable pub load_grader_config : (Bytes → Bytes) → Option GraderConfig
load_grader_config getenv =
    let namespace =
      or_default (getenv (codes "RELAY_INGRESS_CONTROLLER_NAMESPACE"))
        default_ingress_controller_ns in
    if getenv (codes "RELAY_GRADER_IMAGE") == []
    then none
    else some (record {
      image = getenv (codes "RELAY_GRADER_IMAGE");
      ingress_class = getenv (codes "RELAY_INGRESS_CLASS");
      ingress_base_path =
          or_default (getenv (codes "RELAY_GRADER_INGRESS_BASE_PATH")) (codes "/relay/grade");
      ingress_annotations =
          add_raw (getenv (codes "RELAY_INGRESS_ANNOTATIONS"))
            ((middlewares_key, auth_middleware namespace) ∷ []);
      ingress_controller_namespace = namespace;
    })
