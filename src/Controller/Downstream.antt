-- ===== src/Controller/Downstream.antt =====
-- services/attempt-controller/internal/downstream: an attempt's desired state is applied to its
-- LabEnvironment.
pub mod Translation
pub mod Laws
use rootenv.Common.{
  ℕ, Bool, true, false, not, Option, none, some, List, [], ◌∷◌, ◌++◌, Bytes, bytes_eq, codes, ◌==◌,
  if◌then◌else◌,
}
use rootenv.Common.Int.{ℤ}
use rootenv.Controller.Value.{
  Value, number, text, array, object, Values, no_items, item, Fields, no_fields, field, texts,
}

-- `protocols` is `none` where Go's slice is nil.
pub record Asset : Type 0 where
  pub name : Bytes
  pub image : Bytes
  pub cpu : Bytes
  pub memory : Bytes
  pub disk : Bytes
  pub setup : Bytes
  pub relay_protocols : Option (List Bytes)

pub record Exercise : Type 0 where
  pub id : Bytes
  pub description : Bytes
  pub type : Bytes
  pub asset : Bytes
  pub template : Bytes

pub record EnvironmentSpec : Type 0 where
  pub duration : ℤ
  pub assets : List Asset

pub record Attempt : Type 0 where
  pub id : Bytes
  pub user_id : Bytes
  pub user_name : Bytes
  pub lab_id : Bytes
  pub desired_state : Bytes
  pub decommission_reason : Bytes
  pub environment : EnvironmentSpec
  pub exercises : List Exercise

abbrev pub protocols_of : Option (List Bytes) → List Bytes
protocols_of none = []
protocols_of (some ps) = ps

unfoldable pub asset_value : Asset → Value
asset_value a = object (
    field (codes "name") (text a.name) (
      field (codes "image") (text a.image) (
        field (codes "cpu") (text a.cpu) (
          field (codes "memory") (text a.memory) (
            field (codes "disk") (text a.disk) (
              field (codes "setup") (text a.setup) (
                field (codes "protocols") (array (texts (protocols_of a.relay_protocols)))
                  no_fields)))))))

unfoldable pub asset_values : List Asset → Values
asset_values [] = no_items
asset_values (a ∷ assets) = item (asset_value a) (asset_values assets)

unfoldable pub exercise_value : Exercise → Value
exercise_value e = object (
    field (codes "id") (text e.id) (
      field (codes "description") (text e.description) (
        field (codes "type") (text e.type) (
          field (codes "asset") (text e.asset)
            (field (codes "template") (text e.template) no_fields)))))

unfoldable pub exercise_values : List Exercise → Values
exercise_values [] = no_items
exercise_values (e ∷ exercises) = item (exercise_value e) (exercise_values exercises)

unfoldable pub spec_fields : Attempt → Fields
spec_fields a = field (codes "ownerId") (text a.user_id) (
    field (codes "ownerName") (text a.user_name) (
      field (codes "labId") (text a.lab_id) (
        field (codes "ttl") (number a.environment.duration) (
          field (codes "assets") (array (asset_values a.environment.assets))
            (field (codes "exercises") (array (exercise_values a.exercises)) no_fields)))))

unfoldable pub to_lab_environment : Attempt → Fields
to_lab_environment a = field (codes "apiVersion") (text (codes "lab.rootenv.io/v1alpha1")) (
    field (codes "kind") (text (codes "LabEnvironment")) (
      field (codes "metadata") (object (field (codes "name") (text a.id) no_fields))
        (field (codes "spec") (object (spec_fields a)) no_fields)))

-- What the Kubernetes API answers to a deletion.
pub data Deletion : Type 0 where
  gone not_found failed : Deletion

pub data Call : Type 0 where
  delete_env : Bytes → Call
  -- server-side apply, as the field manager "attempt-controller" and by force
  apply_env : Bytes → Fields → Call
  patch_state : Bytes → Bytes → Call

abbrev pub decommissioned : Bytes
decommissioned = codes "decommissioned"

-- The answer to the deletion of a LabEnvironment. All other errors are only logged.
module _ (delete_reply : Bytes → Deletion) where
  unfoldable pub decommission : Bytes → List Call
  decommission id = elim (delete_reply id) [
    | gone ↦ delete_env id ∷ []
    | not_found ↦ delete_env id ∷ patch_state id decommissioned ∷ []
    | failed ↦ delete_env id ∷ []
  ]

  unfoldable pub reconcile_attempt : Attempt → List Call
  reconcile_attempt a =
      if a.desired_state == decommissioned
      then decommission a.id
      else apply_env a.id (to_lab_environment a) ∷ []

  unfoldable pub reconcile_all : List Attempt → List Call
  reconcile_all [] = []
  reconcile_all (a ∷ attempts) = reconcile_attempt a ++ reconcile_all attempts

  -- `none` is an error of `ListActiveAttempts`.
  unfoldable pub resync_attempts : Option (List Attempt) → List Call
  resync_attempts none = []
  resync_attempts (some attempts) = reconcile_all attempts
