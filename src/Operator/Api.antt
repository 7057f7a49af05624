-- ===== src/Operator/Api.antt =====
-- services/labenv-operator/api/v1alpha1/labenvironment_types.go: the LabEnvironment resource.
use rootenv.Common.{ℕ, Bool, Option, List, Bytes}
use rootenv.Common.Int.{ℤ}

pub record Asset : Type 0 where
  pub name : Bytes
  pub image : Bytes
  pub cpu : Bytes
  pub memory : Bytes
  pub disk : Bytes
  pub protocols : List Bytes
  pub setup : Bytes

pub record Exercise : Type 0 where
  pub id : Bytes
  pub description : Bytes
  pub type : Bytes
  pub asset : Bytes
  pub template : Bytes

-- The time to live is in minutes, an `int32`: what does not fit is not decoded
-- (Controller.Downstream.Translation.read_lab_environment).
pub record LabEnvironmentSpec : Type 0 where
  pub owner_id : Bytes
  pub owner_name : Bytes
  pub lab_id : Bytes
  pub ttl : ℤ
  pub assets : List Asset
  pub exercises : List Exercise

pub record AssetStatus : Type 0 where
  pub name : Bytes
  pub phase : Bytes
  pub reason : Bytes
  pub ready : Bool
  pub address : Bytes
  pub protocols : List Bytes

-- `metav1.Condition`, as far as the operator sets it. The status is `ConditionTrue` or
-- `ConditionFalse`.
pub record Condition : Type 0 where
  pub type : Bytes
  pub status : Bool
  pub reason : Bytes
  pub message : Bytes

pub record LabEnvironmentStatus : Type 0 where
  pub conditions : List Condition
  pub phase : Bytes
  pub namespace : Bytes
  pub expires_at : Option ℤ  -- nanoseconds
  pub total_assets : ℕ
  pub ready_assets : ℕ
  pub ready : Bytes
  pub assets : List AssetStatus

-- With the metadata that the operator reads. `deleting` says whether there is a deletion time.
pub record LabEnvironment : Type 0 where
  pub name : Bytes
  pub created_at : ℤ  -- nanoseconds
  pub deleting : Bool
  pub finalizers : List Bytes
  pub spec : LabEnvironmentSpec
  pub status : LabEnvironmentStatus
