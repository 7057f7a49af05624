-- ===== src/Controller/Upstream.antt =====
-- services/attempt-controller/internal/upstream: the status of LabEnvironments is written back to
-- the attempts of PocketBase.
pub mod Assets
pub mod Laws
pub mod Expiry
use rootenv.Common.Dict
use rootenv.Common.Dict.{Dict}
use rootenv.Common.{
  Bool, true, false, not, ◌||◌, Option, none, some, List, [], ◌∷◌, ◌++◌, Bytes, bytes_eq, codes,
  ◌==◌, if◌then◌else◌,
}
use rootenv.Controller.Value.{
  Value, null, boolean, number, text, array, object, Values, no_items, item, Fields, get, as_string,
  as_array, strings,
}

unfoldable pub phase_to_state : Bytes → Bytes
phase_to_state phase =
    if phase == codes "Ready"
    then codes "provisioned"
    else if phase == codes "Terminating"
    then codes "decommissioned"
    else codes "provisioning"

unfoldable pub asset_phase_to_state : Bytes → Bytes
asset_phase_to_state phase =
    if phase == codes "Running" || phase == codes "Succeeded"
    then codes "provisioned"
    else if phase == codes "Pending"
    then codes "provisioning"
    else if phase == codes "Terminating"
    then codes "decommissioned"
    else codes "pending"

unfoldable pub asset_phase_to_status : Bytes → Bytes
asset_phase_to_status phase =
    if phase == codes "Running" then codes "poweredon" else codes "poweredoff"

-- One element of `attempts.assets`.
pub record AssetState : Type 0 where
  pub name : Bytes
  pub state : Bytes
  pub status : Bytes
  pub protocols : List Bytes

unfoldable pub build_asset : Fields → AssetState
build_asset a =
    let phase = as_string (get (codes "phase") a) in
    record {
      name = as_string (get (codes "name") a);
      state = asset_phase_to_state phase;
      status = asset_phase_to_status phase;
      protocols = strings (as_array (get (codes "protocols") a));
    }

-- The loop of `buildAssets`: what is no map is skipped.
unfoldable pub build_items : Values → List AssetState
build_items no_items = []
build_items (item (object a) vs) = build_asset a ∷ build_items vs
build_items (item null vs) = build_items vs
build_items (item (boolean b) vs) = build_items vs
build_items (item (number n) vs) = build_items vs
build_items (item (text s) vs) = build_items vs
build_items (item (array xs) vs) = build_items vs

unfoldable pub build_assets : Fields → List AssetState
build_assets status = build_items (as_array (get (codes "assets") status))

-- The keys that a patch has; a key that is `none` is not sent.
pub record Patch : Type 0 where
  pub current_state : Bytes
  pub desired_state : Option Bytes
  pub assets : Option (List AssetState)
  pub expires_at : Option Bytes

-- A LabEnvironment, as the accessors of `unstructured` give it: "" for a string and no fields for
-- a map that is missing or of another type.
pub record LabEnv : Type 0 where
  pub name : Bytes
  pub resource_version : Bytes
  pub status : Fields
  pub phase : Bytes
  pub expires_at : Bytes

pub record Reconciler : Type 0 where
  pub last_rv : Dict Bytes Bytes
  pub expires_at_written : Dict Bytes Bool

abbrev pub new_reconciler : Reconciler
new_reconciler = record { last_rv = []; expires_at_written = [] }

-- A call of `PatchAttempt`, and whether it succeeded.
pub record Call : Type 0 where
  pub id : Bytes
  pub patch : Patch
  pub accepted : Bool

-- `format_time` stands for `time.Parse` and `Format`, at `none` where the text is no RFC 3339 time;
-- `accept` says whether `PatchAttempt` succeeds.
module _ (format_time : Bytes → Option Bytes) (accept : Bytes → Patch → Bool) where
  unfoldable pub expiry : Bool → LabEnv → Option Bytes
  expiry written obj =
      if written then none else if obj.expires_at == [] then none else format_time obj.expires_at

  unfoldable pub patch_of : Bool → LabEnv → Patch
  patch_of written obj = record {
    current_state = phase_to_state obj.phase;
    desired_state = none;
    assets = some (build_assets obj.status);
    expires_at = expiry written obj;
  }

  -- Behind a successful `PatchAttempt`.
  unfoldable pub mark_synced : LabEnv → Patch → Reconciler → Reconciler
  mark_synced obj patch r = record {
    last_rv = Dict.insert obj.name obj.resource_version r.last_rv;
    expires_at_written = elim patch.expires_at [
      | none ↦ r.expires_at_written
      | some t ↦ Dict.insert obj.name true r.expires_at_written
    ];
  }

  unfoldable pub sync : LabEnv → Patch → Reconciler → Reconciler × List Call
  sync obj patch r =
      if accept obj.name patch
      then (mark_synced obj patch r, record { id = obj.name; patch = patch; accepted = true } ∷ [])
      else (r, record { id = obj.name; patch = patch; accepted = false } ∷ [])

  unfoldable pub reconcile_lab_env : LabEnv → Reconciler → Reconciler × List Call
  reconcile_lab_env obj r =
      if Dict.get_or obj.name [] r.last_rv == obj.resource_version
      then (r, [])
      else if obj.phase == []
      then (r, [])
      else sync obj (patch_of (Dict.get_or obj.name false r.expires_at_written) obj) r

  abbrev pub removal : Patch
  removal = record {
    current_state = codes "decommissioned";
    desired_state = some (codes "decommissioned");
    assets = none;
    expires_at = none;
  }

  unfoldable pub reconcile_delete : LabEnv → Reconciler → Reconciler × List Call
  reconcile_delete obj r = (
    record {
      last_rv = Dict.erase obj.name r.last_rv;
      expires_at_written = Dict.erase obj.name r.expires_at_written;
    },
    record { id = obj.name; patch = removal; accepted = accept obj.name removal } ∷ [],
  )

-- What the informer hands to a handler: the object, a tombstone with what was last known of it
-- (an object, or else), or something of another type.
pub data Delivered : Type 0 where
  unstructured : LabEnv → Delivered
  tombstone : Option LabEnv → Delivered
  other : Delivered

pub data Event : Type 0 where
  added updated deleted : Delivered → Event

module _ (format_time : Bytes → Option Bytes) (accept : Bytes → Patch → Bool) where
  unfoldable pub on_change : Delivered → Reconciler → Reconciler × List Call
  on_change (unstructured obj) r = reconcile_lab_env format_time accept obj r
  on_change (tombstone o) r = (r, [])
  on_change other r = (r, [])

  unfoldable pub on_delete : Delivered → Reconciler → Reconciler × List Call
  on_delete (unstructured obj) r = reconcile_delete format_time accept obj r
  on_delete (tombstone (some obj)) r = reconcile_delete format_time accept obj r
  on_delete (tombstone none) r = (r, [])
  on_delete other r = (r, [])

  -- The handlers of `Run`.
  unfoldable pub handle : Event → Reconciler → Reconciler × List Call
  handle (added d) r = on_change d r
  handle (updated d) r = on_change d r
  handle (deleted d) r = on_delete d r

-- One event after the other; whether PocketBase accepts may change with each.
unfoldable pub run :
    (Bytes → Option Bytes)
    → List (Event × (Bytes → Patch → Bool))
    → Reconciler
    → Reconciler × List Call
run format_time [] r = (r, [])
run format_time ((e, accept) ∷ es) r =
    let (r', calls) = handle format_time accept e r in
    let (r'', more) = run format_time es r' in (r'', calls ++ more)
