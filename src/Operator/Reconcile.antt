-- ===== src/Operator/Reconcile.antt =====
-- services/labenv-operator/internal/controller/labenvironment_controller.go: one reconciliation of
-- a LabEnvironment. Logging is left out; the readings of the clock are arguments.
pub mod Time
pub mod Isolation
pub mod Provisioning
pub mod Creation
pub mod Deletion
pub mod Release
pub mod Success
use rootenv.Common.Dict
use rootenv.Common.Int.{ℤ, pos, leb_ℤ}
use rootenv.Common.{
  ℕ, Bool, true, false, not, Option, none, some, List, [], ◌∷◌, ◌++◌, any, filter, Bytes, bytes_eq,
  codes, ◌==◌, if◌then◌else◌,
}
use rootenv.Operator.Action.{
  Error, Result, ok, err, call_failed, panicked, Action, pure, give, call, ◌>>=◌, ◌>>◌, written,
}
use rootenv.Operator.Api.{
  Asset, AssetStatus, Condition, LabEnvironmentSpec, LabEnvironmentStatus, LabEnvironment,
}
use rootenv.Operator.Cluster.{
  Cluster, Read, found, not_found, read_failed, Write, done, gone, conflict, namespace_key,
}
use rootenv.Operator.Ensure.{
  ensure_namespace, ensure_network_policy, ensure_resource_quota, ensure_limit_range, ensure_relay,
  ensure_relay_grader, ensure_pod, ensure_headless_service,
}
use rootenv.Operator.Host.{Host}
use rootenv.Operator.Kube.{Labels, Kind, Key, Object}
use rootenv.Operator.Objects.Lab.{finalizer_name, phase_terminating, namespace_of}
use rootenv.Operator.Reconcile.Time.{expiry, remaining}
use rootenv.Operator.Status.{asset_status, summarize}

-- `ctrl.Result`: without `Requeue`, the request comes again only after a time above zero.
pub record Outcome : Type 0 where
  pub requeue : Bool
  pub requeue_after : ℤ

abbrev pub after : ℤ → Outcome
after t = record { requeue = false; requeue_after = t }

-- `ctrl.Result{}`
abbrev pub nothing : Outcome
nothing = after (pos 0)

abbrev pub requeue_now : Outcome
requeue_now = record { requeue = true; requeue_after = pos 0 }

abbrev pub contains_finalizer : LabEnvironment → Bool
contains_finalizer env = any (λ f. f == finalizer_name) env.finalizers

abbrev pub add_finalizer : LabEnvironment → LabEnvironment
add_finalizer env = record (env) { finalizers = env.finalizers ++ (finalizer_name ∷ []) }

abbrev pub remove_finalizer : LabEnvironment → LabEnvironment
remove_finalizer env = record (env) {
  finalizers = filter (λ f. not (f == finalizer_name)) env.finalizers;
}

-- The resource as stored, after an update.
abbrev pub updated : Write × LabEnvironment → Result LabEnvironment
updated (done, env) = ok env
updated _ = err call_failed

-- The defaults of the status: the namespace and the time of expiry.
abbrev pub with_defaults : Bytes → LabEnvironment → LabEnvironment
with_defaults ns env = record (env) {
  status = record (env.status) {
    namespace = if env.status.namespace == [] then ns else env.status.namespace;
    expires_at = some (expiry env);
  };
}

-- `client.IgnoreNotFound` of a deletion
abbrev pub deleted_or_gone : Write → Result Outcome
deleted_or_gone done = ok nothing
deleted_or_gone gone = ok nothing
deleted_or_gone _ = err call_failed

abbrev pub until_expiry : ℤ → Option ℤ → Result Outcome
until_expiry later none = err panicked
until_expiry later (some t) = ok (after (remaining t later))

-- What the answer to the update of the status comes to.
abbrev pub settled : ℤ → Write × LabEnvironment → Result Outcome
settled later (done, env) = until_expiry later env.status.expires_at
settled later (conflict, env) = ok requeue_now
settled later _ = err call_failed

abbrev pub pod_key : Bytes → Asset → Key
pod_key ns asset = record { kind = Kind.pod; namespace = ns; name = asset.name }

module _ (c : Cluster) where
  abbrev pub look : Key → Action c.State (Read Object)
  look k = call ok (c.get k)

  unfoldable pub ensure_finalizer : LabEnvironment → Action c.State LabEnvironment
  ensure_finalizer env =
      if contains_finalizer env then pure env else call updated (c.update_env (add_finalizer env))

  -- The deletion of the namespace unless it is under way.
  unfoldable pub request_deletion : Object → Action c.State Unit
  request_deletion ns = if ns.deleting then pure tt else call written (c.delete_namespace ns.name)

  -- An error here is only logged.
  unfoldable pub mark_terminating : LabEnvironment → Action c.State Unit
  mark_terminating env =
      if env.status.phase == phase_terminating
      then pure tt
      else call (λ _. ok tt)
          (c.update_status
            (record (env) { status = record (env.status) { phase = phase_terminating } }))

  unfoldable pub release : LabEnvironment → Action c.State Outcome
  release env = do call updated (c.update_env (remove_finalizer env)); pure nothing

  abbrev pub clean_up : LabEnvironment → Read Object → Action c.State Outcome
  clean_up env not_found = release env
  clean_up env read_failed = give (err call_failed)
  clean_up env (found ns) = do
    request_deletion ns
    mark_terminating env
    pure (after (pos 5000000000))

  unfoldable pub reconcile_delete : LabEnvironment → Bytes → Action c.State Outcome
  reconcile_delete env ns =
      if contains_finalizer env
      then (do answer ← look (namespace_key ns); clean_up env answer)
      else pure nothing

module _ (c : Cluster) (h : Host) where
  -- The objects of an asset, and the state of its pod.
  unfoldable pub provision_asset : LabEnvironment → Bytes → Asset → Action c.State AssetStatus
  provision_asset env ns asset = do
    ensure_pod c h env ns asset
    ensure_headless_service c env ns asset.name
    pod ← look c (pod_key ns asset)
    pure (asset_status ns asset pod)

  -- The loop over the assets.
  unfoldable pub provision_assets :
      LabEnvironment → Bytes → List Asset → Action c.State (List AssetStatus)
  provision_assets env ns [] = pure []
  provision_assets env ns (asset ∷ assets) = do
    status ← provision_asset env ns asset
    rest ← provision_assets env ns assets
    pure (status ∷ rest)

  -- From the network policy to the last asset.
  unfoldable pub provision : LabEnvironment → Bytes → Action c.State (List AssetStatus)
  provision env ns = do
    ensure_network_policy c ns
    ensure_resource_quota c ns
    ensure_limit_range c ns
    ensure_relay c h env ns
    ensure_relay_grader c h env ns
    provision_assets env ns env.spec.assets

  -- The rest of `reconcileCreate`, once the resource has its time of expiry.
  unfoldable pub expire_or_provision : ℤ → ℤ → LabEnvironment → Bytes → Action c.State Outcome
  expire_or_provision now later env ns =
      if leb_ℤ now (expiry env)
      then (do
        assets ← provision env ns
        call (settled later) (c.update_status (summarize h.set_status_condition env assets)))
      else call deleted_or_gone (c.delete_env env)

  -- `reconcileCreate` behind the finalizer.
  abbrev pub create_stored : ℤ → ℤ → Bytes → LabEnvironment → Action c.State Outcome
  create_stored now later ns stored = do
    ensure_namespace c stored ns
    expire_or_provision now later (with_defaults ns stored) ns

  unfoldable pub reconcile_create : ℤ → ℤ → LabEnvironment → Bytes → Action c.State Outcome
  reconcile_create now later env ns = ensure_finalizer c env >>= create_stored now later ns

  abbrev pub reconcile_found : ℤ → ℤ → Read LabEnvironment → Action c.State Outcome
  reconcile_found now later not_found = pure nothing
  reconcile_found now later read_failed = give (err call_failed)
  reconcile_found now later (found env) =
      let ns = namespace_of env.name in
      if env.deleting then reconcile_delete c env ns else reconcile_create now later env ns

  -- The request's name, and the readings of the clock before and after.
  unfoldable pub reconcile : ℤ → ℤ → Bytes → Action c.State Outcome
  reconcile now later name = do answer ← call ok (c.get_env name); reconcile_found now later answer

-- The watch on pods: which are the operator's, and the LabEnvironment of one.
abbrev pub is_managed : Labels → Bool
is_managed labels = Dict.get_or (codes "rootenv.io/managed-by") [] labels == codes "labenv-operator"

unfoldable pub pod_to_lab_env : Labels → List Bytes
pod_to_lab_env labels =
    let name = Dict.get_or (codes "rootenv.io/attempt") [] labels in
    if name == [] then [] else name ∷ []
