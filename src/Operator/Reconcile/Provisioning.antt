-- ===== src/Operator/Reconcile/Provisioning.antt =====
-- What a reconciliation of a lab makes.
use rootenv.Common.{◌≡◌, ◌≢◌, refl, List, [], ◌∷◌, ◌++◌, Bytes, arith}
use rootenv.Operator.Action.{ok}
use rootenv.Operator.Api.{Asset, AssetStatus, LabEnvironment}
use rootenv.Operator.Cluster.{Cluster, IsLawful}
use rootenv.Operator.Ensure.Builds.{
  Builds, bind-Builds, then-Builds, Same-Builds, result-Builds, give-Builds, set-Builds,
  ensure-Builds,
}
use rootenv.Operator.Ensure.Lab.{asset_keys, ensure_pod-Builds, ensure_headless_service-Builds}
use rootenv.Operator.Ensure.Relays.{
  relay_keys, grader_keys, ensure_relay-Builds, ensure_relay_grader-Builds,
}
use rootenv.Operator.Host.{Host}
use rootenv.Operator.Kube.{Kind, Key}
use rootenv.Operator.Objects.Lab.{resource_quota, limit_range}
use rootenv.Operator.Objects.Policies.{deny_all_policy}
use rootenv.Operator.Objects.{key}
use rootenv.Operator.Reconcile.{pod_key, look, provision_asset, provision_assets, provision}
use rootenv.Operator.Status.{asset_status}

unfoldable pub assets_keys : Bytes → List Asset → List Key
assets_keys ns [] = []
assets_keys ns (asset ∷ assets) = asset_keys ns asset.name ++ assets_keys ns assets

-- The objects of a lab besides its namespace: the limits of all its pods, the two relays, and a
-- pod and a service for each asset.
abbrev pub lab_keys : Bytes → List Asset → List Key
lab_keys ns assets =
    key Kind.network_policy ns "networkpolicy-denyall"
    ∷ key Kind.resource_quota ns "resource-quota"
    ∷ key Kind.limit_range ns "limit-range"
    ∷ (relay_keys ns ++ (grader_keys ns ++ assets_keys ns assets))

module _ (c : Cluster) (lawful : IsLawful c) (h : Host) (env : LabEnvironment) (ns : Bytes) where
  provision_asset-Builds :
      (asset : Asset)
      → Builds c lawful (provision_asset c h env ns asset) (asset_keys ns asset.name)
  unfolding provision_asset
  provision_asset-Builds asset =
      then-Builds c lawful _ _ _ _ (ensure_pod-Builds c lawful h env ns asset) (
        then-Builds c lawful _ _ _ [] (ensure_headless_service-Builds c lawful h env ns asset.name)
          (result-Builds c lawful (asset_status ns asset) (look c (pod_key ns asset)) [] (
            Same-Builds c lawful (look c (pod_key ns asset)) (lawful.get_same (pod_key ns asset)))))

  provision_assets-Builds :
      (assets : List Asset)
      → Builds c lawful (provision_assets c h env ns assets) (assets_keys ns assets)
  unfolding provision_assets assets_keys
  provision_assets-Builds [] = give-Builds c lawful (ok [])
  provision_assets-Builds (asset ∷ assets) =
      bind-Builds c lawful _ _ _ (provision_asset c h env ns asset) (provision_asset-Builds asset)
        (λ status.
          result-Builds c lawful (λ rest. status ∷ rest) _ _ (provision_assets-Builds assets))

  pub provision-Builds : Builds c lawful (provision c h env ns) (lab_keys ns env.spec.assets)
  unfolding provision
  provision-Builds = then-Builds c lawful _ _ _ _ (set-Builds c lawful (deny_all_policy ns) refl) (
      then-Builds c lawful _ _ _ _ (ensure-Builds c lawful (resource_quota ns)) (
        then-Builds c lawful _ _ _ _ (ensure-Builds c lawful (limit_range ns)) (
          then-Builds c lawful _ _ _ _ (ensure_relay-Builds c lawful h env ns) (
            then-Builds c lawful _ _ _ _ (ensure_relay_grader-Builds c lawful h env ns)
              (provision_assets-Builds env.spec.assets)))))

  -- Where all the objects of a lab could be made, to provision it again changes nothing but network
  -- policies, also where the second pass fails.
  pub provision-again :
      (s : c.State) (assets : List AssetStatus)
      → (provision c h env ns s).0 ≡ ok assets
      → (k : Key) → k.kind ≢ Kind.network_policy
      → lawful.view (provision c h env ns (provision c h env ns s).1).1 k
        ≡ lawful.view (provision c h env ns s).1 k
  provision-again s assets e k not_policy = ground (
    arith,
    provision-Builds.makes (provision c h env ns s).1 k,
    provision-Builds.there s assets e tt k,
    not_policy,
  )
