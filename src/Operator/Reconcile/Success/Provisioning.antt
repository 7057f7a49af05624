-- ===== src/Operator/Reconcile/Success/Provisioning.antt =====
-- The methods that provision a lab succeed where the API and the operator's configuration do.
use rootenv.Common.{refl, List, [], ◌∷◌, Bytes}
use rootenv.Operator.Action.{pure, give, ◌>>=◌, or_error, missing_image, call_failed}
use rootenv.Operator.Api.{Asset, LabEnvironment}
use rootenv.Operator.Cluster.{Cluster, IsLawful}
use rootenv.Operator.Ensure.{
  quantities, api_server_endpoint, ensure_relay_network_policy, ensure_relay,
  ensure_grader_tasks_config_map, ensure_relay_grader, ensure_pod, ensure_headless_service,
}
use rootenv.Operator.Host.{Host, load_grader_config, load_lab_image_ref}
use rootenv.Operator.Objects.Grader.{
  grader_tasks, grader_tasks_config_map, grader_deployment, grader_service, grader_ingress,
}
use rootenv.Operator.Objects.Lab.{resource_quota, limit_range, lab_pod, headless_service}
use rootenv.Operator.Objects.Policies.{deny_all_policy, relay_policy, grader_policy}
use rootenv.Operator.Objects.Relay.{
  relay_service_account, relay_role, relay_role_binding, relay_deployment, relay_service,
  relay_ingress,
}
use rootenv.Operator.Reconcile.Success.{
  IsReliable, IsUsable, AllUsable, IsConfigured, or_error-some, load_relay_config-some,
  load_grader_config-some, Succeeds, bind-SucceedsAt, bind-Succeeds, then-Succeeds,
  unless_found-Succeeds, create_or_ignore-Succeeds, create-written-SucceedsAt, set-Succeeds,
  ensure-Succeeds,
}
use rootenv.Operator.Reconcile.{pod_key, look, provision_asset, provision_assets, provision}
use rootenv.Operator.Status.{asset_status}
use rootenv.Operator.RelayConfig.{RelayConfig, load_relay_config}

module _ (c : Cluster) (lawful : IsLawful c) (reliable : IsReliable c) where
  ensure_relay_network_policy-Succeeds :
      (ns : Bytes) (cfg : RelayConfig) → Succeeds c (ensure_relay_network_policy c ns cfg)
  unfolding ensure_relay_network_policy
  ensure_relay_network_policy-Succeeds ns cfg =
      bind-Succeeds c _ (api_server_endpoint c) reliable.list_ready (λ (ip, port).
        set-Succeeds c lawful reliable (relay_policy cfg.ingress_controller_namespace ns ip port))

module _ (c : Cluster) (lawful : IsLawful c) (reliable : IsReliable c) (h : Host)
    (env : LabEnvironment) (ns : Bytes) (configured : IsConfigured h env.spec) where
  ensure_relay-Succeeds : Succeeds c (ensure_relay c h env ns)
  unfolding ensure_relay
  ensure_relay-Succeeds =
      bind-Succeeds c _ (give (or_error (load_relay_config h.getenv) missing_image))
        (λ s.
          or_error-some _ missing_image (load_relay_config-some h.getenv configured.relay_image))
        (λ cfg. then-Succeeds c _ _ (ensure-Succeeds c lawful reliable (relay_service_account ns)) (
          then-Succeeds c _ _ (ensure-Succeeds c lawful reliable (relay_role ns)) (
            then-Succeeds c _ _ (ensure-Succeeds c lawful reliable (relay_role_binding ns)) (
              then-Succeeds c _ _ (ensure-Succeeds c lawful reliable (relay_deployment env ns cfg))
                (then-Succeeds c _ _ (ensure-Succeeds c lawful reliable (relay_service ns)) (
                  then-Succeeds c _ _ (ensure-Succeeds c lawful reliable (relay_ingress env ns cfg))
                    (ensure_relay_network_policy-Succeeds c lawful reliable ns cfg)))))))

  ensure_grader_tasks_config_map-Succeeds : Succeeds c (ensure_grader_tasks_config_map c h env ns)
  unfolding ensure_grader_tasks_config_map
  ensure_grader_tasks_config_map-Succeeds = unless_found-Succeeds c lawful reliable _ _ (λ s _.
      bind-Succeeds c _ (give (or_error (h.marshal (grader_tasks env.spec)) call_failed))
        (λ _. or_error-some _ call_failed configured.tasks_json)
        (λ text. create_or_ignore-Succeeds c lawful reliable (grader_tasks_config_map ns text)) s)

  ensure_relay_grader-Succeeds : Succeeds c (ensure_relay_grader c h env ns)
  unfolding ensure_relay_grader
  ensure_relay_grader-Succeeds =
      bind-Succeeds c _ (give (or_error (load_grader_config h.getenv) missing_image))
        (λ s.
          or_error-some _ missing_image (load_grader_config-some h.getenv configured.grader_image))
        (λ cfg. then-Succeeds c _ _ ensure_grader_tasks_config_map-Succeeds (
          then-Succeeds c _ _ (ensure-Succeeds c lawful reliable (grader_deployment env ns cfg)) (
            then-Succeeds c _ _ (ensure-Succeeds c lawful reliable (grader_service ns)) (
              then-Succeeds c _ _ (ensure-Succeeds c lawful reliable (grader_ingress env ns cfg)) (
                ensure-Succeeds c lawful reliable
                  (grader_policy cfg.ingress_controller_namespace ns))))))

  ensure_pod-Succeeds :
      (asset : Asset) → IsUsable h asset → Succeeds c (ensure_pod c h env ns asset)
  unfolding ensure_pod
  ensure_pod-Succeeds asset (image_ref, parses) =
      unless_found-Succeeds c lawful reliable _ _ (λ s absent.
        bind-SucceedsAt c _ (give (load_lab_image_ref h asset.image)) s image_ref (λ image.
          bind-SucceedsAt c _ (give (quantities h asset)) s (tt, parses)
            (λ _.
              create-written-SucceedsAt c lawful reliable (lab_pod env ns asset image) s absent)))

  ensure_headless_service-Succeeds :
      (name : Bytes) → Succeeds c (ensure_headless_service c env ns name)
  unfolding ensure_headless_service
  ensure_headless_service-Succeeds name =
      create_or_ignore-Succeeds c lawful reliable (headless_service env ns name)

  provision_asset-Succeeds :
      (asset : Asset) → IsUsable h asset → Succeeds c (provision_asset c h env ns asset)
  unfolding provision_asset
  provision_asset-Succeeds asset usable =
      then-Succeeds c (ensure_pod c h env ns asset) _ (ensure_pod-Succeeds asset usable) (
        then-Succeeds c (ensure_headless_service c env ns asset.name)
          (look c (pod_key ns asset) >>= λ pod. pure (asset_status ns asset pod))
          (ensure_headless_service-Succeeds asset.name) (λ s. (_, refl)))

  provision_assets-Succeeds :
      (assets : List Asset) → AllUsable h assets → Succeeds c (provision_assets c h env ns assets)
  unfolding provision_assets
  provision_assets-Succeeds [] usable = λ s. ([], refl)
  provision_assets-Succeeds (asset ∷ assets) (usable, rest) =
      bind-Succeeds c _ (provision_asset c h env ns asset) (provision_asset-Succeeds asset usable)
        (λ status.
          bind-Succeeds c (λ rest. pure (status ∷ rest)) (provision_assets c h env ns assets)
            (provision_assets-Succeeds assets rest) (λ statuses s. (_, refl)))

  pub provision-Succeeds : Succeeds c (provision c h env ns)
  unfolding provision
  provision-Succeeds = then-Succeeds c _ _ (set-Succeeds c lawful reliable (deny_all_policy ns)) (
      then-Succeeds c _ _ (ensure-Succeeds c lawful reliable (resource_quota ns)) (
        then-Succeeds c _ _ (ensure-Succeeds c lawful reliable (limit_range ns)) (
          then-Succeeds c _ _ ensure_relay-Succeeds (
            then-Succeeds c _ _ ensure_relay_grader-Succeeds
              (provision_assets-Succeeds env.spec.assets configured.usable)))))
