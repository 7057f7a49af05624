-- ===== src/Operator/Ensure/Relays.antt =====
-- What `ensureRelay` and `ensureRelayGrader` make in the namespace of a lab.
use rootenv.Common.{refl, List, [], ◌∷◌, Bytes}
use rootenv.Operator.Action.{give, or_error, missing_image, call_failed}
use rootenv.Operator.Api.{LabEnvironment}
use rootenv.Operator.Cluster.{Cluster, IsLawful}
use rootenv.Operator.Ensure.Builds.{
  Builds, bind-Builds, then-Builds, Same-Builds, give-Builds, set-Builds, unless_found-Builds,
  create_or_ignore-Builds, ensure-Builds,
}
use rootenv.Operator.Ensure.{
  api_server_endpoint, ensure_relay_network_policy, ensure_relay, ensure_grader_tasks_config_map,
  ensure_relay_grader,
}
use rootenv.Operator.Host.{Host, load_grader_config}
use rootenv.Operator.Kube.{Kind, Key}
use rootenv.Operator.Objects.Grader.{
  grader_tasks, grader_tasks_config_map, grader_deployment, grader_service, grader_ingress,
}
use rootenv.Operator.Objects.Policies.{relay_policy, grader_policy}
use rootenv.Operator.Objects.Relay.{
  relay_service_account, relay_role, relay_role_binding, relay_deployment, relay_service,
  relay_ingress,
}
use rootenv.Operator.Objects.{key}
use rootenv.Operator.RelayConfig.{RelayConfig, load_relay_config}

abbrev pub relay_keys : Bytes → List Key
relay_keys ns =
    key Kind.service_account ns "relay"
    ∷ key Kind.role ns "relay"
    ∷ key Kind.role_binding ns "relay"
    ∷ key Kind.deployment ns "relay-exec"
    ∷ key Kind.service ns "relay"
    ∷ key Kind.ingress ns "relay"
    ∷ key Kind.network_policy ns "networkpolicy-relay-exec"
    ∷ []

abbrev pub grader_keys : Bytes → List Key
grader_keys ns =
    key Kind.config_map ns "grader-tasks"
    ∷ key Kind.deployment ns "relay-grader"
    ∷ key Kind.service ns "relay-grader"
    ∷ key Kind.ingress ns "relay-grader"
    ∷ key Kind.network_policy ns "networkpolicy-relay-grader"
    ∷ []

module _ (c : Cluster) (lawful : IsLawful c) where
  ensure_relay_network_policy-Builds :
      (ns : Bytes) (cfg : RelayConfig)
      → Builds c lawful
          (ensure_relay_network_policy c ns cfg)
          (key Kind.network_policy ns "networkpolicy-relay-exec" ∷ [])
  unfolding ensure_relay_network_policy
  ensure_relay_network_policy-Builds ns cfg =
      bind-Builds c lawful _ [] _ (api_server_endpoint c)
        (Same-Builds c lawful (api_server_endpoint c) lawful.list_same)
        (λ (ip, port).
          set-Builds c lawful (relay_policy cfg.ingress_controller_namespace ns ip port) refl)

module _ (c : Cluster) (lawful : IsLawful c) (h : Host) (env : LabEnvironment) (ns : Bytes) where
  pub ensure_relay-Builds : Builds c lawful (ensure_relay c h env ns) (relay_keys ns)
  unfolding ensure_relay
  ensure_relay-Builds =
      bind-Builds c lawful _ [] (relay_keys ns)
        (give (or_error (load_relay_config h.getenv) missing_image)) (give-Builds c lawful _)
        (λ cfg. then-Builds c lawful _ _ _ _ (ensure-Builds c lawful (relay_service_account ns)) (
          then-Builds c lawful _ _ _ _ (ensure-Builds c lawful (relay_role ns)) (
            then-Builds c lawful _ _ _ _ (ensure-Builds c lawful (relay_role_binding ns)) (
              then-Builds c lawful _ _ _ _ (ensure-Builds c lawful (relay_deployment env ns cfg)) (
                then-Builds c lawful _ _ _ _ (ensure-Builds c lawful (relay_service ns)) (
                  then-Builds c lawful _ _ _ _ (ensure-Builds c lawful (relay_ingress env ns cfg))
                    (ensure_relay_network_policy-Builds c lawful ns cfg)))))))

  ensure_grader_tasks_config_map-Builds :
      Builds c lawful
        (ensure_grader_tasks_config_map c h env ns)
        (key Kind.config_map ns "grader-tasks" ∷ [])
  unfolding ensure_grader_tasks_config_map
  ensure_grader_tasks_config_map-Builds = unless_found-Builds c lawful _ _ (
      bind-Builds c lawful _ [] _ (give (or_error (h.marshal (grader_tasks env.spec)) call_failed))
        (give-Builds c lawful _)
        (λ tasks_json. create_or_ignore-Builds c lawful (grader_tasks_config_map ns tasks_json)))

  pub ensure_relay_grader-Builds : Builds c lawful (ensure_relay_grader c h env ns) (grader_keys ns)
  unfolding ensure_relay_grader
  ensure_relay_grader-Builds =
      bind-Builds c lawful _ [] (grader_keys ns)
        (give (or_error (load_grader_config h.getenv) missing_image)) (give-Builds c lawful _)
        (λ cfg. then-Builds c lawful _ _ _ _ ensure_grader_tasks_config_map-Builds (
          then-Builds c lawful _ _ _ _ (ensure-Builds c lawful (grader_deployment env ns cfg)) (
            then-Builds c lawful _ _ _ _ (ensure-Builds c lawful (grader_service ns)) (
              then-Builds c lawful _ _ _ _ (ensure-Builds c lawful (grader_ingress env ns cfg))
                (ensure-Builds c lawful (grader_policy cfg.ingress_controller_namespace ns))))))
