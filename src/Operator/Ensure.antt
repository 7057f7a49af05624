-- ===== src/Operator/Ensure.antt =====
-- services/labenv-operator/internal/controller: the `ensure...` methods of the reconciler, which
-- make what is missing. Logging is left out.
pub mod Endpoint
pub mod Makes
pub mod Builds
pub mod Lab
pub mod Relays
use rootenv.Common.{ℕ, Bool, true, false, ◌&&◌, Option, none, some, Bytes, codes, if◌then◌else◌}
use rootenv.Operator.Action.{
  Error, Result, ok, err, panicked, call_failed, missing_image, Action, give, call, ◌>>=◌, ◌>>◌,
  written, written_or_present, or_error,
}
use rootenv.Operator.Api.{Asset, LabEnvironmentSpec, LabEnvironment}
use rootenv.Operator.Cluster.{Cluster, Read, found, not_found, read_failed}
use rootenv.Operator.Ensure.Endpoint.{endpoint_of}
use rootenv.Operator.Host.{Host, GraderConfig, load_lab_image_ref, load_grader_config}
use rootenv.Operator.Kube.{Kind, Key, Object, key_of}
use rootenv.Operator.Objects.Grader.{
  grader_tasks, grader_tasks_config_map, grader_deployment, grader_service, grader_ingress,
}
use rootenv.Operator.Objects.Lab.{
  lab_namespace, resource_quota, limit_range, lab_pod, headless_service,
}
use rootenv.Operator.Objects.Policies.{deny_all_policy, relay_policy, grader_policy}
use rootenv.Operator.Objects.Relay.{
  relay_service_account, relay_role, relay_role_binding, relay_deployment, relay_service,
  relay_ingress,
}
use rootenv.Operator.Objects.{key}
use rootenv.Operator.RelayConfig.{RelayConfig, load_relay_config}

-- What follows a read: nothing where there is an object, `m` where there is none.
abbrev pub if_absent : {S : Type 0} → Action S Unit → Read Object → Action S Unit
if_absent m (found o) = give (ok tt)
if_absent m not_found = m
if_absent m read_failed = give (err call_failed)

-- Whether the three quantities of an asset parse; `resource.MustParse` panics otherwise.
abbrev pub quantities : Host → Asset → Result Unit
quantities h asset =
    if h.is_quantity asset.cpu && h.is_quantity asset.memory && h.is_quantity asset.disk
    then ok tt
    else err panicked

module _ (c : Cluster) where
  unfoldable pub unless_found : Key → Action c.State Unit → Action c.State Unit
  unless_found k m s = let (r, s') = c.get k s in if_absent m r s'

  -- `Create`, where an object that is there is no error
  unfoldable pub create_or_ignore : Object → Action c.State Unit
  create_or_ignore o = call written_or_present (c.create o)

  unfoldable pub set : Object → Action c.State Unit
  set o = call written (c.create_or_update o)

  unfoldable pub ensure : Object → Action c.State Unit
  ensure o = unless_found (key_of o) (create_or_ignore o)

  abbrev pub ensure_namespace : LabEnvironment → Bytes → Action c.State Unit
  ensure_namespace env ns = ensure (lab_namespace env ns)

  abbrev pub ensure_network_policy : Bytes → Action c.State Unit
  ensure_network_policy ns = set (deny_all_policy ns)

  abbrev pub ensure_resource_quota : Bytes → Action c.State Unit
  ensure_resource_quota ns = ensure (resource_quota ns)

  abbrev pub ensure_limit_range : Bytes → Action c.State Unit
  ensure_limit_range ns = ensure (limit_range ns)

  unfoldable pub ensure_headless_service : LabEnvironment → Bytes → Bytes → Action c.State Unit
  ensure_headless_service env ns asset_name = create_or_ignore (headless_service env ns asset_name)

  abbrev pub ensure_relay_service_account : Bytes → Action c.State Unit
  ensure_relay_service_account ns = ensure (relay_service_account ns)

  abbrev pub ensure_relay_role : Bytes → Action c.State Unit
  ensure_relay_role ns = ensure (relay_role ns)

  abbrev pub ensure_relay_role_binding : Bytes → Action c.State Unit
  ensure_relay_role_binding ns = ensure (relay_role_binding ns)

  abbrev pub ensure_relay_deployment : LabEnvironment → Bytes → RelayConfig → Action c.State Unit
  ensure_relay_deployment env ns cfg = ensure (relay_deployment env ns cfg)

  abbrev pub ensure_relay_service : Bytes → Action c.State Unit
  ensure_relay_service ns = ensure (relay_service ns)

  abbrev pub ensure_relay_ingress : LabEnvironment → Bytes → RelayConfig → Action c.State Unit
  ensure_relay_ingress env ns cfg = ensure (relay_ingress env ns cfg)

  abbrev pub api_server_endpoint : Action c.State (Bytes × ℕ)
  api_server_endpoint = call endpoint_of c.list_endpoints

  unfoldable pub ensure_relay_network_policy : Bytes → RelayConfig → Action c.State Unit
  ensure_relay_network_policy ns cfg = do
    (ip, port) ← api_server_endpoint
    set (relay_policy cfg.ingress_controller_namespace ns ip port)

  abbrev pub ensure_relay_grader_deployment :
      LabEnvironment → Bytes → GraderConfig → Action c.State Unit
  ensure_relay_grader_deployment env ns cfg = ensure (grader_deployment env ns cfg)

  abbrev pub ensure_relay_grader_service : Bytes → Action c.State Unit
  ensure_relay_grader_service ns = ensure (grader_service ns)

  abbrev pub ensure_relay_grader_ingress :
      LabEnvironment → Bytes → GraderConfig → Action c.State Unit
  ensure_relay_grader_ingress env ns cfg = ensure (grader_ingress env ns cfg)

  abbrev pub ensure_relay_grader_network_policy : Bytes → GraderConfig → Action c.State Unit
  ensure_relay_grader_network_policy ns cfg =
      ensure (grader_policy cfg.ingress_controller_namespace ns)

module _ (c : Cluster) (h : Host) where
  unfoldable pub ensure_pod : LabEnvironment → Bytes → Asset → Action c.State Unit
  ensure_pod env ns asset =
      unless_found c (record { kind = Kind.pod; namespace = ns; name = asset.name })
        (do
          image ← give (load_lab_image_ref h asset.image)
          give (quantities h asset)
          call written (c.create (lab_pod env ns asset image)))

  unfoldable pub ensure_relay : LabEnvironment → Bytes → Action c.State Unit
  ensure_relay env ns = do
    cfg ← give (or_error (load_relay_config h.getenv) missing_image)
    ensure_relay_service_account c ns
    ensure_relay_role c ns
    ensure_relay_role_binding c ns
    ensure_relay_deployment c env ns cfg
    ensure_relay_service c ns
    ensure_relay_ingress c env ns cfg
    ensure_relay_network_policy c ns cfg

  unfoldable pub ensure_grader_tasks_config_map : LabEnvironment → Bytes → Action c.State Unit
  ensure_grader_tasks_config_map env ns = unless_found c (key Kind.config_map ns "grader-tasks") (do
    tasks_json ← give (or_error (h.marshal (grader_tasks env.spec)) call_failed)
    create_or_ignore c (grader_tasks_config_map ns tasks_json))

  unfoldable pub ensure_relay_grader : LabEnvironment → Bytes → Action c.State Unit
  ensure_relay_grader env ns = do
    cfg ← give (or_error (load_grader_config h.getenv) missing_image)
    ensure_grader_tasks_config_map env ns
    ensure_relay_grader_deployment c env ns cfg
    ensure_relay_grader_service c ns
    ensure_relay_grader_ingress c env ns cfg
    ensure_relay_grader_network_policy c ns cfg
