-- ===== src/Examples/Reconcile.antt =====
-- A lab with one asset, reconciled against an API that does not fail.
use rootenv.Common.Dict
use rootenv.Common.Int.{pos, negsuc, leb_ℤ, ◌+ℤ◌, ◌≤ℤ◌}
use rootenv.Common.{
  ◌≡◌, ◌≢◌, ◌⊎◌, refl, ap, filter, true, false, none, [], ◌∷◌, bytes_eq, bytes_beq, codes, any,
}
use rootenv.Examples.Cluster.{Store, store, cluster, lawful, reliable, answer-Tells}
use rootenv.Operator.Action.{ok}
use rootenv.Operator.Api.{AssetStatus, LabEnvironment}
use rootenv.Operator.Cluster.{namespace_key}
use rootenv.Operator.Ensure.Makes.{AllThere, Makes}
use rootenv.Operator.Host.{load_grader_config}
use rootenv.Operator.Kube.{Key, key_beq, Kind-discrete}
use rootenv.Operator.Objects.Lab.{finalizer_name, lab_namespace, lab_pod, namespace_of}
use rootenv.Operator.Reconcile.Creation.{reconcile_create-AllThere, reconcile_create-Makes}
use rootenv.Operator.Reconcile.Provisioning.{lab_keys, provision-again}
use rootenv.Operator.Reconcile.Success.Creation.{reconcile_create-succeeds}
use rootenv.Operator.Reconcile.Success.{IsConfigured}
use rootenv.Common.Int64.{wrap64}
use rootenv.Operator.Reconcile.Time.{time_to_live, expiry, remaining}
use rootenv.Operator.Reconcile.{
  is_managed, pod_to_lab_env, after, pod_key, provision_asset, provision_assets, provision,
  ensure_finalizer, expire_or_provision, reconcile_create, release, reconcile_delete,
}
use rootenv.Operator.Ensure.{
  ensure, set, unless_found, create_or_ignore, ensure_relay, ensure_relay_grader, ensure_pod,
  ensure_headless_service, ensure_relay_network_policy, ensure_grader_tasks_config_map,
}
use rootenv.Operator.Ensure.Endpoint.{first_endpoint, in_endpoints, in_addresses, first_port}
use rootenv.Operator.Status.{digits, ratio, summarize, asset_status, container_reason, is_pod_ready}
use rootenv.Operator.Reconcile.Deletion.{KeepsFinalizers, reconcile_delete-KeepsFinalizers}
use rootenv.Operator.RelayConfig.{load_relay_config, add_raw}
use rootenv.Examples.Lab.{host, asset, env, lab, empty_store}

configured : IsConfigured host env.spec
unfolding bytes_beq
configured = record {
  relay_image = λ e. cc;
  grader_image = λ e. cc;
  tasks_json = (codes "[]", refl);
  usable = (((codes "ubuntu", refl), refl), tt);
}

alive : leb_ℤ (pos 0) (expiry env) ≡ true
unfolding expiry wrap64 ◌+ℤ◌
alive = refl

apart : expiry env ≢ pos 0
unfolding expiry wrap64 ◌+ℤ◌
apart e = cc

-- A change of the lab's pod leads back to the lab.
watched :
    (is_managed (lab_pod env lab asset (codes "ubuntu")).labels ≡ true)
    × (pod_to_lab_env (lab_pod env lab asset (codes "ubuntu")).labels ≡ codes "a7" ∷ [])
unfolding pod_to_lab_env Dict.get_or bytes_beq
watched = (refl, refl)

reconcile_create-succeeds_example :
    let wait = remaining (expiry env) (pos 0) in
    ((reconcile_create cluster host (pos 0) (pos 0) env lab empty_store).0 ≡ ok (after wait))
    × (pos 1 ≤ℤ wait)
    × ((expiry env ≤ℤ pos 0) ⊎ (pos 0 +ℤ wait ≤ℤ expiry env))
    × AllThere
        (namespace_key lab ∷ lab_keys lab (asset ∷ []))
        (lawful.view (reconcile_create cluster host (pos 0) (pos 0) env lab empty_store).1)
reconcile_create-succeeds_example =
    reconcile_create-succeeds cluster lawful reliable host (pos 0) (pos 0) lab env empty_store
      configured alive apart

after_one_hour :
    (reconcile_create cluster host (pos 0) (pos 0) env lab empty_store).0
    ≡ ok (after (pos 3600000000000))
unfolding reconcile_create ensure_finalizer expire_or_provision provision provision_assets
    provision_asset ensure_relay ensure_relay_grader ensure_pod ensure_headless_service
    ensure_relay_network_policy ensure_grader_tasks_config_map ensure set unless_found
    create_or_ignore summarize expiry remaining wrap64 ◌+ℤ◌ bytes_beq key_beq Kind-discrete any
    load_relay_config load_grader_config add_raw first_endpoint in_endpoints in_addresses first_port
after_one_hour = refl

reconcile_create-AllThere_example :
    AllThere
      (namespace_key lab ∷ lab_keys lab (asset ∷ []))
      (lawful.view (reconcile_create cluster host (pos 0) (pos 0) env lab empty_store).1)
reconcile_create-AllThere_example =
    reconcile_create-AllThere cluster lawful host (pos 0) (pos 0) lab env empty_store
      (after (pos 3600000000000)) after_one_hour (λ e. cc)

reconcile_create-Makes_example :
    Makes
      (namespace_key lab ∷ lab_keys lab (asset ∷ []))
      (lawful.view empty_store)
      (lawful.view (reconcile_create cluster host (pos 0) (pos 0) env lab empty_store).1)
reconcile_create-Makes_example =
    reconcile_create-Makes cluster lawful host (pos 0) (pos 0) lab env empty_store

abbrev pending : AssetStatus
pending = record {
  name = codes "web";
  phase = [];
  reason = [];
  ready = false;
  address = codes "web.rootenv-lab-a7.svc.cluster.local";
  protocols = codes "ssh" ∷ [];
}

provisioned : (provision cluster host env lab empty_store).0 ≡ ok (pending ∷ [])
unfolding asset_status container_reason is_pod_ready reconcile_create ensure_finalizer
    expire_or_provision provision provision_assets provision_asset ensure_relay ensure_relay_grader
    ensure_pod ensure_headless_service ensure_relay_network_policy ensure_grader_tasks_config_map
    ensure set unless_found create_or_ignore summarize expiry remaining wrap64 ◌+ℤ◌ bytes_beq
    key_beq Kind-discrete any load_relay_config load_grader_config add_raw first_endpoint
    in_endpoints in_addresses first_port
provisioned = refl

provision-again_example :
    (provision cluster host env lab (provision cluster host env lab empty_store).1).1.objects
      (pod_key lab asset)
    ≡ (provision cluster host env lab empty_store).1.objects (pod_key lab asset)
provision-again_example =
    provision-again cluster lawful host env lab empty_store (pending ∷ []) provisioned
      (pod_key lab asset) (λ e. cc)

abbrev other_pod : Key
other_pod = pod_key (namespace_of (codes "b8")) asset

abbrev keeps : KeepsFinalizers cluster
keeps = record {
  seen = λ s. s.objects;
  get_tells = λ k s. answer-Tells (s.objects k);
  finalizers_of = λ s _. s.env.finalizers;
  get_keeps = λ k s. refl;
  delete_namespace_keeps = λ n s. refl;
  update_status_keeps = λ e s. refl;
}

abbrev closing : LabEnvironment
closing = record (env) { deleting = true; finalizers = finalizer_name ∷ [] }

abbrev started : Store
started = store (lab_namespace env lab) (record (empty_store) { env = closing })

namespace_there : started.objects (namespace_key lab) ≢ none
unfolding key_beq Kind-discrete bytes_beq
namespace_there e = cc

reconcile_delete-KeepsFinalizers_example :
    (reconcile_delete cluster closing lab started).1.env.finalizers ≡ finalizer_name ∷ []
reconcile_delete-KeepsFinalizers_example =
    ap (λ f. f (codes "a7"))
      (reconcile_delete-KeepsFinalizers cluster keeps closing lab started namespace_there)

-- Once the namespace is gone, the finalizer goes.
released :
    (reconcile_delete cluster closing lab (record (empty_store) { env = closing })).1.env.finalizers
    ≡ []
unfolding reconcile_delete release any bytes_beq filter
released = refl

-- A longer time to live overflows: the lab has expired before it is made.
overflow : time_to_live (pos 153722868) ≡ negsuc 9223371993709551615
unfolding wrap64
overflow = refl

one_of_two : ratio 1 12 ≡ codes "1/12"
unfolding digits
one_of_two = refl
