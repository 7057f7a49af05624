-- ===== src/Examples/Manager.antt =====
-- A run of the operator on lab a7, beside lab b8; and the end of a7.
use rootenv.Common.Int.{pos}
use rootenv.Common.{
  ◌≡◌, refl, ne_of_beq, true, false, none, List, [], ◌∷◌, Bytes, bytes_eq, bytes_beq, codes, any,
  ◌==◌,
}
use rootenv.Common.Dict
use rootenv.Examples.Cluster.{Store, store, cluster, lawful, reliable, deletes}
use rootenv.Examples.Lab.{env, asset, host, empty_store}
use rootenv.Operator.Api.{LabEnvironment}
use rootenv.Operator.Cluster.{namespace_key}
use rootenv.Operator.Kube.{Key}
use rootenv.Operator.Manager.{
  Turn, env_changed, pod_changed, requests_of, run, run-Stays, IsOutside,
}
use rootenv.Operator.Objects.Lab.{lab_pod, namespace_of, lab_namespace, finalizer_name}
use rootenv.Operator.Reconcile.Release.{GoesOn, reconcile_delete-GoesOn}
use rootenv.Operator.Reconcile.{
  pod_key, pod_to_lab_env, reconcile_delete, contains_finalizer, remove_finalizer,
}
use rootenv.Operator.Watch.{watch_requests}

abbrev lab : Bytes
lab = namespace_of (codes "a7")

abbrev other_pod : Key
other_pod = pod_key (namespace_of (codes "b8")) asset

abbrev turns : List (Turn cluster)
turns =
    record { cause = env_changed (codes "a7"); meanwhile = λ s. s; now = pos 0; later = pos 0 }
    ∷ record {
      cause = pod_changed (lab_pod env lab asset (codes "ubuntu")).labels;
      meanwhile = λ s. s;
      now = pos 0;
      later = pos 0;
    }
    ∷ []

run-Stays_example : (run cluster host turns empty_store).objects other_pod ≡ none
unfolding bytes_beq requests_of watch_requests pod_to_lab_env Dict.get_or
run-Stays_example =
    run-Stays cluster lawful host turns empty_store other_pod
      (others, (λ s. refl), (others, (λ s. refl), tt))
  where
    others : IsOutside other_pod (codes "a7" ∷ [])
    others = (ne_of_beq other_pod.namespace lab refl, (λ e. cc), tt)

abbrev closing : LabEnvironment
closing = record (env) { deleting = true; finalizers = codes "other" ∷ finalizer_name ∷ [] }

abbrev started : Store
started = store (lab_namespace env lab) (record (empty_store) { env = closing })

closing-marked : contains_finalizer closing ≡ true
unfolding any bytes_beq
closing-marked = refl

reconcile_delete-GoesOn_example :
    GoesOn cluster deletes reliable closing lab
      (started.objects (namespace_key lab))
      (reconcile_delete cluster closing lab started)
    × (contains_finalizer (remove_finalizer closing) ≡ false)
    × (any (λ g. g == codes "other") (remove_finalizer closing).finalizers
        ≡ any (λ g. g == codes "other") closing.finalizers)
unfolding bytes_beq
reconcile_delete-GoesOn_example =
    reconcile_delete-GoesOn cluster deletes reliable closing lab (codes "other") started
      closing-marked refl
