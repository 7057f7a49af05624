-- ===== src/Operator/Reconcile/Creation.antt =====
-- What one reconciliation of a lab that is not being deleted comes to.
use mathlib.Core.List.{append-nil}
use rootenv.Common.Int.{ℤ, leb_ℤ}
use rootenv.Common.{◌≡◌, ◌≢◌, refl, subst, inl, inr, Bool-cases, List, [], ◌∷◌, Bytes, arith}
use rootenv.Operator.Action.{Result, ok, err, Action, next, call, ◌>>=◌, next}
use rootenv.Operator.Api.{LabEnvironment}
use rootenv.Operator.Cluster.{Cluster, IsLawful, View, Same, Write, namespace_key}
use rootenv.Operator.Ensure.Builds.{BuildsIf, bind-BuildsIf, ensure-Builds}
use rootenv.Operator.Ensure.Makes.{Makes, Makes-Same, Makes-trans, AllThere}
use rootenv.Operator.Ensure.{ensure_namespace}
use rootenv.Operator.Host.{Host}
use rootenv.Operator.Kube.{Key}
use rootenv.Operator.Objects.Lab.{lab_namespace}
use rootenv.Operator.Reconcile.Provisioning.{lab_keys, provision-Builds}
use rootenv.Operator.Reconcile.Time.{expiry}
use rootenv.Operator.Reconcile.{
  Outcome, nothing, add_finalizer, with_defaults, updated, deleted_or_gone, settled,
  ensure_finalizer, provision, expire_or_provision, create_stored, reconcile_create,
}
use rootenv.Operator.Status.{summarize}

module _ (c : Cluster) (lawful : IsLawful c) where
  -- A method that makes what it makes, unless it comes to nothing.
  abbrev Settles : Action c.State Outcome → List Key → Type 0
  Settles m ks = BuildsIf c lawful (λ o. o ≢ nothing) m ks

  deleted_or_gone_lem : (w : Write) (o : Outcome) → deleted_or_gone w ≡ ok o → o ≡ nothing
  deleted_or_gone_lem w o h = ground (arith, h)

  delete-Settles :
      (env : LabEnvironment) (ks : List Key) → Settles (call deleted_or_gone (c.delete_env env)) ks
  delete-Settles env ks = record {
    makes = λ s. Makes-Same ks _ _ (lawful.delete_env_same env s);
    there = λ s o e ne. absurd (ne (deleted_or_gone_lem _ o e));
  }

  update_status-Settles :
      (later : ℤ) (env : LabEnvironment) → Settles (call (settled later) (c.update_status env)) []
  update_status-Settles later env = record {
    makes = λ s. Makes-Same [] _ _ (lawful.update_status_same env s);
    there = λ s o e ne k h. elim h [ ];
  }

module _ (c : Cluster) (lawful : IsLawful c) (h : Host) (now later : ℤ) (ns : Bytes) where
  provision-Settles :
      (env : LabEnvironment)
      → Settles c lawful
          (provision c h env ns >>= λ assets.
            call (settled later) (c.update_status (summarize h.set_status_condition env assets)))
          (lab_keys ns env.spec.assets)
  provision-Settles env = subst (Settles c lawful _) (append-nil (lab_keys ns env.spec.assets)) (
      bind-BuildsIf c lawful (λ o. o ≢ nothing) _ _ [] (provision c h env ns)
        (provision-Builds c lawful h env ns)
        (λ assets.
          update_status-Settles c lawful later (summarize h.set_status_condition env assets)))

  expire_or_provision-Settles :
      (env : LabEnvironment)
      → Settles c lawful (expire_or_provision c h now later env ns) (lab_keys ns env.spec.assets)
  unfolding expire_or_provision
  expire_or_provision-Settles env = elim (Bool-cases (leb_ℤ now (expiry env))) [
    | inl e ↦ rw e (provision-Settles env)
    | inr e ↦ rw e (delete-Settles c lawful env (lab_keys ns env.spec.assets))
  ]

  create_stored-Settles :
      (stored : LabEnvironment)
      → Settles c lawful
          (create_stored c h now later ns stored)
          (namespace_key ns ∷ lab_keys ns stored.spec.assets)
  create_stored-Settles stored =
      bind-BuildsIf c lawful (λ o. o ≢ nothing) _ _ _ (ensure_namespace c stored ns)
        (ensure-Builds c lawful (lab_namespace stored ns))
        (λ _. expire_or_provision-Settles (with_defaults ns stored))

  updated_is :
      (answer : Write × LabEnvironment) (stored : LabEnvironment)
      → updated answer ≡ ok stored
      → answer.1 ≡ stored
  updated_is answer stored e = ground (arith, e)

  stored_spec :
      (env : LabEnvironment) (s : c.State) (stored : LabEnvironment)
      → (ensure_finalizer c env s).0 ≡ ok stored
      → stored.spec ≡ env.spec
  unfolding ensure_finalizer
  stored_spec env s stored e = ground (
    arith,
    e,
    lawful.update_env_spec (add_finalizer env) s,
    updated_is (c.update_env (add_finalizer env) s).0 stored,
  )

  ensure_finalizer-Same :
      (env : LabEnvironment) (s : c.State)
      → Same (lawful.view s) (lawful.view (ensure_finalizer c env s).1)
  unfolding ensure_finalizer
  ensure_finalizer-Same env s k = ground (arith, lawful.update_env_same (add_finalizer env) s k)

  module _ (env : LabEnvironment) where
    -- All the objects of a lab.
    abbrev all_keys : List Key
    all_keys = namespace_key ns ∷ lab_keys ns env.spec.assets

    finalized-Makes :
        (v : View) (r : Result LabEnvironment) (s : c.State)
        → ((a : LabEnvironment) → r ≡ ok a → a.spec ≡ env.spec)
        → Same v (lawful.view s)
        → Makes all_keys v (lawful.view (next (create_stored c h now later ns) r s).1)
    finalized-Makes v (ok a) s spec_is same =
        subst
          (λ spec.
            Makes (namespace_key ns ∷ lab_keys ns spec.assets) v
              (lawful.view (create_stored c h now later ns a s).1))
          (spec_is a refl)
          (Makes-trans [] (namespace_key ns ∷ lab_keys ns a.spec.assets) v (lawful.view s) _
            (Makes-Same [] v _ same) ((create_stored-Settles a).makes s))
    finalized-Makes v (err e) s spec_is same = Makes-Same all_keys v _ same

    finalized-AllThere :
        (r : Result LabEnvironment) (s : c.State) (o : Outcome)
        → ((a : LabEnvironment) → r ≡ ok a → a.spec ≡ env.spec)
        → (next (create_stored c h now later ns) r s).0 ≡ ok o
        → o ≢ nothing
        → AllThere all_keys (lawful.view (next (create_stored c h now later ns) r s).1)
    finalized-AllThere (ok a) s o spec_is e ne k k_in =
        subst
          (λ spec.
            AllThere (namespace_key ns ∷ lab_keys ns spec.assets)
              (lawful.view (create_stored c h now later ns a s).1))
          (spec_is a refl) ((create_stored-Settles a).there s o e ne) k k_in
    finalized-AllThere (err x) s o spec_is e ne k k_in = absurd cc

  -- Unless a reconciliation fails, or comes to nothing since the lab has expired or the clock reads
  -- the very time of expiry at the end, all the objects of the lab are there after it: its
  -- namespace, limits and network policies, the two relays with their configuration, and a pod and a
  -- service for each asset.
  pub reconcile_create-AllThere :
      (env : LabEnvironment) (s : c.State) (o : Outcome)
      → (reconcile_create c h now later env ns s).0 ≡ ok o
      → o ≢ nothing
      → AllThere
          (namespace_key ns ∷ lab_keys ns env.spec.assets)
          (lawful.view (reconcile_create c h now later env ns s).1)
  unfolding reconcile_create
  reconcile_create-AllThere env s o e ne k k_in =
      finalized-AllThere env _ _ o (stored_spec env s) e ne k k_in

  -- A reconciliation, also one that fails, changes no object but those of the lab. It makes what is
  -- missing; of what is there it changes network policies alone.
  pub reconcile_create-Makes :
      (env : LabEnvironment) (s : c.State)
      → Makes
          (namespace_key ns ∷ lab_keys ns env.spec.assets)
          (lawful.view s)
          (lawful.view (reconcile_create c h now later env ns s).1)
  unfolding reconcile_create
  reconcile_create-Makes env s k =
      finalized-Makes env (lawful.view s) _ _ (stored_spec env s) (ensure_finalizer-Same env s) k
