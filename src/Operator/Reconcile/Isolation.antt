-- ===== src/Operator/Reconcile/Isolation.antt =====
-- A reconciliation stays in the namespace of its lab.
use rootenv.Common.Int.{ℤ}
use rootenv.Common.{
  Option, ◌≡◌, ◌≢◌, refl, ◌∙◌, sym, ap, subst, ◌⊎◌, inl, inr, List, [], ◌∷◌, Bytes, arith,
}
use rootenv.Operator.Action.{Result, ok, err, Action, next, pure, call, ◌>>=◌}
use rootenv.Operator.Api.{Asset, LabEnvironment}
use rootenv.Operator.Cluster.{
  Cluster, IsLawful, View, Shows, Same, Read, found, not_found, read_failed, namespace_key,
}
use rootenv.Operator.Ensure.Makes.{IsIn}
use rootenv.Operator.Host.{Host}
use rootenv.Operator.Kube.{Key, Object}
use rootenv.Operator.Objects.Lab.{phase_terminating, namespace_of}
use rootenv.Operator.Reconcile.Creation.{reconcile_create-Makes}
use rootenv.Operator.Reconcile.Provisioning.{assets_keys, lab_keys}
use rootenv.Operator.Reconcile.{
  nothing, updated, remove_finalizer, request_deletion, mark_terminating, release, clean_up,
  reconcile_delete, reconcile_create, reconcile_found, reconcile,
}

-- The namespace and what is in it.
abbrev pub Own : Bytes → Key → Type 0
Own ns k = (k.namespace ≡ ns) ⊎ (k ≡ namespace_key ns)

abbrev pub AllOwn : Bytes → List Key → Type 0
AllOwn ns [] = Unit
AllOwn ns (k ∷ ks) = Own ns k × AllOwn ns ks

AllOwn-IsIn : (ns : Bytes) (ks : List Key) (k : Key) → AllOwn ns ks → IsIn k ks → Own ns k
AllOwn-IsIn ns [] k own h = elim h [ ]
AllOwn-IsIn ns (j ∷ ks) k (own, _) (inl e) = subst (Own ns) (sym e) own
AllOwn-IsIn ns (j ∷ ks) k (_, own) (inr h) = AllOwn-IsIn ns ks k own h

module _ (c : Cluster) (lawful : IsLawful c) (ns : Bytes) where
  -- What is not the namespace's own stays as it was.
  abbrev pub Stays : {A : Type 0} → Action c.State A → Type 0
  Stays m = (s : c.State) (k : Key) → ¬ Own ns k → lawful.view (m s).1 k ≡ lawful.view s k

  module _ {A B : Type 0} (f : A → Action c.State B) (h : (a : A) → Stays (f a)) where
    next-Stays :
        (v : View) (r : Result A) (s : c.State) (k : Key)
        → ¬ Own ns k
        → lawful.view s k ≡ v k
        → lawful.view (next f r s).1 k ≡ v k
    next-Stays v (ok a) s k outside e = h a s k outside ∙ e
    next-Stays v (err x) s k outside e = e

    pub bind-Stays : (m : Action c.State A) → Stays m → Stays (m >>= f)
    bind-Stays m first s k outside =
        next-Stays (lawful.view s) (m s).0 (m s).1 k outside (first s k outside)

  Same-Stays :
      {A : Type 0} (m : Action c.State A)
      → ((s : c.State) → Same (lawful.view s) (lawful.view (m s).1))
      → Stays m
  Same-Stays m same s k outside = same s k

assets_keys-AllOwn : (ns : Bytes) (assets : List Asset) → AllOwn ns (assets_keys ns assets)
unfolding assets_keys
assets_keys-AllOwn ns [] = tt
assets_keys-AllOwn ns (asset ∷ assets) = (inl refl, (inl refl, assets_keys-AllOwn ns assets))

all_keys-AllOwn :
    (ns : Bytes) (assets : List Asset) → AllOwn ns (namespace_key ns ∷ lab_keys ns assets)
all_keys-AllOwn ns assets = ground (arith, assets_keys-AllOwn ns assets)

module _ (c : Cluster) (lawful : IsLawful c) (ns : Bytes) where
  request_deletion-Stays : (o : Object) → o.name ≡ ns → Stays c lawful ns (request_deletion c o)
  unfolding request_deletion
  request_deletion-Stays o named s k outside = ground (
    arith,
    lawful.delete_namespace_same o.name s k (λ e. outside (inl (e ∙ named)))
        (λ e. outside (inr (e ∙ ap namespace_key named))),
  )

  mark_terminating-Stays : (env : LabEnvironment) → Stays c lawful ns (mark_terminating c env)
  unfolding mark_terminating
  mark_terminating-Stays env s k outside = ground (
    arith,
    lawful.update_status_same
        (record (env) { status = record (env.status) { phase = phase_terminating } }) s k,
  )

  release-Stays : (env : LabEnvironment) → Stays c lawful ns (release c env)
  unfolding release
  release-Stays env =
      bind-Stays c lawful ns (λ _. pure nothing) (λ _ s k outside. refl)
        (call updated (c.update_env (remove_finalizer env)))
        (λ s k outside. lawful.update_env_same (remove_finalizer env) s k)

  clean_up-Stays :
      (env : LabEnvironment) (answer : Read Object) (v : Option Object)
      → Shows (namespace_key ns) answer v
      → Stays c lawful ns (clean_up c env answer)
  clean_up-Stays env not_found v shows s k outside = release-Stays env s k outside
  clean_up-Stays env read_failed v shows s k outside = refl
  clean_up-Stays env (found o) v shows s k outside =
      bind-Stays c lawful ns _
        (λ _.
          bind-Stays c lawful ns _ (λ _ s k outside. refl) (mark_terminating c env)
            (mark_terminating-Stays env))
        (request_deletion c o) (request_deletion-Stays o (ap (λ k. k.name) shows.0)) s k outside

  reconcile_delete-Stays : (env : LabEnvironment) → Stays c lawful ns (reconcile_delete c env ns)
  unfolding reconcile_delete
  reconcile_delete-Stays env s k outside =
      let (answer, s') = c.get (namespace_key ns) s in
      ground (
        arith,
        clean_up-Stays env answer (lawful.view s (namespace_key ns))
              (lawful.get_shows (namespace_key ns) s) s' k outside
            ∙ lawful.get_same (namespace_key ns) s k,
      )

module _ (c : Cluster) (lawful : IsLawful c) (h : Host) (now later : ℤ) where
  reconcile_create-Stays :
      (env : LabEnvironment) (ns : Bytes)
      → Stays c lawful ns (reconcile_create c h now later env ns)
  reconcile_create-Stays env ns s k outside =
      elim (reconcile_create-Makes c lawful h now later ns env s k) [
        | inl e ↦ e
        | inr (k_in, _, _) ↦ absurd (
            outside (
              AllOwn-IsIn ns (namespace_key ns ∷ lab_keys ns env.spec.assets) k
                (all_keys-AllOwn ns env.spec.assets) k_in))
      ]

  found-Stays :
      (env : LabEnvironment)
      → Stays c lawful (namespace_of env.name) (reconcile_found c h now later (found env))
  found-Stays env s k outside = ground (
    arith,
    reconcile_delete-Stays c lawful (namespace_of env.name) env s k outside,
    reconcile_create-Stays env (namespace_of env.name) s k outside,
  )

  answer-Stays :
      (name : Bytes) (answer : Read LabEnvironment)
      → ((env : LabEnvironment) → answer ≡ found env → env.name ≡ name)
      → Stays c lawful (namespace_of name) (reconcile_found c h now later answer)
  answer-Stays name (found env) named =
      subst (λ n. Stays c lawful (namespace_of n) (reconcile_found c h now later (found env)))
        (named env refl) (found-Stays env)
  answer-Stays name not_found named = λ s k outside. refl
  answer-Stays name read_failed named = λ s k outside. refl

  -- A reconciliation of a LabEnvironment, however it ends, changes no object but the namespace of
  -- that lab and what is in it: it may fail, expire, make or delete the lab.
  pub reconcile-Stays :
      (name : Bytes) (s : c.State) (k : Key)
      → k.namespace ≢ namespace_of name
      → k ≢ namespace_key (namespace_of name)
      → lawful.view (reconcile c h now later name s).1 k ≡ lawful.view s k
  unfolding reconcile
  reconcile-Stays name s k other not_it =
      answer-Stays name (c.get_env name s).0 (lawful.get_env_named name s) (c.get_env name s).1 k
        (λ own. elim own [ inl e ↦ other e | inr e ↦ not_it e ])
      ∙ lawful.get_env_same name s k
