-- ===== src/Operator/Reconcile/Success/Creation.antt =====
-- A reconciliation of a lab that has not expired succeeds where the API and the operator's
-- configuration do.
use rootenv.Common.Int.{ℤ, pos, leb_ℤ, ◌≤ℤ◌, ◌+ℤ◌}
use rootenv.Common.{
  ◌≢◌, ◌⊎◌, ◌≡◌, refl, ◌∙◌, sym, ap, subst, true, Bool-cases, inl, inr, some, ◌∷◌, Bytes, arith,
}
use rootenv.Operator.Action.{ok, Action, next, call, ◌>>=◌}
use rootenv.Operator.Api.{LabEnvironment}
use rootenv.Operator.Cluster.{Cluster, IsLawful, Write, done, namespace_key}
use rootenv.Operator.Ensure.Makes.{AllThere}
use rootenv.Operator.Ensure.{ensure_namespace}
use rootenv.Operator.Host.{Host}
use rootenv.Operator.Objects.Lab.{lab_namespace}
use rootenv.Operator.Reconcile.Creation.{reconcile_create-AllThere}
use rootenv.Operator.Reconcile.Provisioning.{lab_keys}
use rootenv.Operator.Reconcile.Success.Provisioning.{provision-Succeeds}
use rootenv.Operator.Reconcile.Success.{IsReliable, IsConfigured, Succeeds, ensure-Succeeds}
use rootenv.Operator.Reconcile.Time.{
  expiry, remaining, remaining-positive, remaining-nonzero, remaining-within,
}
use rootenv.Operator.Reconcile.{
  Outcome, after, add_finalizer, with_defaults, settled, updated, contains_finalizer,
  ensure_finalizer, provision, expire_or_provision, create_stored, reconcile_create,
}
use rootenv.Operator.Status.{summarize}

module _ (c : Cluster) (lawful : IsLawful c) (reliable : IsReliable c) where
  -- A method that succeeds, and asks to be called again after a time.
  abbrev Waits : ℤ → Action c.State Outcome → Type 0
  Waits wait m = (s : c.State) → (m s).0 ≡ ok (after wait)

  settled-done :
      (later : ℤ) (answer : Write × LabEnvironment) (t : ℤ)
      → answer.0 ≡ done
      → answer.1.status.expires_at ≡ some t
      → settled later answer ≡ ok (after (remaining t later))
  settled-done later answer t e h = ground (arith, e, h)

  status_is_written :
      (later : ℤ) (env : LabEnvironment) (t : ℤ)
      → env.status.expires_at ≡ some t
      → Waits (remaining t later) (call (settled later) (c.update_status env))
  status_is_written later env t h s =
      settled-done later (c.update_status env s).0 t (reliable.update_status_done env s)
        (reliable.update_status_expires env s ∙ h)

  bind-Waits :
      {A : Type 0} (wait : ℤ) (m : Action c.State A) (f : A → Action c.State Outcome)
      → Succeeds c m
      → ((a : A) → Waits wait (f a))
      → Waits wait (m >>= f)
  bind-Waits wait m f first h s =
      let (a, e) = first s in
      subst (λ r. (next f r (m s).1).0 ≡ ok (after wait)) (sym e) (h a (m s).1)

  updated_done : (answer : Write × LabEnvironment) → answer.0 ≡ done → updated answer ≡ ok answer.1
  updated_done answer e = ground (arith, e)

  ensure_finalizer-Finalized :
      (env : LabEnvironment) (s : c.State)
      → (stored : LabEnvironment) × ((ensure_finalizer c env s).0 ≡ ok stored)
        × (stored.spec ≡ env.spec)
        × (expiry stored ≡ expiry env)
  unfolding ensure_finalizer expiry
  ensure_finalizer-Finalized env s = elim (Bool-cases (contains_finalizer env)) [
    | inl e ↦ rw e (env, refl, refl, refl)
    | inr e ↦ rw e (
      (c.update_env (add_finalizer env) s).0.1,
      updated_done _ (reliable.update_env_done (add_finalizer env) s),
      lawful.update_env_spec (add_finalizer env) s,
      reliable.update_env_expiry (add_finalizer env) s,
    )
  ]

module _ (c : Cluster) (lawful : IsLawful c) (reliable : IsReliable c) (h : Host) (now later : ℤ)
    (ns : Bytes) where
  expire_or_provision-Waits :
      (env : LabEnvironment) (t : ℤ)
      → IsConfigured h env.spec
      → env.status.expires_at ≡ some t
      → leb_ℤ now (expiry env) ≡ true
      → Waits c lawful reliable (remaining t later) (expire_or_provision c h now later env ns)
  unfolding expire_or_provision summarize
  expire_or_provision-Waits env t configured expires alive s = rw alive (
      bind-Waits c lawful reliable (remaining t later) (provision c h env ns)
        (λ assets.
          call (settled later) (c.update_status (summarize h.set_status_condition env assets)))
        (provision-Succeeds c lawful reliable h env ns configured)
        (λ assets.
          status_is_written c lawful reliable later (summarize h.set_status_condition env assets) t
            expires)
        s)

  create_stored-Waits :
      (stored : LabEnvironment)
      → IsConfigured h stored.spec
      → leb_ℤ now (expiry stored) ≡ true
      → Waits c lawful reliable
          (remaining (expiry stored) later)
          (create_stored c h now later ns stored)
  unfolding expiry
  create_stored-Waits stored configured alive =
      bind-Waits c lawful reliable (remaining (expiry stored) later) (ensure_namespace c stored ns)
        (λ _. expire_or_provision c h now later (with_defaults ns stored) ns)
        (ensure-Succeeds c lawful reliable (lab_namespace stored ns))
        (λ _.
          expire_or_provision-Waits (with_defaults ns stored) (expiry stored) configured refl alive)

  reconcile_create-Waits :
      (env : LabEnvironment)
      → IsConfigured h env.spec
      → leb_ℤ now (expiry env) ≡ true
      → Waits c lawful reliable
          (remaining (expiry env) later)
          (reconcile_create c h now later env ns)
  unfolding reconcile_create
  reconcile_create-Waits env configured alive s =
      let (stored, e, spec_is, expiry_is) = ensure_finalizer-Finalized c lawful reliable env s in
      subst
        (λ r.
          (next (create_stored c h now later ns) r (ensure_finalizer c env s).1).0
          ≡ ok (after (remaining (expiry env) later)))
        (sym e)
        (create_stored-Waits stored (subst (IsConfigured h) (sym spec_is) configured)
            (ap (leb_ℤ now) expiry_is ∙ alive) (ensure_finalizer c env s).1
          ∙ ap (λ t. ok (after (remaining t later))) expiry_is)

  -- Where no call of the API fails, the cache that the operator reads from is not behind, the
  -- operator is configured for the lab (both relay images, the tasks and every asset's image and
  -- quantities) and the clock does not read the very time of expiry at the end, a reconciliation of a lab that has not expired succeeds. It asks to be called
  -- again after a time above zero, which does not pass the time of expiry unless that is reached, and
  -- all the objects of the lab are there.
  pub reconcile_create-succeeds :
      (env : LabEnvironment) (s : c.State)
      → IsConfigured h env.spec
      → leb_ℤ now (expiry env) ≡ true
      → expiry env ≢ later
      → let wait = remaining (expiry env) later in
        ((reconcile_create c h now later env ns s).0 ≡ ok (after wait))
        × (pos 1 ≤ℤ wait)
        × ((expiry env ≤ℤ later) ⊎ (later +ℤ wait ≤ℤ expiry env))
        × AllThere
            (namespace_key ns ∷ lab_keys ns env.spec.assets)
            (lawful.view (reconcile_create c h now later env ns s).1)
  reconcile_create-succeeds env s configured alive apart =
      let e = reconcile_create-Waits env configured alive s in
      (
        e,
        remaining-positive (expiry env) later apart,
        remaining-within (expiry env) later,
        reconcile_create-AllThere c lawful h now later ns env s
            (after (remaining (expiry env) later)) e
            (λ x. remaining-nonzero (expiry env) later apart (ap (λ o. o.requeue_after) x)),
      )
