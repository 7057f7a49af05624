-- ===== src/Operator/Reconcile/Success.antt =====
-- When a reconciliation succeeds: no call of the Kubernetes API fails, and the operator is
-- configured for the lab.
pub mod Provisioning
pub mod Creation
use rootenv.Common.Int.{ℤ, leb_ℤ}
use rootenv.Common.{
  ℕ, ◌≡◌, ◌≢◌, refl, ◌∙◌, sym, ap, subst, ◌⊎◌, inl, inr, Bool, true, false, Bool-cases, Option,
  none, some, List, [], ◌∷◌, Bytes, bytes_eq, ◌==◌, beq_of_ne, codes, arith,
}
use rootenv.Operator.Action.{
  Error, Result, ok, err, or_error, Action, next, pure, give, call, ◌>>=◌, ◌>>◌, written,
  written_or_present,
}
use rootenv.Operator.Api.{Asset, LabEnvironment, LabEnvironmentStatus, LabEnvironmentSpec}
use rootenv.Operator.Cluster.{
  Cluster, IsLawful, Tells, Creates, Read, found, not_found, read_failed, Write, done,
  already_exists,
}
use rootenv.Operator.Ensure.Endpoint.{endpoint_of}
use rootenv.Operator.Ensure.{if_absent, unless_found, create_or_ignore, set, ensure, quantities}
use rootenv.Operator.Host.{Host, GraderConfig, load_grader_config, load_lab_image_ref}
use rootenv.Operator.Kube.{Key, Object, key_of}
use rootenv.Operator.Objects.Grader.{grader_tasks}
use rootenv.Operator.RelayConfig.{RelayConfig, load_relay_config}
use rootenv.Operator.Reconcile.Time.{expiry}

-- A creation of the object of a key succeeds.
abbrev pub IsFree : (c : Cluster) → Key → c.State → Type 0
IsFree c k s = (o : Object) → key_of o ≡ k → (c.create o s).0 ≡ done

-- No call fails, what a read does not find is not there, and the API server has a ready endpoint. An update hands back the resource with
-- the time of expiry that it was sent with.
pub record IsReliable (c : Cluster) : Type 0 where
  pub get_reads : (k : Key) (s : c.State) → (c.get k s).0 ≢ read_failed
  pub get_frees : (k : Key) (s : c.State) → (c.get k s).0 ≡ not_found → IsFree c k (c.get k s).1
  pub create_answers :
      (o : Object) (s : c.State) → ((c.create o s).0 ≡ done) ⊎ ((c.create o s).0 ≡ already_exists)
  pub set_done : (o : Object) (s : c.State) → (c.create_or_update o s).0 ≡ done
  pub list_ready : (s : c.State) → (e : Bytes × ℕ) × (endpoint_of (c.list_endpoints s).0 ≡ ok e)
  pub update_env_done : (e : LabEnvironment) (s : c.State) → (c.update_env e s).0.0 ≡ done
  pub update_env_expiry :
      (e : LabEnvironment) (s : c.State) → expiry (c.update_env e s).0.1 ≡ expiry e
  pub update_status_done : (e : LabEnvironment) (s : c.State) → (c.update_status e s).0.0 ≡ done
  pub update_status_expires :
      (e : LabEnvironment) (s : c.State)
      → (c.update_status e s).0.1.status.expires_at ≡ e.status.expires_at

-- An asset whose image reference can be read and whose quantities parse.
abbrev pub IsUsable : Host → Asset → Type 0
IsUsable h asset =
    ((image : Bytes) × (load_lab_image_ref h asset.image ≡ ok image)) × (quantities h asset ≡ ok tt)

abbrev pub AllUsable : Host → List Asset → Type 0
AllUsable h [] = Unit
AllUsable h (asset ∷ assets) = IsUsable h asset × AllUsable h assets

pub record IsConfigured (h : Host) (spec : LabEnvironmentSpec) : Type 0 where
  pub relay_image : h.getenv (codes "RELAY_EXEC_IMAGE") ≢ []
  pub grader_image : h.getenv (codes "RELAY_GRADER_IMAGE") ≢ []
  pub tasks_json : (text : Bytes) × (h.marshal (grader_tasks spec) ≡ some text)
  pub usable : AllUsable h spec.assets

pub or_error-some :
    {A : Type 0} (o : Option A) (e : Error)
    → (a : A) × (o ≡ some a)
    → (a : A) × (or_error o e ≡ ok a)
or_error-some o e (a, h) = (a, ap (λ x. or_error x e) h)

pub load_relay_config-some :
    (getenv : Bytes → Bytes)
    → getenv (codes "RELAY_EXEC_IMAGE") ≢ []
    → (cfg : RelayConfig) × (load_relay_config getenv ≡ some cfg)
unfolding load_relay_config
load_relay_config-some getenv h = rw (beq_of_ne (getenv (codes "RELAY_EXEC_IMAGE")) [] h) (_, refl)

pub load_grader_config-some :
    (getenv : Bytes → Bytes)
    → getenv (codes "RELAY_GRADER_IMAGE") ≢ []
    → (cfg : GraderConfig) × (load_grader_config getenv ≡ some cfg)
unfolding load_grader_config
load_grader_config-some getenv h =
    rw (beq_of_ne (getenv (codes "RELAY_GRADER_IMAGE")) [] h) (_, refl)

module _ (c : Cluster) where
  abbrev pub SucceedsAt : {A : Type 0} → Action c.State A → c.State → Type 0
  SucceedsAt {A = A} m s = (a : A) × ((m s).0 ≡ ok a)

  abbrev pub Succeeds : {A : Type 0} → Action c.State A → Type 0
  Succeeds m = (s : c.State) → SucceedsAt m s

  module _ {A B : Type 0} (f : A → Action c.State B) where
    pub bind-SucceedsAt :
        (m : Action c.State A) (s : c.State)
        → SucceedsAt m s
        → ((a : A) → SucceedsAt (f a) (m s).1)
        → SucceedsAt (m >>= f) s
    bind-SucceedsAt m s (a, e) h =
        subst (λ r. (b : B) × ((next f r (m s).1).0 ≡ ok b)) (sym e) (h a)

  pub bind-Succeeds :
      {A B : Type 0} (f : A → Action c.State B) (m : Action c.State A)
      → Succeeds m
      → ((a : A) → Succeeds (f a))
      → Succeeds (m >>= f)
  bind-Succeeds f m first h s = bind-SucceedsAt f m s (first s) (λ a. h a (m s).1)

  pub then-Succeeds :
      {A B : Type 0} (m : Action c.State A) (m' : Action c.State B)
      → Succeeds m
      → Succeeds m'
      → Succeeds (m >> m')
  then-Succeeds m m' first second = bind-Succeeds (λ _. m') m first (λ _. second)

module _ (c : Cluster) (lawful : IsLawful c) (reliable : IsReliable c) where
  if_absent-Succeeds :
      (k : Key) (m : Action c.State Unit) (r : Read Object) (s : c.State)
      → (r ≡ not_found → IsFree c k s)
      → r ≢ read_failed
      → (IsFree c k s → SucceedsAt c m s)
      → SucceedsAt c (if_absent m r) s
  if_absent-Succeeds k m (found o) s frees ne h = (tt, refl)
  if_absent-Succeeds k m not_found s frees ne h = h (frees refl)
  if_absent-Succeeds k m read_failed s frees ne h = absurd (ne refl)

  pub unless_found-Succeeds :
      (k : Key) (m : Action c.State Unit)
      → ((s : c.State) → IsFree c k s → SucceedsAt c m s)
      → Succeeds c (unless_found c k m)
  unfolding unless_found
  unless_found-Succeeds k m h s =
      let (r, s') = c.get k s in
      if_absent-Succeeds k m r s' (reliable.get_frees k s) (reliable.get_reads k s) (h s')

  pub create_or_ignore-Succeeds : (o : Object) → Succeeds c (create_or_ignore c o)
  unfolding create_or_ignore
  create_or_ignore-Succeeds o s = ground (arith, reliable.create_answers o s)

  pub create-written-SucceedsAt :
      (o : Object) (s : c.State)
      → IsFree c (key_of o) s
      → SucceedsAt c (call written (c.create o)) s
  create-written-SucceedsAt o s h = ground (arith, h o refl)

  pub set-Succeeds : (o : Object) → Succeeds c (set c o)
  unfolding set
  set-Succeeds o s = ground (arith, reliable.set_done o s)

  pub ensure-Succeeds : (o : Object) → Succeeds c (ensure c o)
  unfolding ensure
  ensure-Succeeds o =
      unless_found-Succeeds (key_of o) (create_or_ignore c o) (λ s _. create_or_ignore-Succeeds o s)
