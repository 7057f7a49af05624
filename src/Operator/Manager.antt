-- ===== src/Operator/Manager.antt =====
-- services/labenv-operator/internal/controller/labenvironment_controller.go: `SetupWithManager`, the
-- reconciliations that the manager runs one after the other, and what the others do in between.
use rootenv.Common.Int.{ℤ}
use rootenv.Common.{◌≡◌, ◌≢◌, refl, ◌∙◌, List, [], ◌∷◌, Bytes}
use rootenv.Operator.Cluster.{Cluster, IsLawful, namespace_key}
use rootenv.Operator.Host.{Host}
use rootenv.Operator.Kube.{Key, Labels}
use rootenv.Operator.Objects.Lab.{namespace_of}
use rootenv.Operator.Reconcile.Isolation.{reconcile-Stays}
use rootenv.Operator.Reconcile.{reconcile}
use rootenv.Operator.Watch.{watch_requests}

-- A change of a LabEnvironment, or a request to come back to it; a change of a pod.
pub data Cause : Type 0 where
  env_changed again : Bytes → Cause
  pod_changed : Labels → Cause

unfoldable pub requests_of : Cause → List Bytes
requests_of (env_changed name) = name ∷ []
requests_of (again name) = name ∷ []
requests_of (pod_changed labels) = watch_requests labels

module _ (c : Cluster) where
  -- `meanwhile` is what the others do to the cluster before the reconciliations that the cause leads
  -- to; the readings of the clock are those of these.
  pub record Turn : Type 0 where
    pub cause : Cause
    pub meanwhile : c.State → c.State
    pub now : ℤ
    pub later : ℤ

  module _ (h : Host) where
    unfoldable pub serve : ℤ → ℤ → List Bytes → c.State → c.State
    serve now later [] s = s
    serve now later (name ∷ names) s = serve now later names (reconcile c h now later name s).1

    unfoldable pub run : List Turn → c.State → c.State
    run [] s = s
    run (t ∷ turns) s = run turns (serve t.now t.later (requests_of t.cause) (t.meanwhile s))

-- An object outside of the labs of these names.
abbrev pub IsOutside : Key → List Bytes → Type 0
IsOutside k [] = Unit
IsOutside k (name ∷ names) =
    (k.namespace ≢ namespace_of name) × (k ≢ namespace_key (namespace_of name)) × IsOutside k names

module _ (c : Cluster) (lawful : IsLawful c) (h : Host) where
  -- An object outside of the labs that the turns are about, which the others leave alone.
  abbrev pub IsSpared : Key → List (Turn c) → Type 0
  IsSpared k [] = Unit
  IsSpared k (t ∷ turns) =
      IsOutside k (requests_of t.cause)
      × ((s : c.State) → lawful.view (t.meanwhile s) k ≡ lawful.view s k)
      × IsSpared k turns

  serve-Stays :
      (now later : ℤ) (names : List Bytes) (s : c.State) (k : Key)
      → IsOutside k names
      → lawful.view (serve c h now later names s) k ≡ lawful.view s k
  unfolding serve
  serve-Stays now later [] s k out = refl
  serve-Stays now later (name ∷ names) s k (other, not_it, out) =
      serve-Stays now later names (reconcile c h now later name s).1 k out
      ∙ reconcile-Stays c lawful h now later name s k other not_it

  -- Over a whole run of the operator, however its reconciliations end, an object outside of the labs
  -- that changed, whose pods changed or that asked to be come back to, stays as it is unless someone
  -- else changes it.
  pub run-Stays :
      (turns : List (Turn c)) (s : c.State) (k : Key)
      → IsSpared k turns
      → lawful.view (run c h turns s) k ≡ lawful.view s k
  unfolding run
  run-Stays [] s k spared = refl
  run-Stays (t ∷ turns) s k (out, alone, spared) =
      run-Stays turns (serve c h t.now t.later (requests_of t.cause) (t.meanwhile s)) k spared
      ∙ serve-Stays t.now t.later (requests_of t.cause) (t.meanwhile s) k out
      ∙ alone s
