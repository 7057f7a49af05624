-- ===== src/Operator/Reconcile/Deletion.antt =====
-- `reconcileDelete`: the finalizer stays while the namespace is seen.
use rootenv.Common.{◌≡◌, ◌≢◌, refl, ◌∙◌, Option, none, List, Bytes, arith}
use rootenv.Operator.Action.{Result, ok, err, Action, next, ◌>>=◌}
use rootenv.Operator.Api.{LabEnvironment}
use rootenv.Operator.Cluster.{
  Cluster, View, Tells, Read, found, not_found, read_failed, namespace_key,
}
use rootenv.Operator.Kube.{Key, Object}
use rootenv.Operator.Objects.Lab.{phase_terminating}
use rootenv.Operator.Reconcile.{request_deletion, mark_terminating, clean_up, reconcile_delete}

-- What the cache that the operator's client reads from holds (`seen`), which may be behind what is
-- stored; and the finalizers that are stored of each LabEnvironment: a read, a deletion of a
-- namespace and an update of a status leave them as they are.
pub record KeepsFinalizers (c : Cluster) : Type 0 where
  pub seen : c.State → View
  pub get_tells : (k : Key) (s : c.State) → Tells (c.get k s).0 (seen s k)
  pub finalizers_of : c.State → Bytes → List Bytes
  pub get_keeps : (k : Key) (s : c.State) → finalizers_of (c.get k s).1 ≡ finalizers_of s
  pub delete_namespace_keeps :
      (n : Bytes) (s : c.State) → finalizers_of (c.delete_namespace n s).1 ≡ finalizers_of s
  pub update_status_keeps :
      (e : LabEnvironment) (s : c.State) → finalizers_of (c.update_status e s).1 ≡ finalizers_of s

module _ (c : Cluster) (keeps : KeepsFinalizers c) where
  abbrev Keeps : {A : Type 0} → Action c.State A → Type 0
  Keeps m = (s : c.State) → keeps.finalizers_of (m s).1 ≡ keeps.finalizers_of s

  module _ {A B : Type 0} (f : A → Action c.State B) (h : (a : A) → Keeps (f a)) where
    next-Keeps :
        (r : Result A) (s : c.State) → keeps.finalizers_of (next f r s).1 ≡ keeps.finalizers_of s
    next-Keeps (ok a) s = h a s
    next-Keeps (err x) s = refl

    bind-Keeps : (m : Action c.State A) → Keeps m → Keeps (m >>= f)
    bind-Keeps m first s = next-Keeps (m s).0 (m s).1 ∙ first s

  request_deletion-Keeps : (o : Object) → Keeps (request_deletion c o)
  unfolding request_deletion
  request_deletion-Keeps o s = ground (arith, keeps.delete_namespace_keeps o.name s)

  mark_terminating-Keeps : (env : LabEnvironment) → Keeps (mark_terminating c env)
  unfolding mark_terminating
  mark_terminating-Keeps env s = ground (
    arith,
    keeps.update_status_keeps
        (record (env) { status = record (env.status) { phase = phase_terminating } }) s,
  )

  clean_up-Keeps :
      (env : LabEnvironment) (answer : Read Object) (stored : Option Object)
      → Tells answer stored
      → stored ≢ none
      → Keeps (clean_up c env answer)
  clean_up-Keeps env (found o) stored tells ne =
      bind-Keeps _
        (λ _. bind-Keeps _ (λ _ s. refl) (mark_terminating c env) (mark_terminating-Keeps env))
        (request_deletion c o) (request_deletion-Keeps o)
  clean_up-Keeps env not_found stored tells ne = absurd (ne tells)
  clean_up-Keeps env read_failed stored tells ne = λ s. refl

  -- While the cache that the operator reads from holds its namespace, a LabEnvironment that is
  -- deleted keeps its finalizers, whichever calls fail.
  pub reconcile_delete-KeepsFinalizers :
      (env : LabEnvironment) (ns : Bytes) (s : c.State)
      → keeps.seen s (namespace_key ns) ≢ none
      → keeps.finalizers_of (reconcile_delete c env ns s).1 ≡ keeps.finalizers_of s
  unfolding reconcile_delete
  reconcile_delete-KeepsFinalizers env ns s there =
      let (answer, s') = c.get (namespace_key ns) s in
      ground (
        arith,
        clean_up-Keeps env answer (keeps.seen s (namespace_key ns))
              (keeps.get_tells (namespace_key ns) s) there s'
            ∙ keeps.get_keeps (namespace_key ns) s,
      )
