-- ===== src/Operator/Reconcile/Release.antt =====
-- `reconcileDelete`: a lab that is deleted is let go in the end.
use rootenv.Common.{
  subst, sym, ap, Bool-cases, inl, inr, ◌≡◌, ◌≢◌, refl, true, false, not, Option, none, List, [],
  ◌∷◌, Bytes, bytes_eq, bytes_beq, ◌==◌, any, filter, bytes_beq_iff, some, arith,
}
use rootenv.Common.Int.{pos}
use rootenv.Operator.Action.{Result, ok, written}
use rootenv.Operator.Api.{LabEnvironment}
use rootenv.Operator.Cluster.{
  Cluster, View, Same, Read, found, not_found, read_failed, namespace_key, done, Tells,
}
use rootenv.Operator.Kube.{Key, Object, key_of}
use rootenv.Operator.Objects.Lab.{finalizer_name, phase_terminating}
use rootenv.Operator.Reconcile.Success.{IsReliable}
use rootenv.Operator.Reconcile.{
  Outcome, nothing, after, remove_finalizer, contains_finalizer, request_deletion, mark_terminating,
  release, clean_up, reconcile_delete,
}

filter-removes :
    (fs : List Bytes)
    → any (λ f. f == finalizer_name) (filter (λ f. not (f == finalizer_name)) fs) ≡ false
unfolding any filter
filter-removes [] = refl
filter-removes (f ∷ fs) = ground (arith, filter-removes fs)

filter-keeps :
    (g : Bytes) (fs : List Bytes)
    → bytes_beq g finalizer_name ≡ false
    → any (λ f. f == g) (filter (λ f. not (f == finalizer_name)) fs) ≡ any (λ f. f == g) fs
unfolding any filter
filter-keeps g [] h = refl
filter-keeps g (f ∷ fs) h = ground (
  arith,
  filter-keeps g fs h,
  bytes_beq_iff f finalizer_name,
  bytes_beq_iff f g,
  bytes_beq_iff g finalizer_name,
)

-- A namespace that is gone, or is being deleted.
abbrev pub IsGoing : Option Object → Type 0
IsGoing none = Unit
IsGoing (some o) = o.deleting ≡ true

-- The objects that are stored (`view`), and those that the cache holds that the operator's client
-- reads from (`seen`), which may be behind. A deletion that is accepted marks the namespace or
-- removes it; a mark is never taken back, so that one that is seen is there or the namespace is gone.
pub record Deletes (c : Cluster) : Type 0 where
  pub view : c.State → View
  pub seen : c.State → View
  pub seen_keyed : (s : c.State) (k : Key) (o : Object) → seen s k ≡ some o → key_of o ≡ k
  pub get_tells : (k : Key) (s : c.State) → Tells (c.get k s).0 (seen s k)
  pub get_same : (k : Key) (s : c.State) → Same (view s) (view (c.get k s).1)
  pub seen_deleting :
      (s : c.State) (k : Key) (o : Object)
      → seen s k ≡ some o
      → o.deleting ≡ true
      → IsGoing (view s k)
  pub delete_namespace_done : (n : Bytes) (s : c.State) → (c.delete_namespace n s).0 ≡ done
  pub delete_namespace_marks :
      (n : Bytes) (s : c.State)
      → (c.delete_namespace n s).0 ≡ done
      → IsGoing (view (c.delete_namespace n s).1 (namespace_key n))
  pub update_status_same :
      (e : LabEnvironment) (s : c.State) → Same (view s) (view (c.update_status e s).1)

module _ (c : Cluster) (deletes : Deletes c) (reliable : IsReliable c) where
  -- How a deletion goes on: while the namespace is seen, and when it is not.
  abbrev pub GoesOn : LabEnvironment → Bytes → Option Object → Result Outcome × c.State → Type 0
  GoesOn env ns (some o) r =
      (r.0 ≡ ok (after (pos 5000000000))) × IsGoing (deletes.view r.1 (namespace_key ns))
  GoesOn env ns none r =
      (s : c.State) × (r ≡ (ok nothing, (c.update_env (remove_finalizer env) s).1))

  mark_terminating-same :
      (env : LabEnvironment) (s : c.State) (k : Key)
      → deletes.view (mark_terminating c env s).1 k ≡ deletes.view s k
  unfolding mark_terminating
  mark_terminating-same env s k = ground (
    arith,
    deletes.update_status_same
        (record (env) { status = record (env.status) { phase = phase_terminating } }) s k,
  )

  request_deletion-IsGoing :
      (o : Object) (s : c.State)
      → (o.deleting ≡ true → IsGoing (deletes.view s (namespace_key o.name)))
      → ((request_deletion c o s).0 ≡ ok tt)
        × IsGoing (deletes.view (request_deletion c o s).1 (namespace_key o.name))
  unfolding request_deletion
  request_deletion-IsGoing o s going = elim (Bool-cases o.deleting) [
    | inl e ↦ rw e (refl, going e)
    | inr e ↦ rw e (
      ap written (deletes.delete_namespace_done o.name s),
      deletes.delete_namespace_marks o.name s (deletes.delete_namespace_done o.name s),
    )
  ]

  clean_up-IsGoing :
      (env : LabEnvironment) (o : Object) (s : c.State)
      → (o.deleting ≡ true → IsGoing (deletes.view s (namespace_key o.name)))
      → GoesOn env o.name (some o) (clean_up c env (found o) s)
  unfolding mark_terminating
  clean_up-IsGoing env o s going =
      let (e, gone) = request_deletion-IsGoing o s going in
      let s' = (request_deletion c o s).1 in
      ground
        (arith, e, subst IsGoing (sym (mark_terminating-same env s' (namespace_key o.name))) gone)

  clean_up-GoesOn :
      (env : LabEnvironment) (ns : Bytes) (answer : Read Object) (stored : Option Object)
      (s : c.State)
      → Tells answer stored
      → answer ≢ read_failed
      → ((o : Object)
          → stored ≡ some o
          → (o.name ≡ ns) × (o.deleting ≡ true → IsGoing (deletes.view s (namespace_key ns))))
      → GoesOn env ns stored (clean_up c env answer s)
  unfolding release
  clean_up-GoesOn env ns (found o) stored s tells reads marked =
      let (named, going) = marked o tells in
      subst (λ v. GoesOn env ns v (clean_up c env (found o) s)) (sym tells)
        (subst (λ n. GoesOn env n (some o) (clean_up c env (found o) s)) named
          (clean_up-IsGoing env o s
            (λ d. subst (λ n. IsGoing (deletes.view s (namespace_key n))) (sym named) (going d))))
  clean_up-GoesOn env ns not_found (some p) s tells reads marked = cc
  clean_up-GoesOn env ns not_found none s tells reads marked =
      (s, ground (arith, reliable.update_env_done (remove_finalizer env) s))
  clean_up-GoesOn env ns read_failed stored s tells reads marked = absurd (reads refl)

  seen-IsMarked :
      (ns : Bytes) (s : c.State) (o : Object)
      → deletes.seen s (namespace_key ns) ≡ some o
      → (o.name ≡ ns)
        × (o.deleting ≡ true
            → IsGoing (deletes.view (c.get (namespace_key ns) s).1 (namespace_key ns)))
  seen-IsMarked ns s o e = (
    ap (λ k. k.name) (deletes.seen_keyed s (namespace_key ns) o e),
    λ d.
        subst IsGoing (sym (deletes.get_same (namespace_key ns) s (namespace_key ns)))
          (deletes.seen_deleting s (namespace_key ns) o e d),
  )

  -- Where no call of the API fails, a lab that is deleted and has the operator's finalizer is come
  -- back to in five seconds while the operator's cache holds its namespace, and that is then being
  -- deleted, or gone. Where the cache does not hold it, the reconciliation is done, and the last that
  -- it does is to store the resource without the operator's finalizer, and with every other one that
  -- it had.
  pub reconcile_delete-GoesOn :
      (env : LabEnvironment) (ns f : Bytes) (s : c.State)
      → contains_finalizer env ≡ true
      → bytes_beq f finalizer_name ≡ false
      → GoesOn env ns (deletes.seen s (namespace_key ns)) (reconcile_delete c env ns s)
        × (contains_finalizer (remove_finalizer env) ≡ false)
        × (any (λ g. g == f) (remove_finalizer env).finalizers ≡ any (λ g. g == f) env.finalizers)
  unfolding reconcile_delete
  reconcile_delete-GoesOn env ns f s marked other = (
    rw (marked, reconcile_delete)
        (clean_up-GoesOn env ns (c.get (namespace_key ns) s).0 (deletes.seen s (namespace_key ns))
          (c.get (namespace_key ns) s).1 (deletes.get_tells (namespace_key ns) s)
          (reliable.get_reads (namespace_key ns) s) (seen-IsMarked ns s)),
    filter-removes env.finalizers,
    filter-keeps f env.finalizers other,
  )
