-- ===== src/Examples/Cluster.antt =====
-- A Kubernetes API whose calls do not fail, with the objects in a map and one LabEnvironment.
use rootenv.Common.{
  sym, ap, subst, ◌∙◌, ◌≡◌, ◌≢◌, refl, ◌⊎◌, inl, inr, Bool-cases, true, Option, none, some, List,
  [], ◌∷◌, Bytes, codes, ◌==◌, eq_self, eq_of_beq, beq_of_ne, bytes_eq, bytes_beq_iff,
  if◌then◌else◌, arith,
}
use rootenv.Operator.Action.{ok}
use rootenv.Operator.Api.{LabEnvironment}
use rootenv.Operator.Cluster.{
  Cluster, namespace_key, IsLawful, View, Tells, Shows, Creates, Read, found, not_found,
  read_failed, Write, done, already_exists,
}
use rootenv.Operator.Ensure.Endpoint.{
  endpoint_of, first_endpoint, in_endpoints, in_addresses, first_port,
}
use rootenv.Operator.Reconcile.Release.{IsGoing, Deletes}
use rootenv.Operator.Reconcile.Success.{IsReliable}
use rootenv.Operator.Kube.{Key, Object, key_of, key_eq, EndpointSlice}

-- The objects that are stored, and the LabEnvironment.
pub record Store : Type 0 where
  pub objects : View
  pub keyed : (k : Key) (o : Object) → objects k ≡ some o → key_of o ≡ k
  pub env : LabEnvironment

abbrev put : Object → View → View
put o v k = if k == key_of o then some o else v k

some_is_not_none : {o : Object} → some o ≢ none
some_is_not_none e = cc

pub put-same : (o : Object) (v : View) → put o v (key_of o) ≡ some o
put-same o v = rw (eq_self (key_of o)) refl

pub put-there : (o : Object) (v : View) → put o v (key_of o) ≢ none
put-there o v e = absurd (some_is_not_none (sym (put-same o v) ∙ e))

pub put-other : (o : Object) (v : View) (k : Key) → k ≢ key_of o → put o v k ≡ v k
put-other o v k h = rw (beq_of_ne k (key_of o) h) refl

pub put-keyed :
    (o : Object) (v : View)
    → ((k : Key) (p : Object) → v k ≡ some p → key_of p ≡ k)
    → (k : Key) (p : Object) → put o v k ≡ some p
    → key_of p ≡ k
put-keyed o v keyed k p h = elim (Bool-cases (k == key_of o)) [
  | inl e ↦ ground (arith, h, eq_of_beq k (key_of o) e)
  | inr e ↦ keyed k p (ground (arith, h, e))
]

abbrev pub store : Object → Store → Store
store o s = record (s) { objects = put o s.objects; keyed = put-keyed o s.objects s.keyed }

-- The mark of a deletion.
abbrev deleting : Option Object → Option Object
deleting none = none
deleting (some o) = some (record (o) { deleting = true })

abbrev marked : Bytes → View → View
marked n v k = if k == namespace_key n then deleting (v k) else v k

deleting-keyed :
    (v : Option Object) (k : Key)
    → ((o : Object) → v ≡ some o → key_of o ≡ k)
    → (o : Object) → deleting v ≡ some o
    → key_of o ≡ k
deleting-keyed none k keyed o e = absurd cc
deleting-keyed (some p) k keyed o e = ground (arith, e, keyed p refl)

pub marked-keyed :
    (n : Bytes) (v : View)
    → ((k : Key) (o : Object) → v k ≡ some o → key_of o ≡ k)
    → (k : Key) (o : Object) → marked n v k ≡ some o
    → key_of o ≡ k
marked-keyed n v keyed k o h = elim (Bool-cases (k == namespace_key n)) [
  | inl e ↦ deleting-keyed (v k) k (keyed k) o (ground (arith, h, e))
  | inr e ↦ keyed k o (ground (arith, h, e))
]

pub marked-other : (n : Bytes) (v : View) (k : Key) → k ≢ namespace_key n → marked n v k ≡ v k
marked-other n v k h = rw (beq_of_ne k (namespace_key n) h) refl

deleting-IsGoing : (v : Option Object) → IsGoing (deleting v)
deleting-IsGoing none = tt
deleting-IsGoing (some o) = refl

pub marked-IsGoing : (n : Bytes) (v : View) → IsGoing (marked n v (namespace_key n))
marked-IsGoing n v = rw (eq_self (namespace_key n)) (deleting-IsGoing (v (namespace_key n)))

abbrev pub mark : Bytes → Store → Store
mark n s = record (s) { objects = marked n s.objects; keyed = marked-keyed n s.objects s.keyed }

abbrev answer : Option Object → Read Object
answer none = not_found
answer (some o) = found o

-- To create an object, and to set it.
abbrev created : Option Object → Object → Store → Write × Store
created none o s = (done, store o s)
created (some p) o s = (already_exists, s)

abbrev api_endpoints : List EndpointSlice
api_endpoints =
    record {
      endpoints = record { ready = none; addresses = codes "10.0.0.1" ∷ [] } ∷ [];
      ports = some 6443 ∷ [];
    }
    ∷ []

abbrev pub cluster : Cluster
cluster = record {
  State = Store;
  get = λ k s. (answer (s.objects k), s);
  create = λ o s. created (s.objects (key_of o)) o s;
  create_or_update = λ o s. (done, store o s);
  delete_namespace = λ n s. (done, mark n s);
  list_endpoints = λ s. (some api_endpoints, s);
  get_env = λ n s. (if n == s.env.name then found s.env else not_found, s);
  update_env = λ e s. ((done, e), record (s) { env = e });
  update_status = λ e s. (
    (done, record (s.env) { status = e.status }),
    record (s) { env = record (s.env) { status = e.status } },
  );
  delete_env = λ e s. (done, s);
}

pub answer-Tells : (v : Option Object) → Tells (answer v) v
answer-Tells none = refl
answer-Tells (some o) = refl

pub answer-Shows :
    (k : Key) (s : Store) (v : Option Object) → s.objects k ≡ v → Shows k (answer v) v
answer-Shows k s none e = tt
answer-Shows k s (some o) e = (s.keyed k o e, some_is_not_none)

pub answer-frees :
    (k : Key) (s : Store) (v : Option Object)
    → s.objects k ≡ v
    → answer v ≡ not_found
    → (o : Object) → key_of o ≡ k
    → (created (s.objects (key_of o)) o s).0 ≡ done
answer-frees k s none e a o h =
    subst (λ w. (created w o s).0 ≡ done) (sym (ap s.objects h ∙ e)) refl
answer-frees k s (some p) e a o h = absurd cc

pub created-Creates :
    (o : Object) (s : Store) (v : Option Object)
    → s.objects (key_of o) ≡ v
    → Creates o (created v o s).0 s.objects (created v o s).1.objects
created-Creates o s none h = (h, put-there o s.objects)
created-Creates o s (some p) h = ((λ e. cc), refl)

pub created-same :
    (o : Object) (s : Store) (v : Option Object) (k : Key)
    → k ≢ key_of o
    → (created v o s).1.objects k ≡ s.objects k
created-same o s none k h = put-other o s.objects k h
created-same o s (some p) k h = refl

pub named :
    (n : Bytes) (s : Store) (e : LabEnvironment) → (cluster.get_env n s).0 ≡ found e → e.name ≡ n
named n s e h = ground (arith, h, bytes_beq_iff n s.env.name)

abbrev pub lawful : IsLawful cluster
lawful = record {
  view = λ s. s.objects;
  get_shows = λ k s. answer-Shows k s (s.objects k) refl;
  get_same = λ k s i. refl;
  create_creates = λ o s. created-Creates o s (s.objects (key_of o)) refl;
  create_same = λ o s. created-same o s (s.objects (key_of o));
  set_sets = λ o s. (o, put-same o s.objects, refl);
  set_same = λ o s. put-other o s.objects;
  delete_namespace_same = λ n s k _ other. marked-other n s.objects k other;
  list_same = λ s k. refl;
  get_env_same = λ n s k. refl;
  get_env_named = named;
  update_env_same = λ e s k. refl;
  update_status_same = λ e s k. refl;
  delete_env_same = λ e s k. refl;
  update_env_spec = λ e s. refl;
}

pub created-answers :
    (o : Object) (s : Store) (v : Option Object)
    → ((created v o s).0 ≡ done) ⊎ ((created v o s).0 ≡ already_exists)
created-answers o s none = inl refl
created-answers o s (some p) = inr refl

pub answer-reads : (v : Option Object) → answer v ≢ read_failed
answer-reads none h = cc
answer-reads (some o) h = cc

pub endpoint : endpoint_of (some api_endpoints) ≡ ok (codes "10.0.0.1", 6443)
unfolding first_endpoint in_endpoints in_addresses first_port
endpoint = refl

abbrev pub reliable : IsReliable cluster
reliable = record {
  get_reads = λ k s. answer-reads (s.objects k);
  get_frees = λ k s e. answer-frees k s (s.objects k) refl e;
  create_answers = λ o s. created-answers o s (s.objects (key_of o));
  set_done = λ o s. refl;
  list_ready = λ s. ((codes "10.0.0.1", 6443), endpoint);
  update_env_done = λ e s. refl;
  update_env_expiry = λ e s. refl;
  update_status_done = λ e s. refl;
  update_status_expires = λ e s. refl;
}

pub seen-IsGoing : (v : Option Object) (o : Object) → v ≡ some o → o.deleting ≡ true → IsGoing v
seen-IsGoing v o e d = ground (arith, e, d)

abbrev pub deletes : Deletes cluster
deletes = record {
  view = λ s. s.objects;
  seen = λ s. s.objects;
  seen_keyed = λ s. s.keyed;
  get_tells = λ k s. answer-Tells (s.objects k);
  get_same = λ k s i. refl;
  seen_deleting = λ s k o e d. seen-IsGoing (s.objects k) o e d;
  delete_namespace_done = λ n s. refl;
  delete_namespace_marks = λ n s _. marked-IsGoing n s.objects;
  update_status_same = λ e s k. refl;
}
