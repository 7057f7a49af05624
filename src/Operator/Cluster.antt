-- ===== src/Operator/Cluster.antt =====
-- The Kubernetes API as the operator calls it, and what its documentation says of the calls. No
-- one else writes between the calls of one reconciliation.
use rootenv.Common.{◌≡◌, ◌≢◌, Option, none, some, List, [], Bytes, ◌⊎◌}
use rootenv.Operator.Api.{LabEnvironment}
use rootenv.Operator.Kube.{Kind, Key, Object, key_of, EndpointSlice}

-- The answers to a read, and to a write.
pub data Read (A : Type 0) : Type 0 where
  found : A → Read A
  not_found read_failed : Read A

pub data Write : Type 0 where
  done already_exists gone conflict write_failed : Write

-- `State` is all that the answers depend on. `list_endpoints` lists the slices of the service
-- "kubernetes"; `create_or_update` stands for `controllerutil.CreateOrUpdate` where the mutation
-- sets the whole specification. An update hands back the resource as stored.
pub record Cluster : Type 1 where
  pub State : Type 0
  pub get : Key → State → Read Object × State
  pub create : Object → State → Write × State
  pub create_or_update : Object → State → Write × State
  pub delete_namespace : Bytes → State → Write × State
  pub list_endpoints : State → Option (List EndpointSlice) × State
  pub get_env : Bytes → State → Read LabEnvironment × State
  pub update_env : LabEnvironment → State → (Write × LabEnvironment) × State
  pub update_status : LabEnvironment → State → (Write × LabEnvironment) × State
  pub delete_env : LabEnvironment → State → Write × State

-- The namespace of a name, as an object.
abbrev pub namespace_key : Bytes → Key
namespace_key n = record { kind = Kind.namespace; namespace = []; name = n }

abbrev pub View : Type 0
View = Key → Option Object

-- What a read says of what it reads from.
abbrev pub Tells : {A : Type 0} → Read A → Option A → Type 0
Tells (found a) v = v ≡ some a
Tells not_found v = v ≡ none
Tells read_failed v = Unit

-- What a read of a key says of what is stored where the client reads from a cache that may be
-- behind: what it finds is the object of that key and still there, since the objects of a lab are
-- deleted with their namespace only; what it does not find may be there.
abbrev pub Shows : Key → Read Object → Option Object → Type 0
Shows k (found o) v = (key_of o ≡ k) × (v ≢ none)
Shows k _ v = Unit

-- What a creation does to what is stored. A failed one may have taken place.
abbrev pub Creates : Object → Write → View → View → Type 0
Creates o done v v' = (v (key_of o) ≡ none) × (v' (key_of o) ≢ none)
Creates o already_exists v v' = (v (key_of o) ≢ none) × (v' (key_of o) ≡ v (key_of o))
Creates o _ v v' = (v' (key_of o) ≡ v (key_of o)) ⊎ (v (key_of o) ≡ none) × (v' (key_of o) ≢ none)

abbrev pub Sets : Object → Write → View → View → Type 0
Sets o done v v' = (p : Object) × (v' (key_of o) ≡ some p) × (p.content ≡ o.content)
Sets o _ v v' = (v' (key_of o) ≡ v (key_of o)) ⊎ (v' (key_of o) ≢ none)

abbrev pub Same : View → View → Type 0
Same v v' = (k : Key) → v' k ≡ v k

abbrev pub SameBut : Key → View → View → Type 0
SameBut i v v' = (k : Key) → k ≢ i → v' k ≡ v k

-- The objects stored, seen from outside, and how the calls change them. The calls on a
-- LabEnvironment leave the other objects alone; a read changes nothing.
pub record IsLawful (c : Cluster) : Type 0 where
  pub view : c.State → View
  pub get_shows : (k : Key) (s : c.State) → Shows k (c.get k s).0 (view s k)
  pub get_same : (k : Key) (s : c.State) → Same (view s) (view (c.get k s).1)
  pub create_creates :
      (o : Object) (s : c.State) → Creates o (c.create o s).0 (view s) (view (c.create o s).1)
  pub create_same : (o : Object) (s : c.State) → SameBut (key_of o) (view s) (view (c.create o s).1)
  pub set_sets :
      (o : Object) (s : c.State)
      → Sets o (c.create_or_update o s).0 (view s) (view (c.create_or_update o s).1)
  pub set_same :
      (o : Object) (s : c.State) → SameBut (key_of o) (view s) (view (c.create_or_update o s).1)
  pub delete_namespace_same :
      (n : Bytes) (s : c.State) (k : Key)
      → k.namespace ≢ n
      → k ≢ namespace_key n
      → view (c.delete_namespace n s).1 k ≡ view s k
  pub list_same : (s : c.State) → Same (view s) (view (c.list_endpoints s).1)
  pub get_env_same : (n : Bytes) (s : c.State) → Same (view s) (view (c.get_env n s).1)
  pub get_env_named :
      (n : Bytes) (s : c.State) (e : LabEnvironment) → (c.get_env n s).0 ≡ found e → e.name ≡ n
  pub update_env_same :
      (e : LabEnvironment) (s : c.State) → Same (view s) (view (c.update_env e s).1)
  pub update_status_same :
      (e : LabEnvironment) (s : c.State) → Same (view s) (view (c.update_status e s).1)
  pub delete_env_same :
      (e : LabEnvironment) (s : c.State) → Same (view s) (view (c.delete_env e s).1)
  -- The resource that an update hands back has the specification that it was sent with.
  pub update_env_spec : (e : LabEnvironment) (s : c.State) → (c.update_env e s).0.1.spec ≡ e.spec
