-- ===== src/Operator/Kube.antt =====
-- The Kubernetes objects that the operator makes, with the fields that it sets or reads.
use rootenv.Common.{
  ℕ, ◌≡◌, ◌↔◌, Comparable, bytes_beq_iff, Bool, true, false, ◌&&◌, Option, List, Bytes, bytes_eq,
  ◌==◌, nat_eq, arith,
}
use rootenv.Common.Dict.{Dict}

abbrev pub Labels : Type 0
Labels = Dict Bytes Bytes

-- What names an object of a kind: its namespace ("" for an object of the whole cluster) and name.
pub data Kind : Type 0 where
  namespace network_policy resource_quota limit_range pod service config_map deployment ingress
        service_account role role_binding :
      Kind

pub record Key : Type 0 where
  pub kind : Kind
  pub namespace : Bytes
  pub name : Bytes

unfoldable pub Kind-discrete : Discrete Kind
Kind-discrete = hlevel

abbrev pub kind_beq : Kind → Kind → Bool
kind_beq i j = elim (Kind-discrete i j) [ yes _ ↦ true | no _ ↦ false ]

unfoldable pub key_beq : Key → Key → Bool
key_beq i j = kind_beq i.kind j.kind && i.namespace == j.namespace && i.name == j.name

eq_of_parts : (i j : Key) → i.kind ≡ j.kind → i.namespace ≡ j.namespace → i.name ≡ j.name → i ≡ j
eq_of_parts i j a b c = λ t. record { kind = a t; namespace = b t; name = c t }

pub key_beq_iff : (i j : Key) → (key_beq i j ≡ true) ↔ (i ≡ j)
unfolding key_beq
key_beq_iff i j =
    ground
      (arith, bytes_beq_iff i.namespace j.namespace, bytes_beq_iff i.name j.name, eq_of_parts i j)

instance abbrev pub key_eq : Comparable Key
key_eq = record { equal = key_beq; equal_iff = key_beq_iff }

-- The labels that an object must have, and for a label the values that it must not have (`NotIn`).
pub record Selector : Type 0 where
  pub match_labels : Labels
  pub not_in : List (Bytes × List Bytes)

pub data Protocol : Type 0 where
  tcp udp : Protocol

-- A peer of a network policy's rule: `none` where a selector or block is not set.
pub record Peer : Type 0 where
  pub namespace_selector : Option Selector
  pub pod_selector : Option Selector
  pub ip_block : Option Bytes

pub record PolicyRule : Type 0 where
  pub peers : List Peer
  pub ports : List (Protocol × ℕ)

pub record NetworkPolicySpec : Type 0 where
  pub pod_selector : Selector
  pub is_ingress : Bool
  pub is_egress : Bool
  pub ingress : List PolicyRule
  pub egress : List PolicyRule

pub record ContainerSecurity : Type 0 where
  pub allow_privilege_escalation : Bool
  pub read_only_root_filesystem : Bool
  pub dropped_capabilities : List Bytes

pub record Container : Type 0 where
  pub name : Bytes
  pub image : Bytes
  pub pull_policy : Bytes
  pub command : List Bytes
  pub env : List (Bytes × Bytes)
  pub ports : List ℕ
  pub read_only_mounts : List (Bytes × Bytes)
  pub security : Option ContainerSecurity
  pub readiness_probe : Option (Bytes × ℕ)
  pub requests : Labels
  pub limits : Labels

-- `none` where a pointer is nil.
pub record PodSpec : Type 0 where
  pub restart_policy : Bytes
  pub host_users : Option Bool
  pub host_network : Bool
  pub host_pid : Bool
  pub host_ipc : Bool
  pub automount_token : Option Bool
  pub service_account : Bytes
  pub run_as_non_root : Option Bool
  pub run_as_user : Option ℕ
  pub seccomp_profile : Bytes
  pub containers : List Container
  pub config_map_volumes : List (Bytes × Bytes)

-- A container's state: waiting or terminated with a reason, or neither.
pub data ContainerState : Type 0 where
  waiting terminated : Bytes → ContainerState
  neither : ContainerState

-- A pod's conditions by type; the flag is `ConditionTrue`.
pub record PodStatus : Type 0 where
  pub phase : Bytes
  pub container_states : List ContainerState
  pub conditions : List (Bytes × Bool)

pub record RoleRule : Type 0 where
  pub api_groups : List Bytes
  pub resources : List Bytes
  pub verbs : List Bytes

pub record ServicePort : Type 0 where
  pub name : Bytes
  pub port : ℕ
  pub target_port : ℕ

-- `tls` says that there is one entry for TLS, an empty one.
pub record IngressSpec : Type 0 where
  pub tls : Bool
  pub class_name : Option Bytes
  pub path_prefix : Bytes
  pub backend : Bytes
  pub backend_port : ℕ

pub data Content : Type 0 where
  namespace_content : Content
  network_policy_content : NetworkPolicySpec → Content
  resource_quota_content : Labels → Content
  -- the defaults, the default requests and the maxima of a container
  limit_range_content : Labels → Labels → Labels → Content
  pod_content : PodSpec → PodStatus → Content
  -- the cluster IP, the selector and the ports
  service_content : Bytes → Labels → List ServicePort → Content
  config_map_content : Labels → Content
  -- the replicas, the selector, the labels and the specification of the pods
  deployment_content : ℕ → Labels → Labels → PodSpec → Content
  ingress_content : IngressSpec → Content
  service_account_content : Content
  role_content : List RoleRule → Content
  -- the service account with its namespace, and the role
  role_binding_content : Bytes → Bytes → Bytes → Content

pub record Object : Type 0 where
  pub namespace : Bytes
  pub name : Bytes
  pub labels : Labels
  pub annotations : Labels
  pub deleting : Bool
  pub content : Content

abbrev pub kind_of : Content → Kind
kind_of namespace_content = namespace
kind_of (network_policy_content _) = network_policy
kind_of (resource_quota_content _) = resource_quota
kind_of (limit_range_content _ _ _) = limit_range
kind_of (pod_content _ _) = pod
kind_of (service_content _ _ _) = service
kind_of (config_map_content _) = config_map
kind_of (deployment_content _ _ _ _) = deployment
kind_of (ingress_content _) = ingress
kind_of service_account_content = service_account
kind_of (role_content _) = role
kind_of (role_binding_content _ _ _) = role_binding

abbrev pub key_of : Object → Key
key_of o = record { kind = kind_of o.content; namespace = o.namespace; name = o.name }

-- An endpoint slice's addresses and ports: `none` where a pointer is nil.
pub record Endpoint : Type 0 where
  pub ready : Option Bool
  pub addresses : List Bytes

pub record EndpointSlice : Type 0 where
  pub endpoints : List Endpoint
  pub ports : List (Option ℕ)
