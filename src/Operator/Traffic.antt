-- ===== src/Operator/Traffic.antt =====
-- What the network policies of a lab let in, read as Kubernetes documents NetworkPolicy
-- (services/labenv-operator/internal/controller: the policies of all three files).
use rootenv.Common.Dict
use rootenv.Common.{
  ℕ, ◌≡◌, ◌≢◌, ◌⊎◌, Bool, true, false, not, ◌&&◌, ◌||◌, any, nat_beq, nat_beq_iff, beq_of_ne,
  eq_self, Option, none, some, List, [], ◌∷◌, Bytes, bytes_eq, bytes_beq, bytes_beq_iff, codes,
  ◌==◌, arith,
}
use rootenv.Operator.Kube.{
  Labels, Selector, Protocol, tcp, udp, Peer, PolicyRule, Object, Content, network_policy_content,
}
use rootenv.Operator.Objects.Policies.{deny_all_policy, relay_policy, grader_policy}
use rootenv.Operator.RelayConfig.{default_ingress_controller_ns}

pub record Pod : Type 0 where
  pub namespace : Bytes
  pub labels : Labels

-- The other end of a connection: a pod, or an address outside of the cluster.
pub data Remote : Type 0 where
  inside : Pod → Remote
  outside : Bytes → Remote

pub data Direction : Type 0 where
  incoming outgoing : Direction

abbrev value_is : Option Bytes → Bytes → Bool
value_is none v = false
value_is (some w) v = w == v

abbrev has_all : Labels → Labels → Bool
has_all [] labels = true
has_all ((k, v) ∷ required) labels = value_is (Dict.lookup k labels) v && has_all required labels

abbrev has_none : List (Bytes × List Bytes) → Labels → Bool
has_none [] labels = true
has_none ((k, vs) ∷ banned) labels =
    not (any (value_is (Dict.lookup k labels)) vs) && has_none banned labels

abbrev selects : Selector → Labels → Bool
selects sel labels = has_all sel.match_labels labels && has_none sel.not_in labels

-- A namespace is labelled with its name by Kubernetes; the label cannot be changed.
abbrev namespace_labels : Bytes → Labels
namespace_labels ns = (codes "kubernetes.io/metadata.name", ns) ∷ []

-- Where there is no selector of namespaces, a peer is of the policy's own.
abbrev is_of_namespace : Bytes → Option Selector → Bytes → Bool
is_of_namespace policy_ns none ns = ns == policy_ns
is_of_namespace policy_ns (some sel) ns = selects sel (namespace_labels ns)

abbrev is_selected : Option Selector → Labels → Bool
is_selected none labels = true
is_selected (some sel) labels = selects sel labels

-- A block of addresses is of none of the pods, and a selector of no address. `covers` says whether an
-- address is in a block.
abbrev is_peer : (Bytes → Bytes → Bool) → Bytes → Remote → Peer → Bool
is_peer covers policy_ns (inside pod) peer = elim peer.ip_block [
  | some cidr ↦ false
  | none ↦
      is_of_namespace policy_ns peer.namespace_selector pod.namespace
      && is_selected peer.pod_selector pod.labels
]
is_peer covers policy_ns (outside address) peer = elim peer.ip_block [
  | some cidr ↦ covers cidr address
  | none ↦ false
]

abbrev protocol_beq : Protocol → Protocol → Bool
protocol_beq tcp tcp = true
protocol_beq udp udp = true
protocol_beq _ _ = false

abbrev is_pair : Protocol → ℕ → Protocol × ℕ → Bool
is_pair protocol port (p, n) = protocol_beq protocol p && nat_beq port n

-- No ports are all ports, and no peers are all peers.
abbrev is_port : Protocol → ℕ → List (Protocol × ℕ) → Bool
is_port protocol port [] = true
is_port protocol port (p ∷ ports) = any (is_pair protocol port) (p ∷ ports)

module _ (covers : Bytes → Bytes → Bool) where
  abbrev any_peer : Bytes → Remote → List Peer → Bool
  any_peer policy_ns remote [] = true
  any_peer policy_ns remote (p ∷ peers) = any (is_peer covers policy_ns remote) (p ∷ peers)

  abbrev lets : Bytes → Remote → Protocol → ℕ → PolicyRule → Bool
  lets policy_ns remote protocol port rule =
      any_peer policy_ns remote rule.peers && is_port protocol port rule.ports

  -- Whether a policy is one for a pod's traffic in a direction, and whether it lets it pass.
  abbrev governs : Direction → Content → Labels → Bool
  governs incoming (network_policy_content spec) labels =
      spec.is_ingress && selects spec.pod_selector labels
  governs outgoing (network_policy_content spec) labels =
      spec.is_egress && selects spec.pod_selector labels
  governs _ _ labels = false

  abbrev admits : Direction → Bytes → Content → Remote → Protocol → ℕ → Bool
  admits incoming policy_ns (network_policy_content spec) remote protocol port =
      any (lets policy_ns remote protocol port) spec.ingress
  admits outgoing policy_ns (network_policy_content spec) remote protocol port =
      any (lets policy_ns remote protocol port) spec.egress
  admits _ policy_ns _ remote protocol port = false

  -- The traffic of a pod passes where no policy governs it, or one of those that do lets it.
  unfoldable pub passes : Direction → List Object → Pod → Remote → Protocol → ℕ → Bool
  passes direction policies pod remote protocol port =
      not
        (any (λ o. o.namespace == pod.namespace && governs direction o.content pod.labels) policies)
      || any
          (λ o.
            o.namespace == pod.namespace
            && governs direction o.content pod.labels
            && admits direction o.namespace o.content remote protocol port)
          policies

-- The policies of a lab.
abbrev pub lab_policies : Bytes → Bytes → Bytes → ℕ → List Object
lab_policies controller ns api_ip api_port =
    deny_all_policy ns
    ∷ relay_policy controller ns api_ip api_port
    ∷ grader_policy controller ns
    ∷ []

abbrev pub IsElsewhere : Bytes → Remote → Type 0
IsElsewhere ns (outside address) = Unit
IsElsewhere ns (inside pod) = pod.namespace ≢ ns

-- What may reach a pod of a lab from elsewhere.
abbrev pub IsIngress : Bytes → Remote → Protocol → ℕ → Type 0
IsIngress controller (outside address) protocol port = ⊥
IsIngress controller (inside source) protocol port =
    ((source.namespace ≡ controller) ⊎ (source.namespace ≡ default_ingress_controller_ns))
    × (protocol ≡ tcp)
    × (port ≡ 8080)

-- At most the pods of the namespace, and port 53 of kube-system.
abbrev pub IsContained : Bytes → Remote → ℕ → Type 0
IsContained ns (outside address) port = ⊥
IsContained ns (inside target) port =
    (target.namespace ≡ ns) ⊎ ((target.namespace ≡ codes "kube-system") × (port ≡ 53))

module _ (covers : Bytes → Bytes → Bool) (controller ns api_ip : Bytes) (api_port : ℕ)
    (labels : Labels) (protocol : Protocol) (port : ℕ) where
  abbrev lab_pod : Pod
  lab_pod = record { namespace = ns; labels = labels }

  abbrev policies : List Object
  policies = lab_policies controller ns api_ip api_port

  -- A pod of a lab can be reached from another namespace, another lab's among them, only on TCP port
  -- 8080, and only where that namespace is the configured one of the ingress controller, or
  -- kube-system whatever is configured. From outside of the cluster it cannot be reached.
  pub passes-IsIngress :
      (remote : Remote)
      → IsElsewhere ns remote
      → passes covers incoming policies lab_pod remote protocol port ≡ true
      → IsIngress controller remote protocol port
  unfolding passes any Dict.lookup bytes_beq
  passes-IsIngress (outside address) elsewhere h = ground (arith, h, eq_self ns)
  passes-IsIngress (inside source) elsewhere h = ground (
    arith,
    h,
    eq_self ns,
    beq_of_ne source.namespace ns elsewhere,
    bytes_beq_iff source.namespace controller,
    bytes_beq_iff source.namespace default_ingress_controller_ns,
    nat_beq_iff port 8080,
    nat_beq_iff port 8081,
  )

  -- A pod of a lab that is not its terminal relay reaches at most pods of its own namespace and
  -- port 53 of kube-system: no other lab, no API server, and no address outside of the cluster.
  pub passes-IsContained :
      (remote : Remote)
      → value_is (Dict.lookup (codes "app") labels) (codes "relay-exec") ≡ false
      → passes covers outgoing policies lab_pod remote protocol port ≡ true
      → IsContained ns remote port
  unfolding passes any Dict.lookup bytes_beq
  passes-IsContained (outside address) no_relay h = ground (arith, h, no_relay, eq_self ns)
  passes-IsContained (inside target) no_relay h = ground (
    arith,
    h,
    no_relay,
    eq_self ns,
    bytes_beq_iff target.namespace ns,
    bytes_beq_iff target.namespace (codes "kube-system"),
    nat_beq_iff port 53,
  )
