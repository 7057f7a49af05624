-- ===== src/Operator/Objects/Policies.antt =====
-- The network policies of a lab: what its pods may reach and be reached from
-- (services/labenv-operator/internal/controller: labenvironment_controller.go, relay.go, grader.go).
use rootenv.Common.{ℕ, true, Option, none, some, List, [], ◌∷◌, ◌++◌, Bytes, codes}
use rootenv.Operator.Kube.{
  Labels, Object, Selector, Protocol, tcp, udp, Peer, PolicyRule, Content, network_policy_content,
}
use rootenv.Operator.Objects.{plain, label, app, labelled}
use rootenv.Operator.RelayConfig.{default_ingress_controller_ns}

abbrev in_namespace : Bytes → Selector
in_namespace ns = labelled (label "kubernetes.io/metadata.name" ns ∷ [])

abbrev not_relay_exec : Selector
not_relay_exec = record { match_labels = []; not_in = (codes "app", codes "relay-exec" ∷ []) ∷ [] }

abbrev peer : Option Selector → Option Selector → Peer
peer ns pods = record { namespace_selector = ns; pod_selector = pods; ip_block = none }

abbrev block : Bytes → Peer
block cidr = record { namespace_selector = none; pod_selector = none; ip_block = some cidr }

abbrev rule : Peer → List (Protocol × ℕ) → PolicyRule
rule p ports = record { peers = p ∷ []; ports = ports }

abbrev policy : Labels → List PolicyRule → List PolicyRule → Content
policy pods ingress egress = network_policy_content (record {
  pod_selector = labelled pods;
  is_ingress = true;
  is_egress = true;
  ingress = ingress;
  egress = egress;
})

abbrev pub deny_all_policy : Bytes → Object
deny_all_policy ns = plain ns "networkpolicy-denyall" (
    policy []
      (rule (peer (some (in_namespace ns)) none) []
        ∷ rule (peer (some (in_namespace default_ingress_controller_ns)) none) ((tcp, 8080) ∷ [])
        ∷ [])
      (rule (peer (some (in_namespace ns)) (some not_relay_exec)) []
        ∷ rule
            (peer (some (in_namespace (codes "kube-system")))
              (some (labelled (label "k8s-app" (codes "kube-dns") ∷ []))))
            ((udp, 53) ∷ (tcp, 53) ∷ [])
        ∷ []))

-- Of the ingress controller's namespace, the lab's, and the API server's address and port.
abbrev pub relay_policy : Bytes → Bytes → Bytes → ℕ → Object
relay_policy controller ns api_ip api_port = plain ns "networkpolicy-relay-exec" (
    policy (app "relay-exec")
      (rule (peer (some (in_namespace controller)) none) ((tcp, 8080) ∷ []) ∷ [])
      (rule (peer (some (in_namespace ns)) (some not_relay_exec)) []
        ∷ rule (block (api_ip ++ codes "/32")) ((tcp, api_port) ∷ [])
        ∷ rule (peer none (some (labelled (app "relay-grader")))) ((tcp, 8081) ∷ [])
        ∷ []))

abbrev pub grader_policy : Bytes → Bytes → Object
grader_policy controller ns = plain ns "networkpolicy-relay-grader" (
    policy (app "relay-grader")
      (rule (peer (some (in_namespace controller)) none) ((tcp, 8080) ∷ [])
        ∷ rule (peer none (some (labelled (app "relay-exec")))) ((tcp, 8081) ∷ [])
        ∷ [])
      [])
