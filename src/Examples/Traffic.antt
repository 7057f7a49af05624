-- ===== src/Examples/Traffic.antt =====
-- Who reaches the pods of a lab, and whom they reach.
use rootenv.Common.Dict
use rootenv.Common.{
  ◌≡◌, refl, Bool, true, false, any, ne_of_beq, [], ◌∷◌, ◌++◌, List, Bytes, bytes_eq, bytes_beq,
  codes, ◌==◌,
}
use rootenv.Examples.Lab as Lab
use rootenv.Operator.Kube.{Labels, Object, tcp, udp}
use rootenv.Operator.Objects.Lab as Objects
use rootenv.Operator.Traffic.{
  Pod, inside, outside, incoming, outgoing, IsIngress, IsContained, lab_policies, passes,
  passes-IsIngress, passes-IsContained,
}

abbrev ns : Bytes
ns = codes "rootenv-lab-a7"

abbrev web : Labels
web = (Objects.lab_pod Lab.env ns Lab.asset (codes "ubuntu")).labels

abbrev policies : List Object
policies = lab_policies (codes "traefik") ns (codes "10.0.0.1") 6443

abbrev traefik : Pod
traefik = record { namespace = codes "traefik"; labels = [] }

abbrev dns : Pod
dns = record { namespace = codes "kube-system"; labels = (codes "k8s-app", codes "kube-dns") ∷ [] }

abbrev relay : Pod
relay = record { namespace = ns; labels = (codes "app", codes "relay-exec") ∷ [] }

abbrev pod : Pod
pod = record { namespace = ns; labels = web }

abbrev covers : Bytes → Bytes → Bool
covers cidr address = cidr == address ++ codes "/32"

to_relay : passes covers incoming policies relay (inside traefik) tcp 8080 ≡ true
unfolding passes any Dict.lookup bytes_beq
to_relay = refl

-- The policy for all pods lets kube-system in at port 8080, not the configured namespace.
to_web :
    (passes covers incoming policies pod (inside traefik) tcp 8080 ≡ false)
    × (passes covers incoming policies pod (inside dns) tcp 8080 ≡ true)
unfolding passes any Dict.lookup bytes_beq
to_web = (refl, refl)

from_relay :
    (passes covers outgoing policies relay (outside (codes "10.0.0.1")) tcp 6443 ≡ true)
    × (passes covers outgoing policies relay (outside (codes "8.8.8.8")) tcp 443 ≡ false)
unfolding passes any Dict.lookup bytes_beq
from_relay = (refl, refl)

to_dns : passes covers outgoing policies pod (inside dns) udp 53 ≡ true
unfolding passes any Dict.lookup bytes_beq
to_dns = refl

passes-IsIngress_example : IsIngress (codes "traefik") (inside traefik) tcp 8080
unfolding bytes_beq
passes-IsIngress_example =
    passes-IsIngress covers (codes "traefik") ns (codes "10.0.0.1") 6443 relay.labels tcp 8080
      (inside traefik) (ne_of_beq traefik.namespace ns refl) to_relay

passes-IsContained_example : IsContained ns (inside dns) 53
unfolding Dict.lookup bytes_beq
passes-IsContained_example =
    passes-IsContained covers (codes "traefik") ns (codes "10.0.0.1") 6443 web udp 53 (inside dns)
      refl to_dns
