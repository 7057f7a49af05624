-- ===== src/Operator/Ensure/Endpoint.antt =====
-- `apiServerEndpoint` of services/labenv-operator/internal/controller/relay.go: the address and
-- port in the first endpoint slice that has them.
use rootenv.Common.{ℕ, Bool, true, Option, none, some, List, [], ◌∷◌, Bytes, if◌then◌else◌}
use rootenv.Operator.Action.{Result, err, call_failed, no_endpoint, or_error}
use rootenv.Operator.Kube.{Endpoint, EndpointSlice}

abbrev pub or_next {ℓ} : {A : Type ℓ} → Option A → Option A → Option A
or_next none next = next
or_next (some a) next = some a

unfoldable pub first_port : List (Option ℕ) → Option ℕ
first_port [] = none
first_port (p ∷ ps) = or_next p (first_port ps)

abbrev pub with_port : Bytes → Option ℕ → Option (Bytes × ℕ)
with_port address none = none
with_port address (some port) = some (address, port)

unfoldable pub in_addresses : List (Option ℕ) → List Bytes → Option (Bytes × ℕ)
in_addresses ports [] = none
in_addresses ports (address ∷ rest) =
    or_next (with_port address (first_port ports)) (in_addresses ports rest)

-- A readiness that is not set counts as ready.
abbrev pub is_ready : Option Bool → Bool
is_ready none = true
is_ready (some b) = b

unfoldable pub in_endpoints : List (Option ℕ) → List Endpoint → Option (Bytes × ℕ)
in_endpoints ports [] = none
in_endpoints ports (ep ∷ rest) =
    let later = in_endpoints ports rest in
    if is_ready ep.ready then or_next (in_addresses ports ep.addresses) later else later

unfoldable pub first_endpoint : List EndpointSlice → Option (Bytes × ℕ)
first_endpoint [] = none
first_endpoint (slice ∷ rest) =
    or_next (in_endpoints slice.ports slice.endpoints) (first_endpoint rest)

abbrev pub endpoint_of : Option (List EndpointSlice) → Result (Bytes × ℕ)
endpoint_of none = err call_failed
endpoint_of (some slices) = or_error (first_endpoint slices) no_endpoint
