-- ===== src/Operator/Deployment/Ingress.antt =====
-- services/labenv-operator/internal/controller/relay.go and grader.go: the ingresses of a lab's
-- relays, with the annotations that the operator is configured with.
use rootenv.Common.Dict
use rootenv.Common.{◌≡◌, ◌∙◌, some, [], ◌∷◌, ◌++◌, Bytes, bytes_eq, codes, arith}
use rootenv.Operator.Api.{LabEnvironment}
use rootenv.Operator.Host.{GraderConfig, load_grader_config}
use rootenv.Operator.Kube.{Object}
use rootenv.Operator.Objects.Grader.{grader_ingress}
use rootenv.Operator.Objects.Relay.{relay_ingress}
use rootenv.Operator.RelayConfig.{
  RelayConfig, load_relay_config, middlewares_key, auth_middleware, add_raw, or_default,
}
use rootenv.Operator.RelayConfig.Laws.{AllSpare, add_raw-AllSpare, lookup-first}
use rootenv.Text.{split}

-- The namespace in which the ingress controller is taken to run.
abbrev pub controller_of : (Bytes → Bytes) → Bytes
controller_of getenv =
    or_default (getenv (codes "RELAY_INGRESS_CONTROLLER_NAMESPACE")) (codes "kube-system")

-- An object whose router has the middleware that asks the relay authenticator, and no other.
abbrev pub IsGuarded : Bytes → Object → Type 0
IsGuarded controller o =
    Dict.lookup (codes "traefik.ingress.kubernetes.io/router.middlewares") o.annotations
    ≡ some (controller ++ codes "-relay-auth-middleware@kubernetescrd")

add_raw-IsGuarded :
    (raw v : Bytes)
    → AllSpare middlewares_key (split b',' raw)
    → Dict.lookup middlewares_key (add_raw raw ((middlewares_key, v) ∷ [])) ≡ some v
add_raw-IsGuarded raw v spare =
    add_raw-AllSpare middlewares_key raw ((middlewares_key, v) ∷ []) spare
    ∙ lookup-first middlewares_key v

module _ (getenv : Bytes → Bytes) (c : RelayConfig) (g : GraderConfig) (env : LabEnvironment)
    (ns : Bytes) where
  -- Where both relays are configured and no token of RELAY_INGRESS_ANNOTATIONS sets the middlewares,
  -- the ingress of a lab's terminal relay and that of its grader name the authenticating middleware
  -- of the ingress controller's namespace, and no other.
  pub relay_ingress-IsGuarded :
      load_relay_config getenv ≡ some c
      → load_grader_config getenv ≡ some g
      → AllSpare middlewares_key (split b',' (getenv (codes "RELAY_INGRESS_ANNOTATIONS")))
      → IsGuarded (controller_of getenv) (relay_ingress env ns c)
        × IsGuarded (controller_of getenv) (grader_ingress env ns g)
  unfolding load_relay_config load_grader_config
  relay_ingress-IsGuarded relay grader spare =
      let guarded =
        add_raw-IsGuarded (getenv (codes "RELAY_INGRESS_ANNOTATIONS"))
          (auth_middleware (controller_of getenv)) spare in
      (ground (arith, relay, guarded), ground (arith, grader, guarded))
