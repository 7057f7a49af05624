-- ===== src/Examples/Operator.antt =====
-- The environment of an operator.
use rootenv.Common.Dict
use rootenv.Common.{
  ◌≡◌, refl, some, [], ◌∷◌, ◌++◌, Bytes, bytes_eq, bytes_beq, codes, ◌==◌, if◌then◌else◌,
}
use rootenv.Examples.Lab.{env, lab}
use rootenv.Operator.Deployment.Ingress.{IsGuarded, relay_ingress-IsGuarded}
use rootenv.Operator.Host.{GraderConfig, load_grader_config}
use rootenv.Operator.Objects.Grader.{grader_ingress}
use rootenv.Operator.Objects.Relay.{relay_ingress}
use rootenv.Operator.RelayConfig.{
  RelayConfig, middlewares_key, auth_middleware, entry_of, add_entry, add_tokens, add_raw,
  load_relay_config,
}
use rootenv.Text.{split, cut, trim_space, trim, trim_left, trim_right}

abbrev environment : Bytes → Bytes
environment name =
    if name == codes "RELAY_EXEC_IMAGE"
    then codes "relay:1"
    else if name == codes "RELAY_GRADER_IMAGE"
    then codes "grader:1"
    else if name == codes "RELAY_INGRESS_ANNOTATIONS"
    then codes "a=b,c"
    else []

abbrev config : RelayConfig
config = record {
  image = codes "relay:1";
  ingress_class = [];
  ingress_base_path = codes "/relay/exec";
  ingress_annotations =
      (middlewares_key, auth_middleware (codes "kube-system")) ∷ (codes "a", codes "b") ∷ [];
  ingress_controller_namespace = codes "kube-system";
}

loaded : load_relay_config environment ≡ some config
unfolding load_relay_config add_raw add_tokens add_entry entry_of split cut trim_space trim
    trim_left trim_right bytes_beq Dict.insert
loaded = refl

abbrev grader_config : GraderConfig
grader_config = record {
  image = codes "grader:1";
  ingress_class = [];
  ingress_base_path = codes "/relay/grade";
  ingress_annotations =
      (middlewares_key, auth_middleware (codes "kube-system")) ∷ (codes "a", codes "b") ∷ [];
  ingress_controller_namespace = codes "kube-system";
}

grader_loaded : load_grader_config environment ≡ some grader_config
unfolding load_grader_config add_raw add_tokens add_entry entry_of split cut trim_space trim
    trim_left trim_right bytes_beq Dict.insert
grader_loaded = refl

relay_ingress-IsGuarded_example :
    IsGuarded (codes "kube-system") (relay_ingress env lab config)
    × IsGuarded (codes "kube-system") (grader_ingress env lab grader_config)
unfolding bytes_beq split entry_of cut trim_space trim trim_left trim_right
relay_ingress-IsGuarded_example =
    relay_ingress-IsGuarded environment config grader_config env lab loaded grader_loaded
      ((λ e. cc), (tt, tt))

-- A token may set the middlewares to something else.
overridden :
    Dict.lookup middlewares_key
      (add_raw (middlewares_key ++ codes "=none") ((middlewares_key, auth_middleware []) ∷ []))
    ≡ some (codes "none")
unfolding add_raw add_tokens add_entry entry_of split cut trim_space trim trim_left trim_right
    bytes_beq Dict.insert Dict.lookup
overridden = refl
