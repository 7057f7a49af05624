-- ===== src/Relay/Main/Exec.antt =====
-- services/relay/cmd/relay-exec/main.go: `loadConfig`, and what `main` makes of it.
use rootenv.Common.{
  ℕ, ◌⊎◌, inl, inr, Bool, Option, none, some, List, [], Bytes, bytes_eq, codes, ◌==◌, if◌then◌else◌,
}
use rootenv.Relay.Handler.{Handler}
use rootenv.Relay.Main.{
  LogLevel, log_level, skips_auth, is_missing, origins_of, handler_of, healthcheck,
}

pub record Config : Type 0 where
  pub port : Bytes
  pub namespace : Bytes
  pub attempt_id : Bytes
  pub owner_id : Bytes
  pub grader_addr : Bytes
  pub skip_auth : Bool
  pub allowed_origins : List Bytes
  pub log_level : LogLevel

unfoldable pub load_config : (Bytes → Bytes) → Option Config
load_config getenv =
    let skip_auth = skips_auth getenv in
    let attempt_id = getenv (codes "RELAY_MY_ATTEMPT_ID") in
    let owner_id = getenv (codes "RELAY_MY_OWNER_ID") in
    let namespace = getenv (codes "RELAY_MY_NAMESPACE") in
    let port = getenv (codes "RELAY_LISTEN_PORT") in
    if is_missing skip_auth attempt_id
    then none
    else if is_missing skip_auth owner_id
    then none
    else if namespace == []
    then none
    else some (record {
      port = if port == [] then codes "8080" else port;
      namespace = namespace;
      attempt_id = attempt_id;
      owner_id = owner_id;
      grader_addr = getenv (codes "RELAY_GRADER_ADDR");
      skip_auth = skip_auth;
      allowed_origins = origins_of (getenv (codes "RELAY_ALLOWED_ORIGINS"));
      log_level = log_level getenv;
    })

abbrev pub handler : Config → Handler
handler cfg = handler_of cfg.attempt_id cfg.owner_id cfg.skip_auth cfg.allowed_origins

-- `main` up to its servers: an exit code, or the configuration that it goes on with. `has_execer`
-- says whether `NewKubeExecer` succeeds.
unfoldable pub start : (Bytes → Option ℕ) → List Bytes → (Bytes → Bytes) → Bool → ℕ ⊎ Config
start get args getenv has_execer = elim (healthcheck get args) [
  | some code ↦ inl code
  | none ↦ elim (load_config getenv) [
    | none ↦ inl 1
    | some cfg ↦ if has_execer then inr cfg else inl 1
  ]
]
