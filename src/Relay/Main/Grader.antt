-- ===== src/Relay/Main/Grader.antt =====
-- services/relay/cmd/relay-grader/main.go: `loadConfig`, and what `main` makes of it.
use rootenv.Common.{
  ℕ, ◌⊎◌, inl, inr, ◌++◌, Bool, Option, none, some, List, [], Bytes, bytes_eq, codes, ◌==◌,
  if◌then◌else◌,
}
use rootenv.Relay.Handler.{Handler}
use rootenv.Relay.Main.{
  LogLevel, log_level, skips_auth, is_missing, origins_of, handler_of, healthcheck,
}

pub record Config : Type 0 where
  pub port : Bytes
  pub internal_port : Bytes
  pub namespace : Bytes
  pub attempt_id : Bytes
  pub owner_id : Bytes
  pub tasks_file : Bytes
  pub skip_auth : Bool
  pub allowed_origins : List Bytes
  pub log_level : LogLevel

unfoldable pub load_config : (Bytes → Bytes) → Option Config
load_config getenv =
    let skip_auth = skips_auth getenv in
    let attempt_id = getenv (codes "RELAY_MY_ATTEMPT_ID") in
    let owner_id = getenv (codes "RELAY_MY_OWNER_ID") in
    let namespace = getenv (codes "RELAY_MY_NAMESPACE") in
    let tasks_file = getenv (codes "RELAY_TASKS_FILE") in
    let port = getenv (codes "RELAY_LISTEN_PORT") in
    let internal_port = getenv (codes "RELAY_GRADER_INTERNAL_PORT") in
    if is_missing skip_auth attempt_id
    then none
    else if is_missing skip_auth owner_id
    then none
    else if namespace == []
    then none
    else if tasks_file == []
    then none
    else some (record {
      port = if port == [] then codes "8080" else port;
      internal_port = if internal_port == [] then codes "8081" else internal_port;
      namespace = namespace;
      attempt_id = attempt_id;
      owner_id = owner_id;
      tasks_file = tasks_file;
      skip_auth = skip_auth;
      allowed_origins = origins_of (getenv (codes "RELAY_ALLOWED_ORIGINS"));
      log_level = log_level getenv;
    })

abbrev pub handler : Config → Handler
handler cfg = handler_of cfg.attempt_id cfg.owner_id cfg.skip_auth cfg.allowed_origins

-- `main` up to its backend: an exit code, or the configuration and the tasks that it goes on with.
-- `load` stands for `LoadTasks`.
unfoldable pub start :
    {T : Type 0}
    → (Bytes → Option ℕ)
    → List Bytes
    → (Bytes → Bytes)
    → (Bytes → Option T)
    → ℕ ⊎ (Config × T)
start get args getenv load = elim (healthcheck get args) [
  | some code ↦ inl code
  | none ↦ elim (load_config getenv) [
    | none ↦ inl 1
    | some cfg ↦ elim (load cfg.tasks_file) [ none ↦ inl 1 | some tasks ↦ inr (cfg, tasks) ]
  ]
]

-- The internal listener: an exit code, or the address that it listens on, where `listens` says whether
-- it can be.
unfoldable pub listen : (Bytes → Bool) → Config → ℕ ⊎ Bytes
listen listens cfg =
    let address = codes ":" ++ cfg.internal_port in if listens address then inr address else inl 1
