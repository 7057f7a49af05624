-- ===== src/Relay/Main.antt =====
-- services/relay/cmd: the configuration of the two relays, read from their environments, the
-- handler that each serves with, and the check of their health.
pub mod Exec
pub mod Grader
pub mod Server
use rootenv.Common.{
  ℕ, nat_eq, Bool, true, false, not, ◌&&◌, ◌||◌, Option, none, some, List, [], ◌∷◌, Bytes, bytes_eq,
  codes, ◌==◌, if◌then◌else◌,
}
use rootenv.Relay.Handler.{Handler}
use rootenv.Text.{trim_space, split}

pub data LogLevel : Type 0 where
  info debug : LogLevel

abbrev pub log_level : (Bytes → Bytes) → LogLevel
log_level getenv = if getenv (codes "LOG_LEVEL") == codes "debug" then debug else info

abbrev pub skips_auth : (Bytes → Bytes) → Bool
skips_auth getenv = getenv (codes "RELAY_SKIP_AUTH") == codes "true"

-- Whether an ID that is needed for the checks is missing.
abbrev pub is_missing : Bool → Bytes → Bool
is_missing skip_auth id = id == [] && not skip_auth

unfoldable pub keep_origins : List Bytes → List Bytes
keep_origins [] = []
keep_origins (o ∷ origins) =
    let rest = keep_origins origins in if trim_space o == [] then rest else trim_space o ∷ rest

abbrev pub origins_of : Bytes → List Bytes
origins_of raw = if raw == [] then [] else keep_origins (split b',' raw)

-- The handler's timeout is left at its zero value.
abbrev pub handler_of : Bytes → Bytes → Bool → List Bytes → Handler
handler_of attempt_id owner_id skip_auth origins = record {
  attempt_id = attempt_id;
  owner_id = owner_id;
  skip_auth = skip_auth;
  allowed_origins = origins;
  auth_timeout = 0;
  has_wait_group = true;
}

-- `--healthcheck`: the exit code, where `get`, which stands for `http.Get`, gives a status or an
-- error.
unfoldable pub healthcheck : (Bytes → Option ℕ) → List Bytes → Option ℕ
healthcheck get (program ∷ flag ∷ []) =
    if flag == codes "--healthcheck"
    then some (elim (get (codes "http://localhost:8080/healthz")) [
      | none ↦ 1
      | some status ↦ if status == 200 then 0 else 1
    ])
    else none
healthcheck get args = none
