-- ===== src/Authenticator/Main.antt =====
-- services/relay-authenticator/cmd/main.go: the settings, and what the service answers.
use rootenv.Common.{
  ℕ, ◌≡◌, ◌≢◌, ◌↔◌, ◌⊎◌, inl, inr, Bool, not, Option, none, some, List, [], ◌∷◌, ◌++◌, Bytes,
  bytes_eq, bytes_beq_iff, nat_eq, codes, ◌==◌, if◌then◌else◌, arith,
}
use rootenv.Authenticator.Client.{new}
use rootenv.Authenticator.Handler
use rootenv.Authenticator.Handler.{PocketBase, Request, refuse, grant, serve_http}

pub record Settings : Type 0 where
  pub port : Bytes
  pub pb_url : Bytes
  pub tls_verify : Bool

-- `getenv` stands for `os.Getenv`, which gives "" for a variable that is not set.
unfoldable pub port_of : (Bytes → Bytes) → Bytes
port_of getenv =
    let port = getenv (codes "INGAUTH_PORT") in if port == [] then codes "8080" else port

-- `--healthcheck`: the exit code, where `get`, which stands for `http.Get`, gives a status or an
-- error.
unfoldable pub healthcheck : (Bytes → Option ℕ) → Bytes → List Bytes → Option ℕ
healthcheck get port (program ∷ flag ∷ []) =
    if flag == codes "--healthcheck"
    then some (elim (get (codes "http://localhost:" ++ port ++ codes "/healthz")) [
      | none ↦ 1
      | some status ↦ if status == 200 then 0 else 1
    ])
    else none
healthcheck get port args = none

unfoldable pub settings_of : (Bytes → Bytes) → ℕ ⊎ Settings
settings_of getenv =
    let url = getenv (codes "RELAUTH_POCKETBASE_URL") in
    if url == []
    then inl 1
    else inr (record {
      port = port_of getenv;
      pb_url = url;
      tls_verify = not (getenv (codes "INGAUTH_POCKETBASE_TLS_VERIFY") == codes "false");
    })

-- `main` up to its server: an exit code, or the settings that it goes on with.
unfoldable pub start : (Bytes → Option ℕ) → List Bytes → (Bytes → Bytes) → ℕ ⊎ Settings
start get args getenv = elim (healthcheck get (port_of getenv) args) [
  | some code ↦ inl code
  | none ↦ settings_of getenv
]

abbrev pub health_url : Settings → Bytes
health_url s = (new s.pb_url).base_url ++ codes "/api/health"

-- The status of `/readyz`; `get` stands for the client's `Get`, with its timeout.
unfoldable pub readyz : (Bytes → Option ℕ) → Settings → ℕ
readyz get s = elim (get (health_url s)) [
  | none ↦ 503
  | some status ↦ if not (status == 200) then 503 else 200
]

-- The handlers of the service by path; `none` where there is none. A status stands for an answer
-- without headers.
unfoldable pub answer :
    PocketBase → (Bytes → Option ℕ) → Settings → Bytes → Request → Option (ℕ ⊎ Handler.Response)
answer pb get s path r =
    if path == codes "/auth"
    then some (inr (serve_http pb r))
    else if path == codes "/healthz"
    then some (inl 200)
    else if path == codes "/readyz"
    then some (inl (readyz get s))
    else none

-- The service starts exactly if it is not run for its health check and PocketBase's URL is set; it
-- is then that URL's, listens on the port that is set or else on 8080, and certificates are verified
-- unless that is set to "false".
pub start_iff :
    (get : Bytes → Option ℕ) (args : List Bytes) (getenv : Bytes → Bytes) (s : Settings)
    → (start get args getenv ≡ inr s) ↔ (
        (healthcheck get (port_of getenv) args ≡ none)
        × (s.pb_url ≢ [])
        × (s ≡ record {
          port = port_of getenv;
          pb_url = getenv (codes "RELAUTH_POCKETBASE_URL");
          tls_verify = not (getenv (codes "INGAUTH_POCKETBASE_TLS_VERIFY") == codes "false");
        }))
unfolding start settings_of
start_iff get args getenv s =
    ground (arith, bytes_beq_iff (getenv (codes "RELAUTH_POCKETBASE_URL")) [])

-- /readyz answers with 200 exactly if PocketBase answers so on its health path.
pub readyz_iff :
    (get : Bytes → Option ℕ) (s : Settings) → (readyz get s ≡ 200) ↔ (get (health_url s) ≡ some 200)
unfolding readyz
readyz_iff get s = ground arith
