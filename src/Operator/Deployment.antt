-- ===== src/Operator/Deployment.antt =====
-- From a LabEnvironment to the relays that serve it: what the pods of the two deployments read from
-- their environments, and whom they then serve.
pub mod Ingress
use mathlib.Core.Path.{subst₂}
use rootenv.Access.{forwarded, serve_http-IsConfirmed}
use rootenv.Authenticator.Client.{Api, Client}
use rootenv.Authenticator.Handler as Authenticator
use rootenv.Authenticator.Handler.Laws.{over, IsConfirmed}
use rootenv.Authenticator.Handler.{grant}
use rootenv.Common.{
  ◌≡◌, ◌≢◌, refl, sym, ap, subst, Bool, true, false, Option, none, some, List, [], ◌∷◌, ◌++◌, Bytes,
  bytes_eq, bytes_beq, beq_of_ne, String, ◌∙◌, ◌⊎◌, codes, arith,
}
use rootenv.Operator.Api.{LabEnvironmentSpec, LabEnvironment}
use rootenv.Operator.Host.{GraderConfig}
use rootenv.Operator.Kube.{Labels, Object, Content, Container, PodSpec, deployment_content}
use rootenv.Operator.Objects.Grader.{grader_deployment}
use rootenv.Operator.Objects.Lab.{namespace_of}
use rootenv.Operator.Objects.Relay.{relay_deployment}
use rootenv.Operator.RelayConfig.{RelayConfig}
use rootenv.Relay.Handler as Relay
use rootenv.Relay.Handler.Laws.{Occurs}
use rootenv.Relay.Handler.{Handler, World, serve}
use rootenv.Relay.Limiter.{ConnLimiter}
use rootenv.Relay.Main.Exec as Exec
use rootenv.Relay.Main.Grader as Grader

-- The variables of the containers of a deployment's pods.
abbrev env_of : List Container → Labels
env_of [] = []
env_of (container ∷ containers) = container.env ++ env_of containers

abbrev variables : Content → Labels
variables (deployment_content _ _ _ spec) = env_of spec.containers
variables _ = []

-- An environment that has the variables of a list, among others.
abbrev pub Has : (Bytes → Bytes) → Labels → Type 0
Has getenv [] = Unit
Has getenv ((k, v) ∷ vars) = (getenv k ≡ v) × Has getenv vars

-- The environment of a pod of a deployment, where its image does not switch the checks off.
abbrev pub IsEnvironment : (Bytes → Bytes) → Object → Type 0
IsEnvironment getenv o =
    Has getenv (variables o.content) × (getenv (codes "RELAY_SKIP_AUTH") ≢ codes "true")

-- Handlers of one lab, with the checks on.
abbrev pub Serves : LabEnvironment → Handler → Type 0
Serves env h = (h.attempt_id ≡ env.name) × (h.owner_id ≡ env.spec.owner_id) × (h.skip_auth ≡ false)

option_of : {A : Type 0} {a b : A} → some a ≡ some b → a ≡ b
option_of e = cc

absent-text : (v w : Bytes) → v ≡ w → w ≢ [] → bytes_beq v [] ≡ false
absent-text v w e ne = beq_of_ne v [] (λ h. ne (sym e ∙ h))

abbrev at : (Bytes → Bytes) → String → Bytes
at getenv name = getenv (codes name)

exec-some :
    (getenv : Bytes → Bytes)
    → bytes_beq (at getenv "RELAY_SKIP_AUTH") (codes "true") ≡ false
    → bytes_beq (at getenv "RELAY_MY_ATTEMPT_ID") [] ≡ false
    → bytes_beq (at getenv "RELAY_MY_OWNER_ID") [] ≡ false
    → bytes_beq (at getenv "RELAY_MY_NAMESPACE") [] ≡ false
    → (c : Exec.Config) × (Exec.load_config getenv ≡ some c)
      × (c.attempt_id ≡ at getenv "RELAY_MY_ATTEMPT_ID")
      × (c.owner_id ≡ at getenv "RELAY_MY_OWNER_ID")
      × (c.skip_auth ≡ false)
unfolding Exec.load_config
exec-some getenv a b c d = rw (a, b, c, d) (_, refl, refl, refl, refl)

grader-some :
    (getenv : Bytes → Bytes)
    → bytes_beq (at getenv "RELAY_SKIP_AUTH") (codes "true") ≡ false
    → bytes_beq (at getenv "RELAY_MY_ATTEMPT_ID") [] ≡ false
    → bytes_beq (at getenv "RELAY_MY_OWNER_ID") [] ≡ false
    → bytes_beq (at getenv "RELAY_MY_NAMESPACE") [] ≡ false
    → bytes_beq (at getenv "RELAY_TASKS_FILE") [] ≡ false
    → (c : Grader.Config) × (Grader.load_config getenv ≡ some c)
      × (c.attempt_id ≡ at getenv "RELAY_MY_ATTEMPT_ID")
      × (c.owner_id ≡ at getenv "RELAY_MY_OWNER_ID")
      × (c.skip_auth ≡ false)
unfolding Grader.load_config
grader-some getenv a b c d e = rw (a, b, c, d, e) (_, refl, refl, refl, refl)

-- The relay of a lab whose name and owner are not empty starts, serves for that lab and its owner,
-- and has its checks on.
pub load_config-exec :
    (getenv : Bytes → Bytes) (env : LabEnvironment) (cfg : RelayConfig)
    → IsEnvironment getenv (relay_deployment env (namespace_of env.name) cfg)
    → env.name ≢ []
    → env.spec.owner_id ≢ []
    → (c : Exec.Config) × (Exec.load_config getenv ≡ some c) × Serves env (Exec.handler c)
load_config-exec getenv env cfg ((ns_is, (attempt_is, (owner_is, _))), checks) named owned =
    let (c, loaded, attempt, owner, on) =
      exec-some getenv (beq_of_ne (at getenv "RELAY_SKIP_AUTH") (codes "true") checks)
        (absent-text _ _ attempt_is named) (absent-text _ _ owner_is owned)
        (absent-text _ _ ns_is (λ e. cc)) in
    (c, loaded, (attempt ∙ attempt_is, owner ∙ owner_is, on))

-- So does its grader.
pub load_config-grader :
    (getenv : Bytes → Bytes) (env : LabEnvironment) (cfg : GraderConfig)
    → IsEnvironment getenv (grader_deployment env (namespace_of env.name) cfg)
    → env.name ≢ []
    → env.spec.owner_id ≢ []
    → (c : Grader.Config) × (Grader.load_config getenv ≡ some c) × Serves env (Grader.handler c)
load_config-grader getenv env cfg ((ns_is, (attempt_is, (owner_is, (file_is, _)))), checks) named
      owned =
    let (c, loaded, attempt, owner, on) =
      grader-some getenv (beq_of_ne (at getenv "RELAY_SKIP_AUTH") (codes "true") checks)
        (absent-text _ _ attempt_is named) (absent-text _ _ owner_is owned)
        (absent-text _ _ ns_is (λ e. cc)) (absent-text _ _ file_is (λ e. cc)) in
    (c, loaded, (attempt ∙ attempt_is, owner ∙ owner_is, on))

-- Where the terminal relay of a lab has the environment that the operator gives its pods, and it
-- serves a request that the authenticator granted, the session is for the owner of the lab, whom
-- PocketBase confirmed, to the token of the request's cookie, as its user and as the owner of the
-- attempt that the lab is named after.
pub serve_http-IsOwner :
    (getenv : Bytes → Bytes) (env : LabEnvironment) (cfg : RelayConfig) (config : Exec.Config)
    → (api : Api) (c : Client) (r : Authenticator.Request) (user attempt : Bytes)
    → (w : World) (l : ConnLimiter) (path asset session_user : Bytes)
    → IsEnvironment getenv (relay_deployment env (namespace_of env.name) cfg)
    → env.name ≢ []
    → env.spec.owner_id ≢ []
    → Exec.load_config getenv ≡ some config
    → Authenticator.serve_http (over api c) r ≡ grant user attempt
    → Occurs
        (serve asset session_user)
        (Relay.serve_http (Exec.handler config) w (forwarded path user attempt) l).0
    → (session_user ≡ env.spec.owner_id) × IsConfirmed api c r env.spec.owner_id env.name
serve_http-IsOwner getenv env cfg config api c r user attempt w l path asset session_user
      environment named owned loaded granted served =
    let (found, found_loaded, (attempt_is, owner_is, checks)) =
      load_config-exec getenv env cfg environment named owned in
    let same = option_of (sym loaded ∙ found_loaded) in
    let (session_is, confirmed) =
      serve_http-IsConfirmed api c r user attempt (Exec.handler config) w l path asset session_user
        granted (ap (λ x. x.skip_auth) same ∙ checks) served in
    (
      session_is ∙ ap (λ x. x.owner_id) same ∙ owner_is,
      subst₂ (IsConfirmed api c r) (ap (λ x. x.owner_id) same ∙ owner_is)
          (ap (λ x. x.attempt_id) same ∙ attempt_is) confirmed,
    )
