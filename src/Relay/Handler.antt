-- ===== src/Relay/Handler.antt =====
-- services/relay/pkg/relaybase/handler.go: `Handler.ServeHTTP`. What the websocket library and the
-- backend answer is in `World`; the calls that the handler makes on them are the events.
pub mod Laws
use rootenv.Common.{
  ℕ, Bool, true, false, not, String, Option, none, some, List, [], ◌∷◌, Bytes, bytes_eq, codes,
  ◌==◌, nat_eq, if◌then◌else◌,
}
use rootenv.Relay.Limiter.{ConnLimiter, acquire, release}
use rootenv.Text.{trim, is_slash}

pub record Handler : Type 0 where
  pub attempt_id : Bytes
  pub owner_id : Bytes
  pub skip_auth : Bool
  pub allowed_origins : List Bytes
  pub auth_timeout : ℕ  -- milliseconds
  pub has_wait_group : Bool

-- `r.PathValue("assetName")` and the two headers, "" where they are missing.
pub record Request : Type 0 where
  pub asset_name : Bytes
  pub user_header : Bytes
  pub attempt_header : Bytes

pub record AcceptOptions : Type 0 where
  pub origin_patterns : List Bytes
  pub insecure_skip_verify : Bool

-- Whether the upgrade is accepted, whether a first message comes in time, and what the other
-- connections do to the limiter while the backend serves this one.
pub record World : Type 0 where
  pub accept : AcceptOptions → Bool
  pub read_within : ℕ → Bool
  pub others : ConnLimiter → ConnLimiter

pub data Status : Type 0 where
  policy_violation normal_closure : Status

pub data Event : Type 0 where
  close : Status → String → Event
  serve : Bytes → Bytes → Event
  wait_add wait_done : Event

abbrev pub anonymous : Bytes
anonymous = codes "anonymous"

abbrev or_anonymous : Bytes → Bytes
or_anonymous s = if s == [] then anonymous else s

-- The user ID to serve, `none` where the headers are refused.
unfoldable pub identify : Handler → Request → Option Bytes
identify h r =
    if h.skip_auth
    then some (or_anonymous r.user_header)
    else if not (r.attempt_header == h.attempt_id)
    then none
    else if not (r.user_header == h.owner_id)
    then none
    else if r.user_header == []
    then none
    else some r.user_header

abbrev pub accept_options : Handler → AcceptOptions
accept_options h = elim h.allowed_origins [
  | [] ↦ record { origin_patterns = []; insecure_skip_verify = true }
  | o ∷ os ↦ record { origin_patterns = o ∷ os; insecure_skip_verify = false }
]

abbrev pub timeout_of : Handler → ℕ
timeout_of h = if h.auth_timeout == 0 then 10000 else h.auth_timeout

-- Behind `Acquire`: the deferred calls run last in, first out.
session : Handler → Bytes → Bytes → List Event
session h asset user =
    let body = serve asset user ∷ close normal_closure "" ∷ [] in
    if h.has_wait_group
    then wait_add ∷ serve asset user ∷ close normal_closure "" ∷ wait_done ∷ []
    else body

serve_as : Handler → World → Bytes → Bytes → ConnLimiter → List Event × ConnLimiter
unfolding session
serve_as h w asset user l =
    let (l', taken) = acquire user l in
    if taken
    then (session h asset user, release user (w.others l'))
    else (close policy_violation "too many connections" ∷ [], l')

unfoldable pub serve_http : Handler → World → Request → ConnLimiter → List Event × ConnLimiter
unfolding serve_as
serve_http h w r l =
    if not (w.accept (accept_options h))
    then ([], l)
    else if not (w.read_within (timeout_of h))
    then (close policy_violation "unauthorized" ∷ [], l)
    else elim (identify h r) [
      | none ↦ (close policy_violation "unauthorized" ∷ [], l)
      | some user ↦ serve_as h w (trim is_slash r.asset_name) user l
    ]
