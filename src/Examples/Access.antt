-- ===== src/Examples/Access.antt =====
-- Ann opens a terminal of her own attempt; PocketBase is a small function here.
use rootenv.Access.{forwarded, serve_http-IsConfirmed}
use rootenv.Authenticator.Client.{
  Api, Client, Method, Reply, replied, get, post, path_escape, escape_byte, is_unreserved,
  validate_token, get_attempt,
}
use rootenv.Authenticator.Handler as Authenticator
use rootenv.Authenticator.Handler.Laws.{over, IsGrantable, IsConfirmed, serve_http_iff}
use rootenv.Authenticator.Handler.{grant, refuse}
use rootenv.Authenticator.Path.{parse_attempt_id}
use rootenv.Common.Dict
use rootenv.Common.Int.{pos, ◌+ℤ◌}
use rootenv.Common.{
  ◌≡◌, refl, ◌↔◌, true, false, inl, inr, some, none, [], ◌∷◌, Bytes, codes, bytes_beq, bytes_eq,
  ◌==◌, if◌then◌else◌,
}
use rootenv.Relay.Handler as Relay
use rootenv.Relay.Handler.Laws.{Occurs, closes, balance, serve_http-closes}
use rootenv.Relay.Handler.{
  World, serve, close, wait_add, wait_done, normal_closure, accept_options, timeout_of, identify,
}
use rootenv.Relay.Limiter.{ConnLimiter, acquire, counter_for}
use rootenv.Text.{trim, split_n, strip_prefix?}

abbrev pub ann : Bytes
ann = codes "ann"

abbrev session_uri : Bytes
session_uri = codes "/relay/exec/a7/vm/"

abbrev pub client : Client
client = record { base_url = codes "http://pb" }

-- It knows one token, whose user is Ann, who owns attempt a7.
abbrev pub answer : Method → Bytes → Bytes → Reply Bytes
answer post url token = if token == codes "t" then replied 200 ann else replied 401 []
answer get url token =
    if url == codes "http://pb/api/collections/attempts/records/a7"
    then replied 200 ann
    else replied 404 []

abbrev pub pocket_base : Api
pocket_base = record {
  Body = Bytes;
  send = answer;
  user_id_of = λ b. some b;
  owner_of = λ b. some b;
}

abbrev pub browser : Authenticator.Request
browser = record { cookie = some (codes "t"); forwarded_uri = session_uri }

-- A path with an escape in it, read whole, and four that are not accepted.
paths :
    (parse_attempt_id session_uri ≡ some (codes "a7"))
    × (parse_attempt_id (codes "relay/grade/a7") ≡ some (codes "a7"))
    × (parse_attempt_id (codes "//relay/exec/a7") ≡ none)
    × (parse_attempt_id (codes "/relay/exec//vm") ≡ none)
    × (parse_attempt_id (codes "/x/relay/exec/a7") ≡ none)
    × (parse_attempt_id (codes "/relay/exec") ≡ none)
unfolding parse_attempt_id split_n strip_prefix? bytes_beq
paths = (refl, refl, refl, refl, refl, refl)

pub granted_request :
    Authenticator.serve_http (over pocket_base client) browser ≡ grant ann (codes "a7")
unfolding Authenticator.serve_http parse_attempt_id split_n strip_prefix? bytes_beq validate_token
    get_attempt path_escape escape_byte is_unreserved
granted_request = refl

serve_http_iff_example :
    (Authenticator.serve_http (over pocket_base client) browser ≡ grant ann (codes "a7"))
    ↔ IsGrantable (over pocket_base client) browser ann (codes "a7")
serve_http_iff_example = serve_http_iff (over pocket_base client) browser ann (codes "a7")

abbrev pub relay : Relay.Handler
relay = record {
  attempt_id = codes "a7";
  owner_id = ann;
  skip_auth = false;
  allowed_origins = [];
  auth_timeout = 0;
  has_wait_group = true;
}

abbrev pub quiet : World
quiet = record { accept = λ _. true; read_within = λ _. true; others = λ l. l }

abbrev pub sixteen : ConnLimiter
sixteen = record { max = pos 16; counts = [] }

abbrev pub to_vm : Relay.Request
to_vm = forwarded (codes "vm/") ann (codes "a7")

vm_session :
    (Relay.serve_http relay quiet to_vm sixteen).0
    ≡ wait_add ∷ serve (codes "vm") ann ∷ close normal_closure "" ∷ wait_done ∷ []
unfolding Relay.serve_http identify trim acquire counter_for Dict.lookup Dict.insert Dict.get_or
    bytes_beq ◌+ℤ◌
vm_session = refl

pub vm_served : Occurs (serve (codes "vm") ann) (Relay.serve_http relay quiet to_vm sixteen).0
vm_served = rw vm_session (inr (inl refl))

serve_http-closes_example :
    let es = (Relay.serve_http relay quiet to_vm sixteen).0 in
    (closes es ≡ 1) × ((balance es).0 ≡ (balance es).1)
serve_http-closes_example = serve_http-closes relay quiet to_vm sixteen

serve_http-IsConfirmed_example :
    (ann ≡ relay.owner_id) × IsConfirmed pocket_base client browser relay.owner_id relay.attempt_id
serve_http-IsConfirmed_example =
    serve_http-IsConfirmed pocket_base client browser ann (codes "a7") relay quiet sixteen
      (codes "vm/") (codes "vm") ann granted_request refl vm_served
