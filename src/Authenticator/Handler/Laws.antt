-- ===== src/Authenticator/Handler/Laws.antt =====
-- When a request is granted.
use rootenv.Common.{
  ◌≡◌, refl, ap, ◌≢◌, ◌↔◌, Option, none, some, [], ◌∷◌, ◌++◌, Bytes, bytes_beq_iff, arith,
}
use rootenv.Authenticator.Client.Laws.{validate_token_lem, get_attempt_lem}
use rootenv.Authenticator.Client.{
  Api, Client, Result, ok, err, replied, get, post, refresh_path, attempt_url, validate_token,
  get_attempt,
}
use rootenv.Authenticator.Handler.{
  PocketBase, Request, grant, serve_http, check_owner, check_user, check_attempt, check_cookie,
}
use rootenv.Authenticator.Path.Grammar.{IsRelayPath, parse_attempt_id_iff}
use rootenv.Authenticator.Path.{parse_attempt_id}
use rootenv.Text.{slash, trim_prefix, split_n, strip_prefix?}

parse_attempt_id-nil : parse_attempt_id [] ≡ none
unfolding parse_attempt_id split_n strip_prefix?
parse_attempt_id-nil = refl

check_owner_lem :
    (pb : PocketBase) (token attempt user : Bytes) (o : Result) (u a : Bytes)
    → check_owner pb token attempt user o ≡ grant u a
    → (o ≡ ok u) × (user ≡ u) × (attempt ≡ a)
unfolding check_owner
check_owner_lem pb token attempt user err u a h = cc
check_owner_lem pb token attempt user (ok owner) u a h = ground (arith, bytes_beq_iff owner user)

check_user_lem :
    (pb : PocketBase) (token attempt : Bytes) (v : Result) (u a : Bytes)
    → check_user pb token attempt v ≡ grant u a
    → (v ≡ ok u) × (pb.get_attempt token attempt ≡ ok u) × (attempt ≡ a)
unfolding check_user
check_user_lem pb token attempt err u a h = cc
check_user_lem pb token attempt (ok user) u a h =
    let (owned, user_is, same) =
      check_owner_lem pb token attempt user (pb.get_attempt token attempt) u a h in
    (ap ok user_is, owned, same)

check_attempt_lem :
    (pb : PocketBase) (token : Bytes) (id : Option Bytes) (u a : Bytes)
    → check_attempt pb token id ≡ grant u a
    → (id ≡ some a) × (pb.validate_token token ≡ ok u) × (pb.get_attempt token a ≡ ok u)
unfolding check_attempt
check_attempt_lem pb token none u a h = cc
check_attempt_lem pb token (some id) u a h =
    let (valid, owned, same) = check_user_lem pb token id (pb.validate_token token) u a h in
    (ap some same, valid, rw same at owned)

check_cookie_lem :
    (pb : PocketBase) (cookie : Option Bytes) (uri u a : Bytes)
    → check_cookie pb cookie uri ≡ grant u a
    → (token : Bytes) × (cookie ≡ some token)
      × (parse_attempt_id uri ≡ some a)
      × (pb.validate_token token ≡ ok u)
      × (pb.get_attempt token a ≡ ok u)
unfolding check_cookie
check_cookie_lem pb none uri u a h = cc
check_cookie_lem pb (some token) uri u a h =
    let passed : check_attempt pb token (parse_attempt_id uri) ≡ grant u a = ground arith in
    let (parsed, valid, owned) = check_attempt_lem pb token (parse_attempt_id uri) u a passed in
    (token, refl, parsed, valid, owned)

granted :
    (pb : PocketBase) (token uri u a : Bytes)
    → parse_attempt_id uri ≡ some a
    → pb.validate_token token ≡ ok u
    → pb.get_attempt token a ≡ ok u
    → check_cookie pb (some token) uri ≡ grant u a
unfolding check_cookie check_attempt check_user check_owner
granted pb token uri u a parsed valid owned =
    ground (arith, parse_attempt_id-nil, bytes_beq_iff uri [], bytes_beq_iff u u)

-- The request carries a token of user `u`, who owns attempt `a`, by PocketBase's word.
abbrev pub IsGrantable : PocketBase → Request → Bytes → Bytes → Type 0
IsGrantable pb r u a =
    (token : Bytes) × (r.cookie ≡ some token)
    × IsRelayPath a (trim_prefix r.forwarded_uri (slash ∷ []))
    × (pb.validate_token token ≡ ok u)
    × (pb.get_attempt token a ≡ ok u)

-- A request is granted, as user `u` for attempt `a`, exactly if it carries a token that PocketBase
-- validates as `u`'s, its forwarded URI names attempt `a`, and PocketBase gives `u` as the owner of
-- that attempt to the same token.
pub serve_http_iff :
    (pb : PocketBase) (r : Request) (u a : Bytes)
    → (serve_http pb r ≡ grant u a) ↔ IsGrantable pb r u a
unfolding serve_http
serve_http_iff pb r u a = (
  λ h.
      let (token, has, parsed, valid, owned) = check_cookie_lem pb r.cookie r.forwarded_uri u a h in
      (token, has, (parse_attempt_id_iff r.forwarded_uri a).0 parsed, valid, owned),
  λ (token, has, path, valid, owned). rw has (
      granted pb token r.forwarded_uri u a ((parse_attempt_id_iff r.forwarded_uri a).1 path) valid
        owned),
)

-- The handler over the HTTP client.
abbrev pub over : Api → Client → PocketBase
over api c = record { validate_token = validate_token api c; get_attempt = get_attempt api c }

-- PocketBase's two replies to the request's token.
abbrev pub IsConfirmed : Api → Client → Request → Bytes → Bytes → Type 0
IsConfirmed api c r u a =
    (token : Bytes) × (user_body attempt_body : api.Body) × (r.cookie ≡ some token)
    × (api.send post (c.base_url ++ refresh_path) token ≡ replied 200 user_body)
    × (api.user_id_of user_body ≡ some u)
    × (u ≢ [])
    × (api.send get (attempt_url c a) token ≡ replied 200 attempt_body)
    × (api.owner_of attempt_body ≡ some u)

-- With PocketBase behind it: a grant means that PocketBase answered the refresh of the cookie's
-- token with 200 and the user's ID, which is not empty, and the read of the attempt that the URI
-- names with 200 and the same user as its owner.
pub serve_http-grants :
    (api : Api) (c : Client) (r : Request) (u a : Bytes)
    → serve_http (over api c) r ≡ grant u a
    → IsConfirmed api c r u a × IsRelayPath a (trim_prefix r.forwarded_uri (slash ∷ []))
serve_http-grants api c r u a h =
    let (token, has, path, valid, owned) = (serve_http_iff (over api c) r u a).0 h in
    let (b, sent, read, ne) = validate_token_lem api c token u valid in
    let (b', sent', read') = get_attempt_lem api c token a u owned in
    ((token, b, b', has, sent, read, ne, sent', read'), path)
