-- ===== src/Authenticator/Handler.antt =====
-- services/relay-authenticator/internal/auth/handler.go: `Handler.ServeHTTP`, over any PocketBase
-- client.
pub mod Laws
use rootenv.Common.{
  ℕ, Bool, not, Option, none, some, String, [], Bytes, bytes_eq, ◌==◌, if◌then◌else◌,
}
use rootenv.Authenticator.Client.{Result, ok, err}
use rootenv.Authenticator.Path.{parse_attempt_id}

pub record PocketBase : Type 0 where
  pub validate_token : Bytes → Result
  pub get_attempt : Bytes → Bytes → Result

-- The `pb_auth` cookie, and `X-Forwarded-Uri`, "" where it is missing.
pub record Request : Type 0 where
  pub cookie : Option Bytes
  pub forwarded_uri : Bytes

-- A refusal has its status and message; a grant is a 200 with `X-User-Id` and `X-Attempt-Id`.
pub data Response : Type 0 where
  refuse : ℕ → String → Response
  grant : Bytes → Bytes → Response

module _ (pb : PocketBase) where
  -- Behind `ValidateToken`.
  pub check_owner : Bytes → Bytes → Bytes → Result → Response
  check_owner token attempt user err = refuse 403 "forbidden"
  check_owner token attempt user (ok owner) =
      if not (owner == user) then refuse 403 "forbidden" else grant user attempt

  pub check_user : Bytes → Bytes → Result → Response
  check_user token attempt err = refuse 401 "unauthorized"
  check_user token attempt (ok user) = check_owner token attempt user (pb.get_attempt token attempt)

  pub check_attempt : Bytes → Option Bytes → Response
  check_attempt token none = refuse 400 "cannot parse attempt ID from X-Forwarded-Uri"
  check_attempt token (some attempt) = check_user token attempt (pb.validate_token token)

  pub check_cookie : Option Bytes → Bytes → Response
  check_cookie none uri = refuse 401 "missing pb_auth cookie"
  check_cookie (some token) uri =
      if uri == []
      then refuse 400 "missing X-Forwarded-Uri"
      else check_attempt token (parse_attempt_id uri)

  unfoldable pub serve_http : Request → Response
  unfolding check_cookie check_attempt check_user check_owner
  serve_http r = check_cookie r.cookie r.forwarded_uri
