-- ===== src/Access.antt =====
-- From the ingress to the backend: Traefik asks the authenticator, copies the two headers of a grant
-- to the request, and routes it to the relay of the attempt, whose handler checks them again.
use mathlib.Core.Path.{subst₂}
use rootenv.Common.{◌≡◌, false, Bytes}
use rootenv.Authenticator.Client.{Api, Client}
use rootenv.Authenticator.Handler as Authenticator
use rootenv.Authenticator.Handler.Laws.{over, IsConfirmed, serve_http-grants}
use rootenv.Authenticator.Handler.{grant}
use rootenv.Relay.Handler as Relay
use rootenv.Relay.Handler.Laws.{Occurs, serve_http-serves}
use rootenv.Relay.Handler.{World, serve}
use rootenv.Relay.Limiter.{ConnLimiter}

-- The request that reaches the relay: the ingress sets the headers from the grant.
abbrev pub forwarded : Bytes → Bytes → Bytes → Relay.Request
forwarded asset user attempt = record {
  asset_name = asset;
  user_header = user;
  attempt_header = attempt;
}

-- Where the authenticator granted a request and a relay with its checks on then serves it, with the
-- headers of the grant, the session is for the user that the relay belongs to, and PocketBase
-- confirmed to the token of the request's cookie that it is that user's, whose ID is not empty, and
-- that this user owns the attempt that the relay belongs to.
pub serve_http-IsConfirmed :
    (api : Api) (c : Client) (r : Authenticator.Request) (user attempt : Bytes) (h : Relay.Handler)
    (w : World) (l : ConnLimiter) (path asset session_user : Bytes)
    → Authenticator.serve_http (over api c) r ≡ grant user attempt
    → h.skip_auth ≡ false
    → Occurs (serve asset session_user) (Relay.serve_http h w (forwarded path user attempt) l).0
    → (session_user ≡ h.owner_id) × IsConfirmed api c r h.owner_id h.attempt_id
serve_http-IsConfirmed api c r user attempt h w l path asset session_user granted checks served =
    let (_, _, attempt_is, user_is, session_is, _, _, _) =
      serve_http-serves h w (forwarded path user attempt) l asset session_user checks served in
    let (confirmed, _) = serve_http-grants api c r user attempt granted in
    (session_is, subst₂ (IsConfirmed api c r) user_is attempt_is confirmed)
