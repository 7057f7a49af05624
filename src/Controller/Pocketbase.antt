-- ===== src/Controller/Pocketbase.antt =====
-- services/attempt-controller/internal/pocketbase/pbclient.go: the controller's client of
-- PocketBase, which signs in again when its token is refused.
pub mod Attempts
pub mod Laws
use rootenv.Common.{
  ℕ, Bool, true, false, not, ◌⊎◌, inl, inr, Option, none, some, List, [], ◌∷◌, ◌++◌, Bytes,
  bytes_eq, nat_eq, codes, ◌==◌, if◌then◌else◌,
}
use rootenv.Text.{trim_right, is_slash}

pub data Method : Type 0 where
  get_method post_method patch_method : Method

-- What a body is the JSON of. `P` is a patch.
pub data Body (P : Type 0) : Type 0 where
  no_body : Body P
  sign_in : Bytes → Bytes → Body P
  patch_body : P → Body P
  subscription : Bytes → List Bytes → Body P

-- `authorization` is `none` where the header is not set.
pub record Request (P : Type 0) : Type 0 where
  pub method : Method
  pub url : Bytes
  pub authorization : Option Bytes
  pub body : Body P

pub record Response : Type 0 where
  pub status : ℕ
  pub body : Bytes

pub record Client : Type 0 where
  pub base_url : Bytes
  pub email : Bytes
  pub password : Bytes
  pub token : Bytes

-- The client, the answers that it will get (`none` for an error of the HTTP client, as when there
-- is no answer any more), and the requests that it has made, oldest first. It is the session of one
-- goroutine: a token that another one stores between two of its requests is not modelled.
pub record Session (P : Type 0) : Type 0 where
  pub client : Client
  pub replies : List (Option Response)
  pub requests : List (Request P)

pub data Failure : Type 0 where
  request_failed bad_body empty_token not_found : Failure
  bad_status : ℕ → Failure
  reauth_failed : Failure → Failure

unfoldable pub decoded {ℓ} : {A : Type ℓ} → Option A → Failure ⊎ A
decoded none = inl bad_body
decoded (some a) = inr a

module _ {A : Type 0} (decode : Bytes → Option A) where
  unfoldable pub read_reply : Response → Failure ⊎ A
  read_reply r =
      if r.status == 404
      then inl not_found
      else if not (r.status == 200)
      then inl (bad_status r.status)
      else decoded (decode r.body)

abbrev pub attempt_path : Bytes → Bytes
attempt_path id = codes "/api/collections/attempts/records/" ++ id

unfoldable pub patch_status : Response → Option Failure
patch_status r = if r.status == 200 then none else some (bad_status r.status)

module _ {P : Type 0} where
  unfoldable pub send : Request P → Session P → Option Response × Session P
  send q s = elim s.replies [
    | [] ↦ (none, record s { requests = s.requests ++ q ∷ [] })
    | r ∷ rs ↦ (r, record s { replies = rs; requests = s.requests ++ q ∷ [] })
  ]

  abbrev pub with_token : Bytes → Session P → Session P
  with_token t s = record s { client = record (s.client) { token = t } }

  -- The token of a reply to a sign-in.
  unfoldable pub accept_token : Option Bytes → Session P → Option Failure × Session P
  accept_token none s = (some bad_body, s)
  accept_token (some t) s = if t == [] then (some empty_token, s) else (none, with_token t s)

  -- `decode_token` stands for the decoder of a sign-in's reply.
  unfoldable pub accept_reply :
      (Bytes → Option Bytes) → Option Response → Session P → Option Failure × Session P
  accept_reply decode_token none s = (some request_failed, s)
  accept_reply decode_token (some r) s =
      if r.status == 200
      then accept_token (decode_token r.body) s
      else (some (bad_status r.status), s)

  abbrev pub sign_in_request : Client → Request P
  sign_in_request c = record {
    method = post_method;
    url = c.base_url ++ codes "/api/collections/users/auth-with-password";
    authorization = none;
    body = sign_in c.email c.password;
  }

  unfoldable pub reauth : (Bytes → Option Bytes) → Session P → Option Failure × Session P
  reauth decode_token s =
      let (r, s') = send (sign_in_request s.client) s in accept_reply decode_token r s'

  abbrev pub get_request : Bytes → Client → Request P
  get_request path c = record {
    method = get_method;
    url = c.base_url ++ path;
    authorization = some c.token;
    body = no_body;
  }

  unfoldable pub do_get : Bytes → Session P → Option Response × Session P
  do_get path s = send (get_request path s.client) s

  module _ {A : Type 0} (decode_token : Bytes → Option Bytes) (decode : Bytes → Option A) where
    unfoldable pub last_reply : Option Response × Session P → (Failure ⊎ A) × Session P
    last_reply (none, s) = (inl request_failed, s)
    last_reply (some r, s) = (read_reply decode r, s)

    -- Behind a new sign-in.
    unfoldable pub get_again : Bytes → Option Failure × Session P → (Failure ⊎ A) × Session P
    get_again path (some f, s) = (inl (reauth_failed f), s)
    get_again path (none, s) = last_reply (do_get path s)

    unfoldable pub first_reply : Bytes → Option Response × Session P → (Failure ⊎ A) × Session P
    first_reply path (none, s) = (inl request_failed, s)
    first_reply path (some r, s) =
        if r.status == 401 then get_again path (reauth decode_token s) else (read_reply decode r, s)

    -- `Client.get`
    unfoldable pub get : Bytes → Session P → (Failure ⊎ A) × Session P
    get path s = first_reply path (do_get path s)

  abbrev pub patch_request : Bytes → P → Client → Request P
  patch_request id patch c = record {
    method = patch_method;
    url = c.base_url ++ attempt_path id;
    authorization = some c.token;
    body = patch_body patch;
  }

  unfoldable pub do_patch : Bytes → P → Session P → Option Response × Session P
  do_patch id patch s = send (patch_request id patch s.client) s

  unfoldable pub patch_last : Option Response × Session P → Option Failure × Session P
  patch_last (none, s) = (some request_failed, s)
  patch_last (some r, s) = (patch_status r, s)

  unfoldable pub patch_again : Bytes → P → Option Failure × Session P → Option Failure × Session P
  patch_again id patch (some f, s) = (some (reauth_failed f), s)
  patch_again id patch (none, s) = patch_last (do_patch id patch s)

  unfoldable pub patch_first :
      (Bytes → Option Bytes) → Bytes → P → Option Response × Session P → Option Failure × Session P
  patch_first decode_token id patch (none, s) = (some request_failed, s)
  patch_first decode_token id patch (some r, s) =
      if r.status == 401 then patch_again id patch (reauth decode_token s) else (patch_status r, s)

  unfoldable pub patch_attempt :
      (Bytes → Option Bytes) → Bytes → P → Session P → Option Failure × Session P
  patch_attempt decode_token id patch s = patch_first decode_token id patch (do_patch id patch s)

  -- `NewClient`
  unfoldable pub new_client :
      (Bytes → Option Bytes)
      → Bytes
      → Bytes
      → Bytes
      → List (Option Response)
      → Option Failure × Session P
  new_client decode_token url email password replies = reauth decode_token (record {
    client = record {
      base_url = trim_right is_slash url;
      email = email;
      password = password;
      token = [];
    };
    replies = replies;
    requests = [];
  })
