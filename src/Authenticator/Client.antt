-- ===== src/Authenticator/Client.antt =====
-- services/relay-authenticator/internal/pbclient/client.go: the calls on PocketBase. The HTTP client
-- and the decoder of a reply's JSON are parameters.
pub mod Laws
use rootenv.Common.{
  ℕ, ◌+◌, ◌-◌, ◌/◌, ◌%◌, Bool, true, false, ◌&&◌, ◌||◌, String, Option, none, some, List, [], ◌∷◌,
  ◌++◌, Bytes, bytes_eq, nat_eq, codes, ◌==◌, leb, ltb, if◌then◌else◌,
}
use rootenv.Text.{trim_right, is_slash}

pub data Method : Type 0 where
  get post : Method

-- What the HTTP client answers: an error, or a status and a body.
pub data Reply (Body : Type 0) : Type 0 where
  failed : Reply Body
  replied : ℕ → Body → Reply Body

-- `send` builds the request with its token and does it; the decoders read `record.id` of a user
-- reply and `user` of an attempt reply, "" where the field is missing, `none` on malformed JSON.
pub record Api : Type 1 where
  pub Body : Type 0
  pub send : Method → Bytes → Bytes → Reply Body
  pub user_id_of : Body → Option Bytes
  pub owner_of : Body → Option Bytes

pub record Client : Type 0 where
  pub base_url : Bytes

unfoldable pub new : Bytes → Client
new url = record { base_url = trim_right is_slash url }

pub data Result : Type 0 where
  ok : Bytes → Result
  err : Result

abbrev pub refresh_path : Bytes
refresh_path = codes "/api/collections/users/auth-refresh"

abbrev pub attempts_path : Bytes
attempts_path = codes "/api/collections/attempts/records/"

-- The bytes that `url.PathEscape` leaves as they are: letters, digits and these marks.
unfoldable pub is_unreserved : ℕ → Bool
is_unreserved c =
    (leb b'a' c && leb c b'z')
    || (leb b'A' c && leb c b'Z')
    || (leb b'0' c && leb c b'9')
    || c == b'-'
    || c == b'_'
    || c == b'.'
    || c == b'~'
    || c == b'$'
    || c == b'&'
    || c == b'+'
    || c == b'='
    || c == b':'
    || c == b'@'

unfoldable pub hex_digit : ℕ → ℕ
hex_digit n = if ltb n 10 then b'0' + n else b'A' + (n - 10)

unfoldable pub escape_byte : ℕ → Bytes
escape_byte c =
    if is_unreserved c then c ∷ [] else b'%' ∷ hex_digit (c / 16) ∷ hex_digit (c % 16) ∷ []

-- `url.PathEscape`
unfoldable pub path_escape : Bytes → Bytes
path_escape [] = []
path_escape (c ∷ cs) = escape_byte c ++ path_escape cs

abbrev pub attempt_url : Client → Bytes → Bytes
attempt_url c attempt = c.base_url ++ (attempts_path ++ path_escape attempt)

abbrev decoded : Option Bytes → Result
decoded none = err
decoded (some s) = ok s

abbrev decoded_user : Option Bytes → Result
decoded_user none = err
decoded_user (some id) = if id == [] then err else ok id

module _ (api : Api) where
  open api use {Body, send, user_id_of, owner_of}

  pub user_reply : Reply Body → Result
  user_reply failed = err
  user_reply (replied status body) =
      if status == 401 || status == 403
      then err
      else if status == 200
      then decoded_user (user_id_of body)
      else err

  -- `ValidateToken`
  unfoldable pub validate_token : Client → Bytes → Result
  unfolding user_reply
  validate_token c token = user_reply (send post (c.base_url ++ refresh_path) token)

  pub attempt_reply : Reply Body → Result
  attempt_reply failed = err
  attempt_reply (replied status body) =
      if status == 403 || status == 404 || status == 401
      then err
      else if status == 200
      then decoded (owner_of body)
      else err

  -- `GetAttempt`
  unfoldable pub get_attempt : Client → Bytes → Bytes → Result
  unfolding attempt_reply
  get_attempt c token attempt = attempt_reply (send get (attempt_url c attempt) token)
