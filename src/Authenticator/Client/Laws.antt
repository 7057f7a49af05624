-- ===== src/Authenticator/Client/Laws.antt =====
-- What a success of the two calls says of PocketBase's replies.
use rootenv.Common.{◌≡◌, ◌≢◌, some, [], ◌++◌, Bytes, bytes_beq_iff, arith}
use rootenv.Authenticator.Client.{
  Api, Reply, failed, replied, Client, ok, refresh_path, attempt_url, get, post, user_reply,
  attempt_reply, validate_token, get_attempt,
}

module _ (api : Api) where
  open api use {Body, send, user_id_of, owner_of}

  user_reply_lem :
      (r : Reply Body) (user : Bytes)
      → user_reply api r ≡ ok user
      → (body : Body) × (r ≡ replied 200 body) × (user_id_of body ≡ some user) × (user ≢ [])
  unfolding user_reply
  user_reply_lem failed user h = cc
  user_reply_lem (replied status body) user h =
      (body, ground arith, ground arith, ground (arith, bytes_beq_iff user []))

  attempt_reply_lem :
      (r : Reply Body) (owner : Bytes)
      → attempt_reply api r ≡ ok owner
      → (body : Body) × (r ≡ replied 200 body) × (owner_of body ≡ some owner)
  unfolding attempt_reply
  attempt_reply_lem failed owner h = cc
  attempt_reply_lem (replied status body) owner h = (body, ground arith, ground arith)

  -- A token is validated only if PocketBase answers its refresh with 200 and an ID that is not
  -- empty.
  pub validate_token_lem :
      (c : Client) (token user : Bytes)
      → validate_token api c token ≡ ok user
      → (body : Body) × (send post (c.base_url ++ refresh_path) token ≡ replied 200 body)
        × (user_id_of body ≡ some user)
        × (user ≢ [])
  unfolding validate_token
  validate_token_lem c token user h = user_reply_lem _ user h

  pub get_attempt_lem :
      (c : Client) (token attempt owner : Bytes)
      → get_attempt api c token attempt ≡ ok owner
      → (body : Body) × (send get (attempt_url c attempt) token ≡ replied 200 body)
        × (owner_of body ≡ some owner)
  unfolding get_attempt
  get_attempt_lem c token attempt owner h = attempt_reply_lem _ owner h
