-- ===== src/Controller/Realtime.antt =====
-- services/attempt-controller/internal/pocketbase/realtime.go: the stream of server-sent events. The
-- lines of the stream are those that `bufio.Scanner` gives.
pub mod Frames
pub mod Laws
pub mod Reconnect
use rootenv.Common.{
  ℕ, zero, suc, Bool, true, false, not, ◌&&◌, ◌||◌, Option, none, some, List, [], ◌∷◌, ◌++◌, Bytes,
  bytes_eq, nat_eq, codes, ◌==◌, if◌then◌else◌, length,
}
use rootenv.Text.{trim_space, has_prefix, trim_prefix, join, newline}
use rootenv.Controller.Pocketbase.{
  Client, Request, Response, Session, Failure, request_failed, bad_status, reauth_failed,
  post_method, subscription, send, reauth,
}

-- The cases of the `switch` on a line.
pub data Line : Type 0 where
  blank ignored : Line
  event_line data_line : Bytes → Line

unfoldable pub classify : Bytes → Line
classify line =
    if line == []
    then blank
    else if has_prefix line (codes "event:")
    then event_line (trim_space (trim_prefix line (codes "event:")))
    else if has_prefix line (codes "data:")
    then data_line (trim_prefix (trim_prefix line (codes "data:")) (codes " "))
    else ignored

pub record Frame : Type 0 where
  pub event : Bytes
  pub payload : Bytes

abbrev pub is_empty : Bytes → List Bytes → Bool
is_empty event [] = event == []
is_empty event (d ∷ ds) = false

-- `readSSEEvent`: the frame, and the lines behind it; `none` where the stream ended.
unfoldable pub read_event : Bytes → List Bytes → List Bytes → Option (Frame × List Bytes)
read_event event ds [] =
    if is_empty event ds
    then none
    else some (record { event = event; payload = join newline ds }, [])
read_event event ds (l ∷ ls) = elim (classify l) [
  | blank ↦ elim (is_empty event ds) [
    | true ↦ read_event event ds ls
    | false ↦ some (record { event = event; payload = join newline ds }, ls)
  ]
  | event_line e ↦ read_event e ds ls
  | data_line d ↦ read_event event (ds ++ d ∷ []) ls
  | ignored ↦ read_event event ds ls
]

-- What the subscription does, `R` being an attempt's record.
pub data Action (R : Type 0) : Type 0 where
  resync : Action R
  handle : Bytes → R → Action R

pub data Outcome : Type 0 where
  ended malformed_connect subscribe_failed malformed_event out_of_fuel : Outcome

-- `client_of` and `event_of` stand for the decoders of the two kinds of payload, and `subscribes`
-- says for which client IDs the subscription succeeds.
module _ {R : Type 0} (client_of : Bytes → Option Bytes) (event_of : Bytes → Option (Bytes × R))
    (subscribes : Bytes → Bool) where
  -- One frame: what is done, and why the loop ends, where it does.
  unfoldable pub on_connect : Option Bytes → Option (Action R) × Option Outcome
  on_connect none = (none, some malformed_connect)
  on_connect (some id) =
      if subscribes id then (some resync, none) else (none, some subscribe_failed)

  unfoldable pub on_event : Option (Bytes × R) → Option (Action R) × Option Outcome
  on_event none = (none, some malformed_event)
  on_event (some (action, r)) = (some (handle action r), none)

  unfoldable pub on_frame : Frame → Option (Action R) × Option Outcome
  on_frame f =
      if f.event == codes "PB_CONNECT"
      then on_connect (client_of f.payload)
      else if not (has_prefix f.event (codes "attempts/"))
      then (none, none)
      else on_event (event_of f.payload)

  abbrev pub before_actions :
      Option (Action R) → List (Action R) × Outcome → List (Action R) × Outcome
  before_actions none r = r
  before_actions (some a) (actions, o) = (a ∷ actions, o)

  abbrev pub go_on :
      Option (Action R) × Option Outcome → List (Action R) × Outcome → List (Action R) × Outcome
  go_on (a, none) rest = before_actions a rest
  go_on (a, some o) rest = before_actions a ([], o)

  -- The loop of `SubscribeAttempts`, on the lines of one connection.
  unfoldable pub subscribe_attempts : ℕ → List Bytes → List (Action R) × Outcome
  subscribe_attempts zero ls = ([], out_of_fuel)
  subscribe_attempts (suc n) ls = elim (read_event [] [] ls) [
    | none ↦ ([], ended)
    | some (f, rest) ↦ go_on (on_frame f) (subscribe_attempts n rest)
  ]

unfoldable pub subscribe_status : Response → Option Failure
subscribe_status r =
    if not (r.status == 200) && not (r.status == 204) then some (bad_status r.status) else none

module _ {P : Type 0} (decode_token : Bytes → Option Bytes) where
  abbrev pub subscribe_request : Bytes → List Bytes → Client → Request P
  subscribe_request id topics c = record {
    method = post_method;
    url = c.base_url ++ codes "/api/realtime";
    authorization = some c.token;
    body = subscription id topics;
  }

  unfoldable pub do_subscribe : Bytes → List Bytes → Session P → Option Response × Session P
  do_subscribe id topics s = send (subscribe_request id topics s.client) s

  unfoldable pub subscribe_last : Option Response × Session P → Option Failure × Session P
  subscribe_last (none, s) = (some request_failed, s)
  subscribe_last (some r, s) = (subscribe_status r, s)

  unfoldable pub subscribe_again :
      Bytes → List Bytes → Option Failure × Session P → Option Failure × Session P
  subscribe_again id topics (some f, s) = (some (reauth_failed f), s)
  subscribe_again id topics (none, s) = subscribe_last (do_subscribe id topics s)

  unfoldable pub subscribe_first :
      Bytes → List Bytes → Option Response × Session P → Option Failure × Session P
  subscribe_first id topics (none, s) = (some request_failed, s)
  subscribe_first id topics (some r, s) =
      if r.status == 401
      then subscribe_again id topics (reauth decode_token s)
      else (subscribe_status r, s)

  -- `subscribeRealtime`
  unfoldable pub subscribe_realtime : Bytes → List Bytes → Session P → Option Failure × Session P
  subscribe_realtime id topics s = subscribe_first id topics (do_subscribe id topics s)
