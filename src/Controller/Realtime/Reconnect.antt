-- ===== src/Controller/Realtime/Reconnect.antt =====
-- services/attempt-controller/internal/pocketbase/realtime.go: `RunAttemptSubscription`, one
-- connection after the other until the context is cancelled.
use rootenv.Common.{
  suc, ◌≡◌, refl, sym, ap, ◌∙◌, Bool, false, Option, List, [], ◌∷◌, ◌++◌, length, Bytes,
  if◌then◌else◌,
}
use rootenv.Controller.Realtime.{Action, subscribe_attempts}
use mathlib.Core.List.{append_assoc}

-- One round of the loop: whether the request was answered with 200, the lines of the stream, the client
-- IDs whose subscription succeeds, and whether the context is cancelled before the connection has
-- ended, or while the loop waits to connect again.
pub record Round : Type 0 where
  pub accepted : Bool
  pub lines : List Bytes
  pub subscribes : Bytes → Bool
  pub cancelled : Bool
  pub cancelled_waiting : Bool

module _ {R : Type 0} (client_of : Bytes → Option Bytes)
    (event_of : Bytes → Option (Bytes × R)) where
  -- What a connection comes to; its error is only logged. The fuel is enough for every stream.
  abbrev pub connection : Round → List (Action R)
  connection r =
      if r.accepted
      then (subscribe_attempts client_of event_of r.subscribes (suc (length r.lines)) r.lines).0
      else []

  unfoldable pub run_attempt_subscription : List Round → List (Action R)
  run_attempt_subscription [] = []
  run_attempt_subscription (r ∷ rounds) =
      let rest = run_attempt_subscription rounds in
      connection r ++ (if r.cancelled then [] else if r.cancelled_waiting then [] else rest)

  abbrev pub AreLost : List Round → Type 0
  AreLost [] = Unit
  AreLost (r ∷ rounds) = (r.cancelled ≡ false) × (r.cancelled_waiting ≡ false) × AreLost rounds

  unfoldable pub connections : List Round → List (Action R)
  connections [] = []
  connections (r ∷ rounds) = connection r ++ connections rounds

  -- However the connections before ended, as long as the context is not cancelled, all that they
  -- brought is acted on, in order, and the loop goes on with the next one.
  pub run_attempt_subscription-AreLost :
      (before after : List Round)
      → AreLost before
      → run_attempt_subscription (before ++ after)
        ≡ connections before ++ run_attempt_subscription after
  unfolding run_attempt_subscription connections
  run_attempt_subscription-AreLost [] after h = refl
  run_attempt_subscription-AreLost (r ∷ before) after (a, b, h) =
      rw (a, b)
        (ap (λ l. connection r ++ l) (run_attempt_subscription-AreLost before after h)
          ∙ sym (append_assoc (connection r) (connections before) (run_attempt_subscription after)))
