-- ===== src/Controller/Realtime/Laws.antt =====
-- A connection's stream, from its first line to its last.
use rootenv.Common.{
  ℕ, zero, suc, ◌≤◌, ◌<◌, ◌≢◌, inl, inr, Bool, Bool-cases, Option, none, some, List, [], ◌∷◌, Bytes,
  bytes_beq, length, arith,
}
use rootenv.Controller.Realtime.{
  Frame, read_event, Action, Outcome, ended, out_of_fuel, on_connect, on_event, on_frame, go_on,
  subscribe_attempts,
}
use rootenv.Controller.Realtime.Frames.{
  Message, IsNamed, frame_lines, frame_of, Shorter, read_event-cons,
}

ended-ne : ended ≢ out_of_fuel
ended-ne = λ e. cc

abbrev pub AreNamed : List Message → Type 0
AreNamed [] = Unit
AreNamed (m ∷ ms) = IsNamed m × AreNamed ms

unfoldable pub stream_lines : List Message → List Bytes
stream_lines [] = []
stream_lines (m ∷ ms) = frame_lines m (stream_lines ms)

module _ {R : Type 0} (client_of : Bytes → Option Bytes) (event_of : Bytes → Option (Bytes × R))
    (subscribes : Bytes → Bool) where
  -- Each frame in turn, up to the first that ends the connection.
  unfoldable pub act_on : List Message → List (Action R) × Outcome
  act_on [] = ([], ended)
  act_on (m ∷ ms) =
      go_on client_of event_of subscribes (on_frame client_of event_of subscribes (frame_of m))
        (act_on ms)

  connect-ends :
      (o : Option Bytes) (r : List (Action R) × Outcome)
      → r.1 ≢ out_of_fuel
      → (go_on client_of event_of subscribes (on_connect client_of event_of subscribes o) r).1
        ≢ out_of_fuel
  unfolding on_connect
  connect-ends none r h = λ e. cc
  connect-ends (some id) r h = elim (Bool-cases (subscribes id)) [
    | inl e ↦ rw (e, on_connect) h
    | inr e ↦ rw (e, on_connect) (λ q. cc)
  ]

  event-ends :
      (o : Option (Bytes × R)) (r : List (Action R) × Outcome)
      → r.1 ≢ out_of_fuel
      → (go_on client_of event_of subscribes (on_event client_of event_of subscribes o) r).1
        ≢ out_of_fuel
  unfolding on_event
  event-ends none r h = λ e. cc
  event-ends (some (action, rec)) r h = h

  frame-ends :
      (f : Frame) (r : List (Action R) × Outcome)
      → r.1 ≢ out_of_fuel
      → (go_on client_of event_of subscribes (on_frame client_of event_of subscribes f) r).1
        ≢ out_of_fuel
  unfolding on_frame
  frame-ends f r h =
      ground (arith, h, connect-ends (client_of f.payload) r h, event-ends (event_of f.payload) r h)

  read-ends :
      (o : Option (Frame × List Bytes)) (n : ℕ) (ls : List Bytes)
      → Shorter ls o
      → ((rest : List Bytes)
          → length rest ≤ length ls
          → (subscribe_attempts client_of event_of subscribes n rest).1 ≢ out_of_fuel)
      → (elim o as (λ _. List (Action R) × Outcome) [
        | none ↦ ([], ended)
        | some (f, rest) ↦
            go_on client_of event_of subscribes
              (on_frame client_of event_of subscribes f)
              (subscribe_attempts client_of event_of subscribes n rest)
      ]).1
        ≢ out_of_fuel
  read-ends none n ls s h = λ e. cc
  read-ends (some (f, rest)) n ls s h = frame-ends f _ (h rest s)

  -- Whatever a stream holds, one step more than it has lines is enough for the loop to end.
  pub subscribe_attempts-ends :
      (n : ℕ) (ls : List Bytes)
      → length ls < n
      → (subscribe_attempts client_of event_of subscribes n ls).1 ≢ out_of_fuel
  unfolding subscribe_attempts read_event bytes_beq
  subscribe_attempts-ends zero ls k = absurd (omega arith)
  subscribe_attempts-ends (suc n) [] k = λ e. ended-ne e
  subscribe_attempts-ends (suc n) (l ∷ ls) k =
      read-ends (read_event [] [] (l ∷ ls)) n ls (read_event-cons [] [] l ls)
        (λ rest s. subscribe_attempts-ends n rest (omega arith))
