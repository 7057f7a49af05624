-- ===== src/Relay/Exec/Session/Output.antt =====
-- services/relay/exec/backend.go: what a session passes on, in both directions.
use rootenv.Common.{
  ◌≡◌, refl, Bool, false, List, [], ◌∷◌, ◌++◌, Bytes, bytes_eq, ◌==◌, if◌then◌else◌, arith,
}
use mathlib.Core.List.{append_assoc, append-nil}
use rootenv.Relay.Exec.Backend.{offer, write_chunk, write_stdin}
use rootenv.Relay.Exec.Session.{
  Copier, sending, broken, Reader, listening, typing, Session, Event, shell_writes, shell_returns,
  client_takes, client_sends, client_fails, shell_reads, shell_refuses, size_taken, stdout_closes,
  copier_goes_on, reader_goes_on, serve_goes_on, new_session, on_output, on_written, on_returns,
  on_closes, on_end, send_size, on_message, on_typed, on_deferred, on_gone, on_serve, step, run,
}

-- The chunk that is being written to the client, or whose write failed.
abbrev pub in_flight : Copier → List Bytes
in_flight (sending c) = c ∷ []
in_flight (broken c) = c ∷ []
in_flight k = []

-- The message that is being written to the shell.
abbrev pub in_hand : Reader → List Bytes
in_hand (typing m) = m ∷ []
in_hand r = []

abbrev IsGoing : Reader → List Bytes → Type 0
IsGoing listening refused = refused ≡ []
IsGoing (typing m) refused = refused ≡ []
IsGoing r refused = Unit

abbrev IsFilled : Copier → Type 0
IsFilled (sending c) = (c == []) ≡ false
IsFilled k = Unit

record Passes (f : Bool) (s : Session) : Type 0 where
  shown : s.written ≡ s.sent.to_client ++ in_flight s.copier
  filled : IsFilled s.copier
  forwarded : s.sent.to_forwarder ≡ (if f then s.sent.to_client else [])
  taken : s.typed ≡ s.input.stdin ++ in_hand s.reader ++ s.refused
  going : IsGoing s.reader s.refused

ruleset lists = (append_assoc, append-nil)

step-Passes : (f : Bool) (s : Session) (e : Event) → Passes f s → Passes f (step f s e)
unfolding step on_output on_written on_returns on_closes on_end send_size on_message on_typed
    on_deferred on_gone on_serve write_chunk write_stdin offer
step-Passes f s (shell_writes c) v = grind (arith, lists)
step-Passes f s (shell_returns e) v = ground arith
step-Passes f s (client_takes ok) v = grind (arith, lists)
step-Passes f s (client_sends m) v = grind (arith, lists)
step-Passes f s client_fails v = ground arith
step-Passes f s shell_reads v = grind (arith, lists)
step-Passes f s shell_refuses v = grind (arith, lists)
step-Passes f s size_taken v = ground arith
step-Passes f s stdout_closes v = ground arith
step-Passes f s copier_goes_on v = ground arith
step-Passes f s reader_goes_on v = ground arith
step-Passes f s serve_goes_on v = ground arith

run-Passes : (f : Bool) (s : Session) (es : List Event) → Passes f s → Passes f (run f s es)
unfolding run
run-Passes f s [] v = v
run-Passes f s (e ∷ es) v = run-Passes f (step f s e) es (step-Passes f s e v)

reached-Passes : (f : Bool) (es : List Event) → Passes f (run f new_session es)
reached-Passes f es =
    run-Passes f new_session es
      (record { shown = refl; filled = tt; forwarded = ground arith; taken = refl; going = refl })

pub run-passes_on :
    (f : Bool) (es : List Event)
    → let s = run f new_session es in
      (s.written ≡ s.sent.to_client ++ in_flight s.copier)
      × (s.sent.to_forwarder ≡ (if f then s.sent.to_client else []))
      × (s.typed ≡ s.input.stdin ++ in_hand s.reader ++ s.refused)
run-passes_on f es = let v = reached-Passes f es in (v.shown, v.forwarded, v.taken)
