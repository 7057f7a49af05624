-- ===== src/Relay/Exec/Session/Invariant.antt =====
-- services/relay/exec/backend.go: what holds of a session after any steps.
use rootenv.Common.{◌≡◌, refl, Bool, true, false, Option, List, [], ◌∷◌, Bytes, bytes_eq, arith}
use rootenv.Relay.Exec.Backend.{write_chunk}
use rootenv.Relay.Exec.Session.{
  Shell, running, returned, closed, Copier, stopped, broken, Reader, closing_stdin, cancelling,
  gone, Caller, serving, draining, answered, Session, Event, new_session, on_output, on_written,
  on_returns, on_closes, on_end, send_size, on_message, on_typed, on_deferred, on_gone, on_serve,
  step, run,
}

-- What the reading goroutine has closed where it stands.
abbrev pub IsClosedFor : Reader → Bool → Bool → Bool → Type 0
IsClosedFor gone resize stdin cancelled = (resize ≡ true) × (stdin ≡ true) × (cancelled ≡ true)
IsClosedFor cancelling resize stdin cancelled = (resize ≡ true) × (stdin ≡ true)
IsClosedFor closing_stdin resize stdin cancelled = (resize ≡ true) × (stdin ≡ false)
IsClosedFor r resize stdin cancelled = (resize ≡ false) × (stdin ≡ false)

abbrev pub HasEnded : Option Bytes → Shell → Type 0
HasEnded e running = (true ≡ false)
HasEnded e (returned e') = e' ≡ e
HasEnded e (closed e') = e' ≡ e

abbrev pub IsOver : Copier → Shell → Type 0
IsOver stopped (closed e) = Unit
IsOver (broken c) sh = Unit
IsOver k sh = (true ≡ false)

-- What `Serve` waited for where it stands.
abbrev pub IsBehind : Caller → Shell → Copier → Bool → Type 0
IsBehind serving sh k cancelled = Unit
IsBehind (draining e) sh k cancelled = HasEnded e sh
IsBehind (answered e) sh k cancelled = HasEnded e sh × IsOver k sh × (cancelled ≡ true)

-- The output ends only behind the close of `stdoutW`.
abbrev EndsLast : Copier → Shell → Type 0
EndsLast stopped sh = IsOver stopped sh
EndsLast k sh = Unit

pub record Inv (s : Session) : Type 0 where
  pub calm : s.panicked ≡ false
  pub closes : IsClosedFor s.reader s.resize_closed s.stdin_closed s.cancelled
  pub behind : IsBehind s.caller s.shell s.copier s.cancelled
  pub last : EndsLast s.copier s.shell

step-Inv : (f : Bool) (s : Session) (e : Event) → Inv s → Inv (step f s e)
unfolding step on_output on_written on_returns on_closes on_end send_size on_message on_typed
    on_deferred on_gone on_serve write_chunk
step-Inv f s e v = ground arith

run-Inv : (f : Bool) (s : Session) (es : List Event) → Inv s → Inv (run f s es)
unfolding run
run-Inv f s [] v = v
run-Inv f s (e ∷ es) v = run-Inv f (step f s e) es (step-Inv f s e v)

pub reached-Inv : (f : Bool) (es : List Event) → Inv (run f new_session es)
reached-Inv f es =
    run-Inv f new_session es (record { calm = refl; closes = (refl, refl); behind = tt; last = tt })

-- Whatever the shell and the client do and however the goroutines are scheduled, a session neither
-- closes its channel of sizes twice nor sends on it once it is closed. Once `Serve` has returned, the
-- error it returned is that of `Exec`, which has returned too, the copying of the output has ended,
-- and the session's context is cancelled; it is so too once the goroutine that reads the client's
-- messages has ended, which has then closed the channel and the shell's input.
pub run-answered :
    (f : Bool) (es : List Event)
    → let s = run f new_session es in
      (s.panicked ≡ false)
      × IsBehind s.caller s.shell s.copier s.cancelled
      × IsClosedFor s.reader s.resize_closed s.stdin_closed s.cancelled
run-answered f es = let v = reached-Inv f es in (v.calm, v.behind, v.closes)
