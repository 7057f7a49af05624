-- ===== src/Relay/Exec/Session/Ends.antt =====
-- services/relay/exec/backend.go: how a session comes to its end, and what can hold it.
use rootenv.Common.{◌≡◌, Bool, true, false, Option, List, [], ◌∷◌, Bytes, bytes_eq, arith}
use rootenv.Relay.Exec.Backend.{write_chunk}
use rootenv.Relay.Exec.Session.Invariant.{Inv, HasEnded, reached-Inv}
use rootenv.Relay.Exec.Session.{
  Reader, typing, answered, Session, Event, client_takes, client_fails, shell_reads, shell_refuses,
  stdout_closes, copier_goes_on, reader_goes_on, serve_goes_on, new_session, on_output, on_written,
  on_returns, on_closes, on_end, send_size, on_message, on_typed, on_deferred, on_gone, on_serve,
  step, run,
}

-- The steps that are left when `Exec` has returned: its goroutine's, the copying goroutine's, where
-- the write to the client may succeed or fail, and those of `Serve`.
abbrev pub finish : Bool → List Event
finish ok = stdout_closes ∷ client_takes ok ∷ copier_goes_on ∷ serve_goes_on ∷ serve_goes_on ∷ []

finish-answered :
    (f ok : Bool) (s : Session) (e : Option Bytes)
    → Inv s
    → HasEnded e s.shell
    → (run f s (finish ok)).caller ≡ answered e
unfolding run step on_output on_written on_returns on_closes on_end on_serve write_chunk
finish-answered f ok s e v h = ground arith

-- From every point of a session at which `Exec` has returned, five steps of its own goroutines
-- lead `Serve` to return with the error of `Exec`, whether the client takes the chunk that is being
-- written to it or not.
pub run-finish :
    (f ok : Bool) (es : List Event) (e : Option Bytes)
    → HasEnded e (run f new_session es).shell
    → (run f (run f new_session es) (finish ok)).caller ≡ answered e
run-finish f ok es e h = finish-answered f ok (run f new_session es) e (reached-Inv f es) h

abbrev pub IsTyping : Bytes → Reader → Type 0
IsTyping m r = r ≡ typing m

abbrev pub IsOurs : Event → Type 0
IsOurs shell_reads = true ≡ false
IsOurs shell_refuses = true ≡ false
IsOurs e = Unit

abbrev pub AreOurs : List Event → Type 0
AreOurs [] = Unit
AreOurs (e ∷ es) = IsOurs e × AreOurs es

step-IsTyping :
    (f : Bool) (s : Session) (e : Event) (m : Bytes)
    → IsOurs e
    → s.reader ≡ typing m
    → (step f s e).reader ≡ typing m
unfolding step on_output on_written on_returns on_closes on_end send_size on_message on_typed
    on_deferred on_gone on_serve write_chunk
step-IsTyping f s e m o h = ground arith

-- While a message is being written to the shell, no step but the shell's taking or refusing it
-- moves the goroutine that reads the client's messages: not the client's leaving, not the end of
-- `Exec` and not the return of `Serve`.
pub run-IsTyping :
    (f : Bool) (s : Session) (es : List Event) (m : Bytes)
    → AreOurs es
    → s.reader ≡ typing m
    → (run f s es).reader ≡ typing m
unfolding run
run-IsTyping f s [] m o h = h
run-IsTyping f s (e ∷ es) m (o, os) h =
    run-IsTyping f (step f s e) es m os (step-IsTyping f s e m o h)

abbrev pub IsIdle : Reader → Type 0
IsIdle (typing m) = true ≡ false
IsIdle r = Unit

abbrev pub leave : List Event
leave = client_fails ∷ reader_goes_on ∷ reader_goes_on ∷ reader_goes_on ∷ []

leave-gone :
    (f : Bool) (s : Session)
    → Inv s
    → IsIdle s.reader
    → let t = run f s leave in
      (t.cancelled ≡ true) × (t.stdin_closed ≡ true) × (t.resize_closed ≡ true)
unfolding run step on_gone on_deferred
leave-gone f s v h = ground arith

-- From every point of a session at which no message is being written to the shell, the client's
-- leaving and the three deferred calls cancel the context of the session and close the shell's input
-- and the channel of sizes.
pub run-leave :
    (f : Bool) (es : List Event)
    → IsIdle (run f new_session es).reader
    → let t = run f (run f new_session es) leave in
      (t.cancelled ≡ true) × (t.stdin_closed ≡ true) × (t.resize_closed ≡ true)
run-leave f es h = leave-gone f (run f new_session es) (reached-Inv f es) h
