-- ===== src/Relay/Exec/Session.antt =====
-- services/relay/exec/backend.go: `Backend.Serve`, its three goroutines and itself, as the steps
-- each of them takes.
pub mod Invariant
pub mod Output
pub mod Ends
use rootenv.Common.{
  Bool, true, false, Option, none, some, List, [], ◌∷◌, ◌++◌, Bytes, bytes_eq, ◌==◌, if◌then◌else◌,
}
use rootenv.Relay.Exec.Backend.{
  Sent, write_chunk, resize_of, TerminalSize, Input, new_input, offer, write_stdin,
}

-- The goroutine that runs `Exec`: in the call, behind it with its error in `execDone`, and with
-- `stdoutW` closed too.
pub data Shell : Type 0 where
  running : Shell
  returned closed : Option Bytes → Shell

-- The goroutine that copies the output: in `Read`, in the write of a chunk to the client, and
-- ended, by the end of the output or by a write that failed.
pub data Copier : Type 0 where
  waiting stopped : Copier
  sending broken : Bytes → Copier

-- The goroutine that reads the client's messages: in `Read`, in the write of a message to
-- `stdinW`, before each of its three deferred calls in the order they run, and ended.
pub data Reader : Type 0 where
  listening closing_resize closing_stdin cancelling gone : Reader
  typing : Bytes → Reader

-- `Serve` itself: before `<-execDone`, before `<-stdoutDone`, and behind its return.
pub data Caller : Type 0 where
  serving : Caller
  draining answered : Option Bytes → Caller

-- `panicked` is set by a second close of `resizeCh`, or a send on it when it is closed. `written`
-- and `typed` record what the shell wrote and what the client sent that is not a size; `refused`
-- what the shell's end of the pipe did not take.
pub record Session : Type 0 where
  pub shell : Shell
  pub copier : Copier
  pub reader : Reader
  pub caller : Caller
  pub sent : Sent
  pub input : Input
  pub cancelled : Bool
  pub resize_closed : Bool
  pub stdin_closed : Bool
  pub panicked : Bool
  pub written : List Bytes
  pub typed : List Bytes
  pub refused : List Bytes

-- What may come next. A write of the shell that is larger than the buffer is several `shell_writes`.
pub data Event : Type 0 where
  shell_writes : Bytes → Event
  shell_returns : Option Bytes → Event
  client_takes : Bool → Event
  client_sends : Bytes → Event
  client_fails shell_reads shell_refuses size_taken : Event
  stdout_closes copier_goes_on reader_goes_on serve_goes_on : Event

abbrev pub new_session : Session
new_session = record {
  shell = running;
  copier = waiting;
  reader = listening;
  caller = serving;
  sent = record { to_client = []; to_forwarder = [] };
  input = new_input;
  cancelled = false;
  resize_closed = false;
  stdin_closed = false;
  panicked = false;
  written = [];
  typed = [];
  refused = [];
}

-- A write on the pipe waits for the copying goroutine's `Read`, and fails once `stdoutW` is closed.
unfoldable pub on_output : Bytes → Shell → Copier → Session → Session
on_output c (closed e) k s = s
on_output c sh waiting s =
    if c == [] then s else record s { copier = sending c; written = s.written ++ c ∷ [] }
on_output c sh k s = s

-- `conn.Write` returns.
unfoldable pub on_written : Bool → Bool → Copier → Session → Session
on_written has_forwarder ok (sending c) s =
    let (sent', more) =
      write_chunk has_forwarder (record { content = c; written = ok; failed = false }) s.sent in
    record s { sent = sent'; copier = if more then waiting else broken c }
on_written has_forwarder ok k s = s

unfoldable pub on_returns : Option Bytes → Shell → Session → Session
on_returns e running s = record s { shell = returned e }
on_returns e sh s = s

unfoldable pub on_closes : Shell → Session → Session
on_closes (returned e) s = record s { shell = closed e }
on_closes sh s = s

-- `stdoutR.Read` reports the end of the output where `stdoutW` is closed.
unfoldable pub on_end : Shell → Copier → Session → Session
on_end (closed e) waiting s = record s { copier = stopped }
on_end sh k s = s

-- The `select` with a default: a size is dropped where the channel is full.
unfoldable pub send_size : TerminalSize → Session → Session
send_size size s =
    if s.resize_closed
    then record s { panicked = true }
    else record s { input = offer size s.input }

unfoldable pub on_message : Bytes → Reader → Session → Session
on_message m listening s = elim (resize_of m) [
  | some size ↦ send_size size s
  | none ↦ record s { reader = typing m; typed = s.typed ++ m ∷ [] }
]
on_message m r s = s

-- `stdinW.Write` returns.
unfoldable pub on_typed : Bool → Reader → Session → Session
on_typed ok (typing m) s = record s {
  input = write_stdin ok m s.input;
  reader = if ok then listening else closing_resize;
  refused = if ok then s.refused else s.refused ++ m ∷ [];
}
on_typed ok r s = s

-- The deferred calls of the reading goroutine, the last one first.
unfoldable pub on_deferred : Reader → Session → Session
on_deferred closing_resize s =
    if s.resize_closed
    then record s { panicked = true }
    else record s { resize_closed = true; reader = closing_stdin }
on_deferred closing_stdin s = record s { stdin_closed = true; reader = cancelling }
on_deferred cancelling s = record s { cancelled = true; reader = gone }
on_deferred r s = s

unfoldable pub on_gone : Reader → Session → Session
on_gone listening s = record s { reader = closing_resize }
on_gone r s = s

-- `<-execDone`, whose channel has room for the error, and `<-stdoutDone`; the return cancels.
unfoldable pub on_serve : Caller → Shell → Copier → Session → Session
on_serve serving (returned e) k s = record s { caller = draining e }
on_serve serving (closed e) k s = record s { caller = draining e }
on_serve (draining e) sh stopped s = record s { caller = answered e; cancelled = true }
on_serve (draining e) sh (broken c) s = record s { caller = answered e; cancelled = true }
on_serve c sh k s = s

-- One step; an event that cannot come yet changes nothing.
unfoldable pub step : Bool → Session → Event → Session
step has_forwarder s (shell_writes c) = on_output c s.shell s.copier s
step has_forwarder s (shell_returns e) = on_returns e s.shell s
step has_forwarder s (client_takes ok) = on_written has_forwarder ok s.copier s
step has_forwarder s (client_sends m) = on_message m s.reader s
step has_forwarder s client_fails = on_gone s.reader s
step has_forwarder s shell_reads = on_typed true s.reader s
step has_forwarder s shell_refuses = on_typed false s.reader s
step has_forwarder s size_taken = record s { input = record s.input { resize = none } }
step has_forwarder s stdout_closes = on_closes s.shell s
step has_forwarder s copier_goes_on = on_end s.shell s.copier s
step has_forwarder s reader_goes_on = on_deferred s.reader s
step has_forwarder s serve_goes_on = on_serve s.caller s.shell s.copier s

unfoldable pub run : Bool → Session → List Event → Session
run has_forwarder s [] = s
run has_forwarder s (e ∷ es) = run has_forwarder (step has_forwarder s e) es
