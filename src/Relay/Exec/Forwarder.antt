-- ===== src/Relay/Exec/Forwarder.antt =====
-- services/relay/exec/forwarder.go: terminal output on its way to the grader. The forwarder's
-- goroutine is the steps that it makes between the calls of `Send`.
pub mod Laws
use rootenv.Common.{
  ℕ, zero, suc, ◌*◌, Bool, true, false, not, ◌&&◌, ◌||◌, List, [], ◌∷◌, ◌++◌, Bytes, bytes_eq,
  codes, ◌==◌, length, leb, ltb, if◌then◌else◌,
}

abbrev pub forwarder_chan_capacity : ℕ
forwarder_chan_capacity = 256

pub record ForwardMsg : Type 0 where
  pub asset : Bytes
  pub content : Bytes

-- `written` is what reached the connections, oldest first; `backoff` is in milliseconds.
pub record Forwarder : Type 0 where
  pub addr : Bytes
  pub queue : List ForwardMsg
  pub closing : Bool
  pub stopped : Bool
  pub connected : Bool
  pub backoff : ℕ
  pub written : List ForwardMsg

abbrev pub first_backoff : ℕ
first_backoff = 500

abbrev pub max_backoff : ℕ
max_backoff = 10000

-- Without an address no goroutine is started.
unfoldable pub new_forwarder : Bytes → Forwarder
new_forwarder addr = record {
  addr = addr;
  queue = [];
  closing = false;
  stopped = addr == [];
  connected = false;
  backoff = first_backoff;
  written = [];
}

unfoldable pub send : ForwardMsg → Forwarder → Forwarder
send m f =
    if f.addr == []
    then f
    else if ltb (length f.queue) forwarder_chan_capacity
    then record f { queue = f.queue ++ m ∷ [] }
    else f

unfoldable pub close : Forwarder → Forwarder
close f = record f { closing = true }

-- Behind a failed dial.
unfoldable pub next_backoff : ℕ → ℕ
next_backoff b = if ltb b max_backoff then b * 2 else b

-- One round of `run`, up to `drainInto`.
unfoldable pub dial : Bool → Forwarder → Forwarder
dial ok f =
    if f.stopped || f.connected
    then f
    else if f.closing
    then record f { stopped = true }
    else if ok
    then record f { connected = true; backoff = first_backoff }
    else record f { backoff = next_backoff f.backoff }

-- One round of `drainInto` on a message: it is off the queue whether the write succeeds or not.
unfoldable pub write_next : Bool → List ForwardMsg → Forwarder → Forwarder
write_next ok [] f = f
write_next true (m ∷ ms) f = record f { queue = ms; written = f.written ++ m ∷ [] }
write_next false (m ∷ ms) f = record f { queue = ms; connected = false }

unfoldable pub drain : Bool → Forwarder → Forwarder
drain ok f = if f.connected then write_next ok f.queue f else f

-- `drainInto` sees that the forwarder is being closed, and returns to `run`.
unfoldable pub leave_drain : Forwarder → Forwarder
leave_drain f = if f.connected && f.closing then record f { connected = false } else f

pub data Event : Type 0 where
  sent : ForwardMsg → Event
  dialled : Bool → Event
  drained : Bool → Event
  closed left : Event

unfoldable pub step : Forwarder → Event → Forwarder
step f (sent m) = send m f
step f (dialled ok) = dial ok f
step f (drained ok) = drain ok f
step f closed = close f
step f left = leave_drain f

unfoldable pub run : Forwarder → List Event → Forwarder
run f [] = f
run f (e ∷ es) = run (step f e) es
