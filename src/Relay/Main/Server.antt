-- ===== src/Relay/Main/Server.antt =====
-- services/relay/cmd/relay-exec/main.go and relay-grader/main.go: a relay from its start to its end,
-- with the connections that it holds. Both programs are the same here.
pub mod Drain
use rootenv.Common.{
  ℕ, zero, suc, ◌+◌, ◌-◌, Bool, true, false, Option, none, some, List, [], ◌∷◌, ◌++◌, Bytes,
  bytes_eq, nat_eq, codes, ◌==◌, if◌then◌else◌, get_elem?, set,
}

-- A connection that is upgraded and waits for its first message, one behind `WG.Add`, and one whose
-- handler has returned.
pub data Stage : Type 0 where
  upgraded serving over : Stage

-- Before the signal, in `srv.Shutdown`, in the `select` behind it, and in the deferred calls, among
-- them `forwarder.Close`, with what the `select` has taken: `done`, or the timeout. Then ended: with
-- all sessions drained, by the timeout, or since the server could not listen.
pub data Phase : Type 0 where
  listening shutting draining drained timed_out failed : Phase
  closing : Bool → Phase

-- `count` is the wait group's counter.
pub record Server : Type 0 where
  pub phase : Phase
  pub connections : List Stage
  pub count : ℕ
  pub panicked : Bool

-- A connection is upgraded, its handler gets past its checks, or refuses it, or the backend is done
-- with it; the signal comes; `Shutdown` returns, which does not wait for upgraded connections;
-- `wg.Wait` returns and the `select` takes it; the 30 seconds are over; the deferred calls return,
-- with which the process exits; `ListenAndServe` fails. Handlers go on up to the exit.
pub data Event : Type 0 where
  upgrades signalled shut_down wait_returns times_out closes listen_fails : Event
  admits refuses ends : ℕ → Event

abbrev pub new_server : Server
new_server = record { phase = listening; connections = []; count = 0; panicked = false }

abbrev pub has_exited : Phase → Bool
has_exited drained = true
has_exited timed_out = true
has_exited failed = true
has_exited ph = false

-- `wg.Done` below zero panics.
unfoldable pub wait_group_done : Server → Server
wait_group_done s = elim s.count [
  | zero ↦ record s { panicked = true }
  | suc n ↦ record s { count = n }
]

-- `Shutdown` waits for requests that are not upgraded, but may time out itself.
unfoldable pub on_upgrades : Phase → Server → Server
on_upgrades listening s = record s { connections = s.connections ++ upgraded ∷ [] }
on_upgrades shutting s = record s { connections = s.connections ++ upgraded ∷ [] }
on_upgrades draining s = record s { connections = s.connections ++ upgraded ∷ [] }
on_upgrades (closing b) s = record s { connections = s.connections ++ upgraded ∷ [] }
on_upgrades ph s = s

-- `Handler.ServeHTTP` on connection `i`.
unfoldable pub on_admits : ℕ → Option Stage → Server → Server
on_admits i (some upgraded) s = record s {
  connections = set s.connections i serving;
  count = s.count + 1;
}
on_admits i st s = s

unfoldable pub on_refuses : ℕ → Option Stage → Server → Server
on_refuses i (some upgraded) s = record s { connections = set s.connections i over }
on_refuses i st s = s

unfoldable pub on_ends : ℕ → Option Stage → Server → Server
on_ends i (some serving) s = wait_group_done (record s { connections = set s.connections i over })
on_ends i st s = s

unfoldable pub on_signal : Phase → Server → Server
on_signal listening s = record s { phase = shutting }
on_signal ph s = s

unfoldable pub on_shut_down : Phase → Server → Server
on_shut_down shutting s = record s { phase = draining }
on_shut_down ph s = s

unfoldable pub on_wait : Phase → Server → Server
on_wait draining s = if s.count == 0 then record s { phase = closing true } else s
on_wait ph s = s

unfoldable pub on_timeout : Phase → Server → Server
on_timeout draining s = record s { phase = closing false }
on_timeout ph s = s

unfoldable pub on_closes : Phase → Server → Server
on_closes (closing true) s = record s { phase = drained }
on_closes (closing false) s = record s { phase = timed_out }
on_closes ph s = s

unfoldable pub on_listen_fails : Phase → Server → Server
on_listen_fails listening s = record s { phase = failed }
on_listen_fails ph s = s

-- What a process that has not exited does.
unfoldable pub on_event : Event → Server → Server
on_event upgrades s = on_upgrades s.phase s
on_event (admits i) s = on_admits i (get_elem? s.connections i) s
on_event (refuses i) s = on_refuses i (get_elem? s.connections i) s
on_event (ends i) s = on_ends i (get_elem? s.connections i) s
on_event signalled s = on_signal s.phase s
on_event shut_down s = on_shut_down s.phase s
on_event wait_returns s = on_wait s.phase s
on_event times_out s = on_timeout s.phase s
on_event closes s = on_closes s.phase s
on_event listen_fails s = on_listen_fails s.phase s

unfoldable pub step : Server → Event → Server
step s e = if has_exited s.phase then s else on_event e s

unfoldable pub run : Server → List Event → Server
run s [] = s
run s (e ∷ es) = run (step s e) es
