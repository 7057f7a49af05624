-- ===== src/Examples/Session.antt =====
-- A terminal session of the relay, and the relay that ends with one connection left.
use rootenv.Common.{
  length, ◌≡◌, refl, true, false, none, List, [], ◌∷◌, ◌++◌, bytes_eq, bytes_beq, codes,
}
use rootenv.Relay.Exec.Backend.{resize_of, write_chunk, write_stdin}
use rootenv.Relay.Exec.Session.{
  Event, Session, shell_writes, shell_returns, client_takes, client_sends, client_fails,
  shell_reads, reader_goes_on, new_session, answered, typing, run, step, on_output, on_written,
  on_returns, on_message, on_typed,
}
use rootenv.Relay.Exec.Session.Ends.{finish, run-finish, run-IsTyping}
use rootenv.Relay.Exec.Session.Invariant.{HasEnded, IsBehind, IsClosedFor, run-answered}
use rootenv.Relay.Main.Server.{
  upgrades, admits, signalled, shut_down, ends, wait_returns, closes, new_server,
}
use rootenv.Relay.Main.Server
use rootenv.Relay.Main.Server.Drain.{served, IsEmptied, AreEnds, run-drained, run-drains}

-- The user types `ls`, gets a prompt, and types on when the shell ends.
abbrev evening : List Event
evening =
    client_sends (codes "ls")
    ∷ shell_reads
    ∷ shell_writes (codes "$ ")
    ∷ client_takes true
    ∷ shell_writes (codes "bye")
    ∷ client_sends (codes "pwd")
    ∷ shell_returns none
    ∷ []

abbrev late : Session
late = run true new_session evening

late-ended : HasEnded none late.shell
unfolding run step on_output on_written on_returns on_message on_typed resize_of write_chunk
    write_stdin bytes_beq
late-ended = refl

late-typing : late.reader ≡ typing (codes "pwd")
unfolding run step on_output on_written on_returns on_message on_typed resize_of write_chunk
    write_stdin bytes_beq
late-typing = refl

run-finish_example : (run true late (finish false)).caller ≡ answered none
run-finish_example = run-finish true false evening none late-ended

run-answered_example :
    let s = run true new_session (evening ++ finish true) in
    (s.panicked ≡ false)
    × IsBehind s.caller s.shell s.copier s.cancelled
    × IsClosedFor s.reader s.resize_closed s.stdin_closed s.cancelled
run-answered_example = run-answered true (evening ++ finish true)

run-IsTyping_example :
    (run true late (finish true ++ client_fails ∷ reader_goes_on ∷ [])).reader
    ≡ typing (codes "pwd")
run-IsTyping_example =
    run-IsTyping true late (finish true ++ client_fails ∷ reader_goes_on ∷ []) (codes "pwd")
      (tt, (tt, (tt, (tt, (tt, (tt, (tt, tt))))))) late-typing

abbrev shutdown : List Server.Event
shutdown = upgrades ∷ admits 0 ∷ upgrades ∷ signalled ∷ shut_down ∷ wait_returns ∷ ends 0 ∷ []

abbrev exit : List Server.Event
exit = wait_returns ∷ admits 1 ∷ closes ∷ []

-- The second session is cut off: it is not counted when `wg.Wait` returns.
shutdown_runs : Server.run new_server (shutdown ++ exit) ≡ record {
  phase = Server.drained;
  connections = Server.over ∷ Server.serving ∷ [];
  count = 1;
  panicked = false;
}
unfolding Server.run Server.step Server.on_event Server.on_upgrades Server.on_admits
    Server.on_signal Server.on_shut_down Server.on_wait Server.on_closes Server.on_ends
    Server.wait_group_done
shutdown_runs = refl

run-drained_example :
    let s = Server.run new_server shutdown in
    (s.count ≡ served s.connections)
    × (s.panicked ≡ false)
    × IsEmptied s.phase (Server.step s wait_returns).phase wait_returns s.connections
run-drained_example = run-drained shutdown wait_returns

abbrev waiting_for_one : List Server.Event
waiting_for_one = upgrades ∷ admits 0 ∷ signalled ∷ shut_down ∷ []

waiting_is : (Server.run new_server waiting_for_one).phase ≡ Server.draining
unfolding Server.run Server.step Server.on_event Server.on_upgrades Server.on_admits
    Server.on_signal Server.on_shut_down
waiting_is = refl

run-drains_example :
    (more : List Server.Event) × AreEnds more
    × (length more ≡ (Server.run new_server waiting_for_one).count)
    × ((Server.run
          (Server.run new_server waiting_for_one)
          (more ++ wait_returns ∷ closes ∷ [])).phase
        ≡ Server.drained)
run-drains_example = run-drains waiting_for_one waiting_is
