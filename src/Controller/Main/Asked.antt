-- ===== src/Controller/Main/Asked.antt =====
-- services/attempt-controller/cmd/main.go: what the controller does to a LabEnvironment, over a
-- whole run, and who asked for it.
use rootenv.Common.{◌≡◌, ◌||◌, Option, ◌⊎◌, List, [], ◌∷◌, ◌++◌, Bytes, bytes_eq, any, arith}
use rootenv.Controller.Config.{Config, Missing}
use rootenv.Controller.Downstream.{resync_attempts}
use rootenv.Controller.Pocketbase.Attempts.{Parsers}
use rootenv.Controller.Subscription.{on_record}
use rootenv.Controller.Main.{
  Phase, running, Process, Event, connects, links, waited, cancelled, resyncs, notified, observed,
  start, on_connects, on_links, attempts_of, on_running, on_event, run,
}
use rootenv.Controller.Main.Calls.{
  removes, makes, asks_removal, asks_creation, any-append, on_record-Asked, resync-Asked,
}

-- What comes in while the controller runs.
abbrev pub hears : Phase → Event → List Event
hears running e = e ∷ []
hears ph e = []

module _ (p : Parsers) (format_time : Bytes → Option Bytes) where
  unfoldable pub heard : Process → List Event → List Event
  heard s [] = []
  heard s (e ∷ es) = hears s.phase e ++ heard (on_event p format_time s.phase e s) es

module _ (p : Parsers) (format_time : Bytes → Option Bytes) (id : Bytes) where
  step-Asked :
      (e : Event) (s : Process)
      → let t = on_event p format_time s.phase e s in
        (any (removes id) t.calls
          ≡ (any (removes id) s.calls || any (asks_removal p id) (hears s.phase e)))
        × (any (makes id) t.calls
            ≡ (any (makes id) s.calls || any (asks_creation p id) (hears s.phase e)))
  unfolding on_event on_connects on_links on_running any asks_removal asks_creation
  step-Asked (connects ok) s = ground arith
  step-Asked (links ok) s = ground arith
  step-Asked waited s = ground arith
  step-Asked cancelled s = ground arith
  step-Asked (resyncs reply items) s =
      let calls = resync_attempts reply (attempts_of p items) in
      ground (
        arith,
        any-append (removes id) s.calls calls,
        any-append (makes id) s.calls calls,
        resync-Asked p id reply items,
      )
  step-Asked (notified reply fetch r) s =
      let calls = on_record p reply fetch r in
      ground (
        arith,
        any-append (removes id) s.calls calls,
        any-append (makes id) s.calls calls,
        on_record-Asked p id reply fetch r,
      )
  step-Asked (observed e accept) s = ground arith

  run-Asked :
      (s : Process) (es : List Event)
      → let t = run p format_time s es in
        let come = heard p format_time s es in
        (any (removes id) t.calls ≡ (any (removes id) s.calls || any (asks_removal p id) come))
        × (any (makes id) t.calls ≡ (any (makes id) s.calls || any (asks_creation p id) come))
  unfolding run heard any
  run-Asked s [] = ground arith
  run-Asked s (e ∷ es) =
      let t = on_event p format_time s.phase e s in
      ground (
        arith,
        run-Asked t es,
        step-Asked e s,
        any-append (asks_removal p id) (hears s.phase e) (heard p format_time t es),
        any-append (asks_creation p id) (hears s.phase e) (heard p format_time t es),
      )

  -- In a whole run of the controller, Kubernetes is asked to delete the LabEnvironment of an attempt
  -- exactly if, while the controller runs, an event asks for its removal: a resync that lists a record
  -- of the attempt which can be parsed and is to be decommissioned; a notification of such a record
  -- that is not decommissioned yet; or one of a record that is not to be, where PocketBase, asked
  -- again, gives such a record or has none.
  pub run-asks_removal :
      (settings : Missing ⊎ Config) (es : List Event)
      → any (removes id) (run p format_time (start settings) es).calls
        ≡ any (asks_removal p id) (heard p format_time (start settings) es)
  unfolding start any
  run-asks_removal settings es = (run-Asked (start settings) es).0

  -- In a whole run of the controller, the LabEnvironment of an attempt is applied exactly if, while
  -- the controller runs, PocketBase, in a listing or asked on a notification that does not ask for a
  -- removal, gives a record of the attempt which can be parsed and is not to be decommissioned.
  pub run-asks_creation :
      (settings : Missing ⊎ Config) (es : List Event)
      → any (makes id) (run p format_time (start settings) es).calls
        ≡ any (asks_creation p id) (heard p format_time (start settings) es)
  unfolding start any
  run-asks_creation settings es = (run-Asked (start settings) es).1
