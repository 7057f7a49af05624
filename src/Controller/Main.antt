-- ===== src/Controller/Main.antt =====
-- services/attempt-controller/cmd/main.go and internal/health/health.go: the whole controller, from
-- its start to its end, and what it answers to the probes.
pub mod Ready
pub mod Calls
pub mod Asked
pub mod Mirror
use rootenv.Common.{
  ℕ, Bool, true, false, Option, none, some, ◌⊎◌, inl, inr, String, List, [], ◌∷◌, ◌++◌, Bytes,
  bytes_eq, nat_eq, codes, ◌==◌, map, if◌then◌else◌,
}
use rootenv.Controller.Config
use rootenv.Controller.Config.{Config, Missing}
use rootenv.Controller.Downstream
use rootenv.Controller.Downstream.{Deletion, resync_attempts}
use rootenv.Controller.Pocketbase.Attempts.{AttemptRecord, Parsers, to_attempts}
use rootenv.Controller.Pocketbase.{Failure}
use rootenv.Controller.Subscription.{on_record}
use rootenv.Controller.Upstream
use rootenv.Controller.Upstream.{Reconciler, Patch, new_reconciler, handle}

-- Before `pocketbase.NewClient`, waiting to call it again, behind it, and with its goroutines
-- started; `exited` has the exit code.
pub data Phase : Type 0 where
  connecting waiting connected running : Phase
  exited : ℕ → Phase

-- `ready` is that of the health server; `calls` are those for attempts and `patches` those for
-- LabEnvironments, each in their order.
pub record Process : Type 0 where
  pub phase : Phase
  pub ready : Bool
  pub calls : List Downstream.Call
  pub reconciler : Reconciler
  pub patches : List Upstream.Call

-- Whether a client of PocketBase, and one of Kubernetes, could be made; the end of a wait; the
-- context being cancelled; a resync, the ticker's or that of a new subscription, and an event on an
-- attempt, with what PocketBase and Kubernetes answer; and what the informer hands on.
pub data Event : Type 0 where
  connects links : Bool → Event
  waited cancelled : Event
  resyncs : (Bytes → Deletion) → Option (List AttemptRecord) → Event
  notified : (Bytes → Deletion) → (Bytes → Failure ⊎ AttemptRecord) → AttemptRecord → Event
  observed : Upstream.Event → (Bytes → Patch → Bool) → Event

unfoldable pub start : Missing ⊎ Config → Process
start settings = record {
  phase = elim settings [ inl m ↦ exited 1 | inr c ↦ connecting ];
  ready = false;
  calls = [];
  reconciler = new_reconciler;
  patches = [];
}

-- The loop around `pocketbase.NewClient`, and `SetReady` behind it.
unfoldable pub on_connects : Bool → Process → Process
on_connects ok s =
    if ok then record s { phase = connected; ready = true } else record s { phase = waiting }

unfoldable pub on_links : Bool → Process → Process
on_links ok s = record s { phase = if ok then running else exited 1 }

-- `ListActiveAttempts` skips a record that cannot be parsed.
unfoldable pub attempts_of :
    Parsers → Option (List AttemptRecord) → Option (List Downstream.Attempt)
attempts_of p none = none
attempts_of p (some rs) = some (to_attempts p rs)

module _ (p : Parsers) (format_time : Bytes → Option Bytes) where
  -- What a handler calls is one step here; the calls of two goroutines may be mixed, each one's in
  -- their order.
  unfoldable pub on_running : Event → Process → Process
  on_running cancelled s = record s { phase = exited 0 }
  on_running (resyncs reply items) s = record s {
    calls = s.calls ++ resync_attempts reply (attempts_of p items);
  }
  on_running (notified reply fetch r) s = record s { calls = s.calls ++ on_record p reply fetch r }
  on_running (observed e accept) s =
      let (reconciler', more) = handle format_time accept e s.reconciler in
      record s { reconciler = reconciler'; patches = s.patches ++ more }
  on_running (connects ok) s = s
  on_running (links ok) s = s
  on_running waited s = s

  -- An event that cannot come where the process stands changes nothing.
  unfoldable pub on_event : Phase → Event → Process → Process
  on_event connecting (connects ok) s = on_connects ok s
  on_event waiting waited s = record s { phase = connecting }
  on_event waiting cancelled s = record s { phase = exited 0 }
  on_event connected (links ok) s = on_links ok s
  on_event running e s = on_running e s
  on_event ph e s = s

  unfoldable pub run : Process → List Event → Process
  run s [] = s
  run s (e ∷ es) = run (on_event s.phase e s) es

abbrev pub has_exited : Phase → Bool
has_exited (exited n) = true
has_exited ph = false

-- What a request to the health server comes to: nothing answers it, the path has no handler, or the
-- status and the text of the answer.
pub data Answer : Type 0 where
  unreachable unhandled : Answer
  answered : ℕ → Bytes → Answer

abbrev pub handle_probe : Bytes → Bool → Answer
handle_probe path ready =
    if path == codes "/healthz"
    then answered 200 (codes "ok")
    else if path == codes "/readyz"
    then (if ready then answered 200 (codes "ok") else answered 503 (codes "not ready"))
    else unhandled

-- The health server, which is started behind `config.Load`, listens where it can, and ends with the
-- process.
unfoldable pub answer : Bytes → Process → Answer
answer path s = if has_exited s.phase then unreachable else handle_probe path s.ready

-- `--healthcheck`: the exit code, `reply` being the status that the health server answers with.
unfoldable pub healthcheck : List Bytes → Option ℕ → Option ℕ
healthcheck (program ∷ flag ∷ []) reply =
    if flag == codes "--healthcheck"
    then some (elim reply [ none ↦ 1 | some status ↦ if status == 200 then 0 else 1 ])
    else none
healthcheck args reply = none
