-- ===== src/Controller/Main/Ready.antt =====
-- services/attempt-controller/cmd/main.go and internal/health/health.go: when the controller is
-- ready.
use rootenv.Common.{◌≡◌, Bool, true, false, ◌⊎◌, [], bytes_eq, codes}
use rootenv.Controller.Config.{Config}
use rootenv.Controller.Main.{
  Phase, connecting, waiting, connected, running, exited, Process, answer, Answer, unreachable,
  answered,
}

-- The controller may have acted only where it is ready; it is ready where it has its client.
abbrev IsFor : Phase → Bool → Type 0
IsFor connecting ready = ready ≡ false
IsFor waiting ready = ready ≡ false
IsFor connected ready = ready ≡ true
IsFor running ready = ready ≡ true
IsFor (exited n) ready = Unit

record Inv (s : Process) : Type 0 where
  phased : IsFor s.phase s.ready
  idle : (s.ready ≡ true) ⊎ ((s.calls ≡ []) × (s.patches ≡ []))

abbrev readyz : Process → Answer
readyz s = answer (codes "/readyz") s

-- What /readyz answers at a point, and at a later one, and whether the process has exited at them.
abbrev pub Probed : Process → Process → Bool → Bool → Type 0
Probed s t true _ = readyz s ≡ unreachable
Probed s t false true =
    ((readyz s ≡ answered 503 (codes "not ready")) × (s.calls ≡ []) × (s.patches ≡ []))
    ⊎ (readyz s ≡ answered 200 (codes "ok"))
Probed s t false false =
    ((readyz s ≡ answered 503 (codes "not ready")) × (s.calls ≡ []) × (s.patches ≡ []))
    ⊎ ((readyz s ≡ answered 200 (codes "ok")) × (readyz t ≡ answered 200 (codes "ok")))
