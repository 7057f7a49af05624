-- ===== src/Controller/Main/Mirror.antt =====
-- services/attempt-controller/cmd/main.go: the goroutine that mirrors LabEnvironments, in a run of
-- the whole controller.
use rootenv.Common.{◌≤◌, ◌≡◌, refl, sym, ◌∙◌, Bool, Option, ◌⊎◌, List, [], ◌∷◌, ◌++◌, Bytes, arith}
use mathlib.Core.List.{append_assoc, append-nil}
use rootenv.Controller.Config.{Config, Missing}
use rootenv.Controller.Pocketbase.Attempts.{Parsers}
use rootenv.Controller.Upstream
use rootenv.Controller.Upstream.{Patch, Reconciler, handle, new_reconciler}
use rootenv.Controller.Upstream.Expiry.{KeepsAttempt, expiries, run-expiries}
use rootenv.Controller.Main.{
  Phase, running, Process, Event, observed, start, on_connects, on_links, on_running, on_event, run,
}

abbrev pub Seen : Type 0
Seen = List (Upstream.Event × (Bytes → Patch → Bool))

unfoldable pub seen : Phase → Event → Seen
seen running (observed e accept) = (e, accept) ∷ []
seen ph e = []

module _ (p : Parsers) (format_time : Bytes → Option Bytes) where
  -- What the informer hands on while the controller runs.
  unfoldable pub observations : Process → List Event → Seen
  observations s [] = []
  observations s (e ∷ es) = seen s.phase e ++ observations (on_event p format_time s.phase e s) es

  step-mirrors :
      (s : Process) (e : Event) (rest : Seen)
      → let t = on_event p format_time s.phase e s in
        let (r', calls') = Upstream.run format_time rest t.reconciler in
        let (r, calls) = Upstream.run format_time (seen s.phase e ++ rest) s.reconciler in
        (r ≡ r') × (t.patches ++ calls' ≡ s.patches ++ calls)
  unfolding on_event on_connects on_links on_running seen Upstream.run
  step-mirrors s e rest = grind (arith, append_assoc)

  -- What the controller writes back to attempts is what the mirroring alone makes of the events
  -- that the informer hands on while it runs, whatever the other goroutines do in between.
  pub run-mirrors :
      (s : Process) (es : List Event)
      → let t = run p format_time s es in
        let (r, calls) = Upstream.run format_time (observations s es) s.reconciler in
        (t.reconciler ≡ r) × (t.patches ≡ s.patches ++ calls)
  unfolding run observations Upstream.run
  run-mirrors s [] = (refl, sym (append-nil s.patches))
  run-mirrors s (e ∷ es) =
      let t = on_event p format_time s.phase e s in
      let m = run-mirrors t es in
      let n = step-mirrors s e (observations t es) in (m.0 ∙ sym n.0, m.1 ∙ n.1)

  -- In a whole run of the controller that sees no deletion of an attempt's LabEnvironment, at most
  -- one accepted call for the attempt carries an `expires_at`.
  pub run-expires_once :
      (settings : Missing ⊎ Config) (es : List Event) (id : Bytes)
      → KeepsAttempt id (observations (start settings) es)
      → expiries id (run p format_time (start settings) es).patches ≤ 1
  unfolding start
  run-expires_once settings es id h = rw (run-mirrors (start settings) es).1 (
      omega
        (arith, run-expiries format_time id (observations (start settings) es) new_reconciler h))
