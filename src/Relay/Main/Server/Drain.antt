-- ===== src/Relay/Main/Server/Drain.antt =====
-- services/relay/cmd: what the wait group of a relay counts, and how the relay ends.
use rootenv.Common.{
  ℕ, zero, suc, ◌+◌, ◌≡◌, refl, ap, ◌⊎◌, inl, inr, true, false, Option, none, some, List, [], ◌∷◌,
  ◌++◌, nat_eq, get_elem?, set, length, arith,
}
use rootenv.Relay.Main.Server.{
  Stage, upgraded, serving, over, Phase, draining, drained, closing, Server, Event, upgrades,
  signalled, shut_down, wait_returns, times_out, closes, listen_fails, admits, refuses, ends,
  new_server, has_exited, wait_group_done, on_upgrades, on_admits, on_refuses, on_ends, on_signal,
  on_shut_down, on_wait, on_timeout, on_closes, on_listen_fails, on_event, step, run,
}

abbrev pub weight : Stage → ℕ
weight serving = 1
weight st = 0

-- The sessions that are being served.
unfoldable pub served : List Stage → ℕ
served [] = 0
served (st ∷ stages) = weight st + served stages

served-append : (a b : List Stage) → served (a ++ b) ≡ served a + served b
unfolding served
served-append [] b = omega arith
served-append (st ∷ a) b = omega (arith, served-append a b)

served-set :
    (stages : List Stage) (i : ℕ) (old new : Stage)
    → get_elem? stages i ≡ some old
    → served (set stages i new) + weight old ≡ served stages + weight new
unfolding served
served-set [] i old new h = cc
served-set (st ∷ stages) zero old new h = ground arith
served-set (st ∷ stages) (suc i) old new h = omega (arith, served-set stages i old new h)

-- The phases around an event, where the `select` has taken `done` at it: `wg.Wait` has returned, and
-- no session is being served.
abbrev pub IsEmptied : Phase → Phase → Event → List Stage → Type 0
IsEmptied draining (closing true) e stages = (e ≡ wait_returns) × (served stages ≡ 0)
IsEmptied before after e stages = Unit

record Inv (s : Server) : Type 0 where
  counted : s.count ≡ served s.connections
  calm : s.panicked ≡ false

on_admits-Inv :
    (i : ℕ) (st : Option Stage) (s : Server)
    → get_elem? s.connections i ≡ st
    → has_exited s.phase ≡ false
    → Inv s
    → Inv (on_admits i st s)
unfolding on_admits
on_admits-Inv i none s h g v = v
on_admits-Inv i (some upgraded) s h g v =
    ground (arith, served-set s.connections i upgraded serving h)
on_admits-Inv i (some serving) s h g v = v
on_admits-Inv i (some over) s h g v = v

on_refuses-Inv :
    (i : ℕ) (st : Option Stage) (s : Server)
    → get_elem? s.connections i ≡ st
    → has_exited s.phase ≡ false
    → Inv s
    → Inv (on_refuses i st s)
unfolding on_refuses
on_refuses-Inv i none s h g v = v
on_refuses-Inv i (some upgraded) s h g v =
    ground (arith, served-set s.connections i upgraded over h)
on_refuses-Inv i (some serving) s h g v = v
on_refuses-Inv i (some over) s h g v = v

on_ends-Inv :
    (i : ℕ) (st : Option Stage) (s : Server)
    → get_elem? s.connections i ≡ st
    → has_exited s.phase ≡ false
    → Inv s
    → Inv (on_ends i st s)
unfolding on_ends wait_group_done
on_ends-Inv i none s h g v = v
on_ends-Inv i (some serving) s h g v = ground (arith, served-set s.connections i serving over h)
on_ends-Inv i (some upgraded) s h g v = v
on_ends-Inv i (some over) s h g v = v

on_event-Inv : (e : Event) (s : Server) → has_exited s.phase ≡ false → Inv s → Inv (on_event e s)
unfolding on_event on_upgrades on_signal on_shut_down on_wait on_timeout on_closes on_listen_fails
    served
on_event-Inv (admits i) s g v = on_admits-Inv i _ s refl g v
on_event-Inv (refuses i) s g v = on_refuses-Inv i _ s refl g v
on_event-Inv (ends i) s g v = on_ends-Inv i _ s refl g v
on_event-Inv upgrades s g v = ground (arith, served-append s.connections (upgraded ∷ []))
on_event-Inv signalled s g v = ground arith
on_event-Inv shut_down s g v = ground arith
on_event-Inv wait_returns s g v = ground arith
on_event-Inv times_out s g v = ground arith
on_event-Inv closes s g v = ground arith
on_event-Inv listen_fails s g v = ground arith

step-Inv : (s : Server) (e : Event) → Inv s → Inv (step s e)
unfolding step
step-Inv s e v = ground (arith, on_event-Inv e s)

run-Inv : (s : Server) (es : List Event) → Inv s → Inv (run s es)
unfolding run
run-Inv s [] v = v
run-Inv s (e ∷ es) v = run-Inv (step s e) es (step-Inv s e v)

reached-Inv : (es : List Event) → Inv (run new_server es)
unfolding served
reached-Inv es = run-Inv new_server es (record { counted = refl; calm = refl })

step-IsEmptied :
    (e : Event) (s : Server) → Inv s → IsEmptied s.phase (step s e).phase e s.connections
unfolding step on_event on_upgrades on_signal on_shut_down on_wait on_timeout on_closes
    on_listen_fails on_admits on_refuses on_ends wait_group_done
step-IsEmptied e s v = ground (arith, v.counted)

-- Whatever connections come and however they end, the wait group of a relay counts the sessions
-- that are being served and never falls below zero. The `select` takes the end of the sessions only
-- at a point at which `wg.Wait` returns and no session is being served; a connection that is still
-- to be admitted is not waited for.
pub run-drained :
    (es : List Event) (e : Event)
    → let s = run new_server es in
      (s.count ≡ served s.connections)
      × (s.panicked ≡ false)
      × IsEmptied s.phase (step s e).phase e s.connections
run-drained es e =
    let v = reached-Inv es in (v.counted, v.calm, step-IsEmptied e (run new_server es) v)

first_serving :
    (stages : List Stage) → (served stages ≡ 0) ⊎ ((i : ℕ) × (get_elem? stages i ≡ some serving))
unfolding served
first_serving [] = inl refl
first_serving (serving ∷ stages) = inr (0, refl)
first_serving (upgraded ∷ stages) = elim (first_serving stages) [
  | inl none_left ↦ inl (omega (arith, none_left))
  | inr (i, h) ↦ inr (suc i, h)
]
first_serving (over ∷ stages) = elim (first_serving stages) [
  | inl none_left ↦ inl (omega (arith, none_left))
  | inr (i, h) ↦ inr (suc i, h)
]

abbrev pub AreEnds : List Event → Type 0
AreEnds [] = Unit
AreEnds (ends i ∷ es) = AreEnds es
AreEnds (e ∷ es) = true ≡ false

on_ends-serves :
    (s : Server) (i n : ℕ)
    → Inv s
    → s.phase ≡ draining
    → get_elem? s.connections i ≡ some serving
    → s.count ≡ suc n
    → ((step s (ends i)).phase ≡ draining) × ((step s (ends i)).count ≡ n)
unfolding step on_event on_ends wait_group_done
on_ends-serves s i n v g h c = ground (arith, v)

wait_returns-drains :
    (s : Server)
    → s.phase ≡ draining
    → s.count ≡ 0
    → (step (step s wait_returns) closes).phase ≡ drained
unfolding step on_event on_wait on_closes
wait_returns-drains s g c = ground arith

drains :
    (n : ℕ) (s : Server)
    → Inv s
    → s.phase ≡ draining
    → s.count ≡ n
    → (es : List Event) × AreEnds es
      × (length es ≡ n)
      × ((run s (es ++ wait_returns ∷ closes ∷ [])).phase ≡ drained)
unfolding run
drains zero s v g c = ([], tt, refl, wait_returns-drains s g c)
drains (suc n) s v g c = elim (first_serving s.connections) [
  | inl none_left ↦ absurd (omega (arith, v.counted))
  | inr (i, h) ↦
      let (phase, count) = on_ends-serves s i n v g h c in
      let (es, are, long, last) = drains n (step s (ends i)) (step-Inv s (ends i) v) phase count in
      (ends i ∷ es, are, ap suc long, last)
]

-- From every point at which a relay waits for its sessions, as many ends of sessions as the wait
-- group counts, then the return of `wg.Wait` and that of the deferred calls, let it end as drained.
pub run-drains :
    (es : List Event)
    → (run new_server es).phase ≡ draining
    → (more : List Event) × AreEnds more
      × (length more ≡ (run new_server es).count)
      × ((run (run new_server es) (more ++ wait_returns ∷ closes ∷ [])).phase ≡ drained)
run-drains es h = drains _ (run new_server es) (reached-Inv es) h refl
