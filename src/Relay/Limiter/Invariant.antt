-- ===== src/Relay/Limiter/Invariant.antt =====
-- The limiter under every schedule: the counters are the slots owned, and no user owns more than
-- the maximum.
use rootenv.Common.{
  ℕ, zero, suc, ◌+◌, ◌≤◌, ◌≡◌, refl, ap, sym, ◌∙◌, some, Option-cases, Bool-cases, inl, inr, Bytes,
  bytes_eq, bytes_beq, bytes_beq_iff, if◌then◌else◌, List, [], ◌∷◌, get_elem?, set, arith,
}
use rootenv.Common.Dict
use rootenv.Common.Dict.{Dict}
use rootenv.Common.Int.{ℤ, pos, pos_part, neg_part, int_laws, ◌+ℤ◌}
use rootenv.Relay.Limiter.Counts.{total_still}
use rootenv.Relay.Limiter.Goroutines.{
  Goroutine, System, advance, step, run, weight, slots, active, all_starting,
}
use rootenv.Relay.Limiter.{load, sum, new_conn_limiter, total}
use rootenv.Relay.Limiter.Moves.{Moves, advance-Moves}

abbrev weight_for : Bytes → Goroutine → ℕ
weight_for u g = if bytes_beq g.user u then weight g.phase else 0

slots-set :
    (u : Bytes) (gs : List Goroutine) (i : ℕ) (g g' : Goroutine)
    → get_elem? gs i ≡ some g
    → slots u (set gs i g') + weight_for u g ≡ slots u gs + weight_for u g'
slots-set u [] i g g' h = cc
slots-set u (x ∷ gs) zero g g' h = ground arith
slots-set u (x ∷ gs) (suc i) g g' h = omega (arith, slots-set u gs i g g' h)

active-set :
    (gs : List Goroutine) (i : ℕ) (g g' : Goroutine)
    → get_elem? gs i ≡ some g
    → active (set gs i g') + weight g.phase ≡ active gs + weight g'.phase
active-set [] i g g' h = cc
active-set (x ∷ gs) zero g g' h = ground arith
active-set (x ∷ gs) (suc i) g g' h = omega (arith, active-set gs i g g' h)

weight-le-slots :
    (gs : List Goroutine) (i : ℕ) (g : Goroutine)
    → get_elem? gs i ≡ some g
    → weight g.phase ≤ slots g.user gs
weight-le-slots [] i g h = cc
weight-le-slots (x ∷ gs) zero g h = ground (arith, bytes_beq_iff g.user g.user)
weight-le-slots (x ∷ gs) (suc i) g h = omega (arith, weight-le-slots gs i g h)

pub record Inv (s : System) : Type 0 where
  pub counted : (u : Bytes) → load u s.limiter.counts ≡ pos (slots u s.goroutines)
  pub capped : (u : Bytes) → slots u s.goroutines ≤ pos_part s.limiter.max
  pub summed : sum s.limiter.counts ≡ pos (active s.goroutines)

-- The slots after goroutine `i` moved: its user's are the new count, the others' are as before.
slots_after :
    {max : ℤ} (g g' : Goroutine) (n' : ℕ) (d d' : Dict Bytes ℤ) (gs : List Goroutine) (i : ℕ)
    (u : Bytes)
    → get_elem? gs i ≡ some g
    → Moves max g g' (slots g.user gs) n' d d'
    → slots u (set gs i g') ≡ (if bytes_beq g.user u then n' else slots u gs)
slots_after g g' n' d d' gs i u e m = elim (Bool-cases (bytes_beq g.user u)) [
  | inl same ↦
      let here : g.user ≡ u = (bytes_beq_iff g.user u).0 same in
      ground (arith, slots-set u gs i g g' e, m.same_user, m.balance, ap (λ w. slots w gs) here)
  | inr other ↦ ground (arith, slots-set u gs i g g' e, m.same_user)
]

sum_after :
    (t' t : ℤ) (a' a n n' w w' : ℕ)
    → t' +ℤ pos n ≡ t +ℤ pos n'
    → t ≡ pos a
    → n' + w ≡ n + w'
    → a' + w ≡ a + w'
    → t' ≡ pos a'
sum_after t' t a' a n n' w w' moved before here there =
    omega (int_laws, ap pos_part moved, ap neg_part moved, ap pos_part before, ap neg_part before)

step-Inv : (s : System) (i : ℕ) → Inv s → Inv (step s i)
unfolding step
step-Inv s i v = elim (Option-cases (get_elem? s.goroutines i)) [
  | inl e ↦ rw (e, step) v
  | inr (g, e) ↦
      let gs = s.goroutines in
      let d = s.limiter.counts in
      let (n', m) =
        advance-Moves s.limiter.max g g.phase (slots g.user gs) d refl (v.counted g.user)
          (weight-le-slots gs i g e) (v.capped g.user) in
      let (g', d') = advance s.limiter.max g g.phase d in
      rw (e, step)
        (record {
          counted =
              λ u. ground (arith, slots_after g g' n' d d' gs i u e m, m.loads u, v.counted u);
          capped = λ u. ground (arith, slots_after g g' n' d d' gs i u e m, m.capped, v.capped u);
          summed =
              sum_after _ _ _ _ _ n' _ _ (m.summed) v.summed m.balance (active-set gs i g g' e);
        })
]

pub run-Inv : (s : System) (schedule : List ℕ) → Inv s → Inv (run s schedule)
unfolding run
run-Inv s [] v = v
run-Inv s (i ∷ schedule) v = run-Inv (step s i) schedule (step-Inv s i v)

step-max : (s : System) (i : ℕ) → (step s i).limiter.max ≡ s.limiter.max
unfolding step
step-max s i = ground arith

run-max : (s : System) (schedule : List ℕ) → (run s schedule).limiter.max ≡ s.limiter.max
unfolding run
run-max s [] = refl
run-max s (i ∷ schedule) = run-max (step s i) schedule ∙ step-max s i

abbrev pub initial : ℤ → List Bytes → System
initial max users = record { limiter = new_conn_limiter max; goroutines = all_starting users }

slots-all_starting : (u : Bytes) (users : List Bytes) → slots u (all_starting users) ≡ 0
slots-all_starting u [] = refl
slots-all_starting u (x ∷ users) = ground (arith, slots-all_starting u users)

active-all_starting : (users : List Bytes) → active (all_starting users) ≡ 0
active-all_starting [] = refl
active-all_starting (x ∷ users) = omega (arith, active-all_starting users)

initial-Inv : (max : ℤ) (users : List Bytes) → Inv (initial max users)
unfolding new_conn_limiter sum Dict.get_or
initial-Inv max users = record {
  counted = λ u. ap pos (sym (slots-all_starting u users));
  capped = λ u. omega (arith, slots-all_starting u users);
  summed = ap pos (sym (active-all_starting users));
}

-- For every limit, every list of users that call `Acquire`, one goroutine each, and every schedule
-- of their atomic steps: each user's counter is the number of slots that the user's goroutines own,
-- that number is at most the limit (0 where the limit is negative), and `Total`, where no one moves
-- a counter while it runs, is the number of slots that all goroutines own.
pub run_bounded :
    (max : ℤ) (users : List Bytes) (schedule : List ℕ) (u : Bytes)
    → let s = run (initial max users) schedule in
      (load u s.limiter.counts ≡ pos (slots u s.goroutines))
      × (slots u s.goroutines ≤ pos_part max)
      × (total (λ _. s.limiter) ≡ pos (active s.goroutines))
unfolding new_conn_limiter
run_bounded max users schedule u =
    let v = run-Inv (initial max users) schedule (initial-Inv max users) in
    let max_is : (run (initial max users) schedule).limiter.max ≡ max =
      run-max (initial max users) schedule in
    (v.counted u, rw max_is at (v.capped u), total_still _ ∙ v.summed)
