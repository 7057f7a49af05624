-- ===== src/Relay/Limiter/Alone.antt =====
-- The atomic steps of one goroutine, taken with no other in between, are the calls `Acquire` and
-- `Release`.
use rootenv.Common.{
  ℕ, zero, suc, ◌≡◌, refl, ap, ◌∙◌, ◌<◌, length, some, none, inl, inr, Bool-cases, Bytes, bytes_eq,
  if◌then◌else◌, List, [], ◌∷◌, get_elem?, set, get_elem?-set_self, arith,
}
use rootenv.Common.Dict
use rootenv.Common.Dict.{Dict}
use rootenv.Common.Int.{ℤ, leb_ℤ, beq_ℤ-self}
use rootenv.Relay.Limiter.Moves.{advance_full, advance_swap}
use rootenv.Relay.Limiter.Goroutines.{
  starting, looping, loaded, refused, holding, leaving, left, Goroutine, System, at, advance, step,
  run,
}
use rootenv.Relay.Limiter.{load, counter_for, acquire, release}

module _ {ℓ} {A : Type ℓ} where
  lt-length : (xs : List A) (i : ℕ) {x : A} → get_elem? xs i ≡ some x → i < length xs
  lt-length [] i h = cc
  lt-length (y ∷ xs) zero h = omega arith
  lt-length (y ∷ xs) (suc i) h = omega (arith, lt-length xs i h)

  set-set : (xs : List A) (i : ℕ) (x y : A) → set (set xs i x) i y ≡ set xs i y
  set-set [] i x y = refl
  set-set (z ∷ xs) zero x y = refl
  set-set (z ∷ xs) (suc i) x y = ap (◌∷◌ z) (set-set xs i x y)

-- The system when the limiter's counters are `d` and goroutine `i` is `g`.
abbrev with_goroutine : System → ℕ → Dict Bytes ℤ → Goroutine → System
with_goroutine s i d g = record {
  limiter = record { max = s.limiter.max; counts = d };
  goroutines = set s.goroutines i g;
}

first_step :
    (s : System) (i : ℕ) (g : Goroutine)
    → get_elem? s.goroutines i ≡ some g
    → let (g', d) = advance s.limiter.max g g.phase s.limiter.counts in
      step s i ≡ with_goroutine s i d g'
unfolding step
first_step s i g h = rw (h, step)

next_step :
    (s : System) (i : ℕ) (d : Dict Bytes ℤ) (g : Goroutine)
    → i < length s.goroutines
    → let (g', d') = advance s.limiter.max g g.phase d in
      step (with_goroutine s i d g) i ≡ with_goroutine s i d' g'
unfolding step
next_step s i d g h =
    rw (get_elem?-set_self s.goroutines i g h, step)
      (ap
        (λ gs. record {
          limiter = record { max = s.limiter.max; counts = (advance s.limiter.max g g.phase d).1 };
          goroutines = gs;
        })
        (set-set s.goroutines i g (advance s.limiter.max g g.phase d).0))

first_looping :
    (s : System) (i : ℕ) (g : Goroutine)
    → get_elem? s.goroutines i ≡ some g
    → g.phase ≡ starting
    → step s i ≡ with_goroutine s i (counter_for g.user s.limiter.counts) (at g looping)
unfolding advance
first_looping s i g h ph = first_step s i g h ∙ rw ph

then_loaded :
    (s : System) (i : ℕ) (d : Dict Bytes ℤ) (g : Goroutine)
    → i < length s.goroutines
    → step (with_goroutine s i d (at g looping)) i
      ≡ with_goroutine s i d (at g (loaded (load g.user d)))
unfolding advance
then_loaded s i d g = next_step s i d (at g looping)

decided :
    (s : System) (i : ℕ) (g : Goroutine)
    → let d = counter_for g.user s.limiter.counts in
      let cur = load g.user d in
      let (g', d') = advance s.limiter.max (at g (loaded cur)) (loaded cur) d in
      let (l, taken) = acquire g.user s.limiter in
      with_goroutine s i d' g' ≡ record {
        limiter = l;
        goroutines = set s.goroutines i (at g (if taken then holding else refused));
      }
unfolding acquire
decided s i g =
    let d = counter_for g.user s.limiter.counts in
    let cur = load g.user d in
    elim (Bool-cases (leb_ℤ s.limiter.max cur)) [
      | inl full ↦
          rw (advance_full s.limiter.max (at g (loaded cur)) cur d full) (rw (full, acquire))
      | inr room ↦
          rw (advance_swap s.limiter.max (at g (loaded cur)) cur d room (beq_ℤ-self cur))
            (rw (room, acquire))
    ]

-- Three steps from the start are `Acquire`: the goroutine ends with the slot or refused, and the
-- limiter is the one that the call leaves.
pub run-acquire :
    (s : System) (i : ℕ) (g : Goroutine)
    → get_elem? s.goroutines i ≡ some g
    → g.phase ≡ starting
    → let (l, taken) = acquire g.user s.limiter in
      run s (i ∷ i ∷ i ∷ []) ≡ record {
        limiter = l;
        goroutines = set s.goroutines i (at g (if taken then holding else refused));
      }
unfolding run
run-acquire s i g h ph =
    let d = counter_for g.user s.limiter.counts in
    let inside = lt-length s.goroutines i h in
    ap (λ t. step (step t i) i) (first_looping s i g h ph)
    ∙ ap (λ t. step t i) (then_loaded s i d g inside)
    ∙ next_step s i d (at g (loaded (load g.user d))) inside
    ∙ decided s i g

after_holding :
    (s : System) (i : ℕ) (g : Goroutine)
    → get_elem? s.goroutines i ≡ some g
    → g.phase ≡ holding
    → step s i
      ≡ with_goroutine s i s.limiter.counts
          (at g (elim (Dict.lookup g.user s.limiter.counts) [ none ↦ left | some _ ↦ leaving ]))
unfolding advance
after_holding s i g h ph = first_step s i g h ∙ rw ph (ground arith)

released :
    (s : System) (i : ℕ) (g : Goroutine)
    → let found = Dict.lookup g.user s.limiter.counts in
      let g₁ = at g (elim found [ none ↦ left | some _ ↦ leaving ]) in
      let (g', d') = advance s.limiter.max g₁ g₁.phase s.limiter.counts in
      with_goroutine s i d' g'
      ≡ record { limiter = release g.user s.limiter; goroutines = set s.goroutines i (at g left) }
unfolding advance release
released s i g = ground arith

-- Two steps from a slot are `Release`.
pub run-release :
    (s : System) (i : ℕ) (g : Goroutine)
    → get_elem? s.goroutines i ≡ some g
    → g.phase ≡ holding
    → run s (i ∷ i ∷ [])
      ≡ record { limiter = release g.user s.limiter; goroutines = set s.goroutines i (at g left) }
unfolding run
run-release s i g h ph =
    ap (λ t. step t i) (after_holding s i g h ph)
    ∙ next_step s i s.limiter.counts _ (lt-length s.goroutines i h)
    ∙ released s i g
