-- ===== src/Relay/Limiter/Moves.antt =====
-- services/relay/pkg/relaybase/limiter.go: what one atomic step does to the counters.
use rootenv.Common.{
  ℕ, ◌+◌, ◌-◌, ◌≤◌, ◌≡◌, refl, sym, ◌∙◌, true, false, Bool-cases, inl, inr, Bytes, bytes_eq,
  bytes_beq, bytes_beq_iff, if◌then◌else◌, arith,
}
use rootenv.Common.Dict
use rootenv.Common.Dict.{Dict}
use rootenv.Common.Int.{ℤ, pos, pos_part, int_laws, eq_of_beq_ℤ, ◌+ℤ◌, minus_one, leb_ℤ, beq_ℤ}
use rootenv.Relay.Limiter.Counts.{
  load-insert, load_missing, load-counter_for, sum-insert, sum-counter_for,
}
use rootenv.Relay.Limiter.Goroutines.{
  Phase, starting, looping, refused, holding, leaving, left, loaded, Goroutine, at, advance, weight,
}
use rootenv.Relay.Limiter.{load, compare_and_swap, sum}

-- What one step does to the counters, when the user's counter holds at least its own slot.
pub record Moves (max : ℤ) (g g' : Goroutine) (n n' : ℕ) (d d' : Dict Bytes ℤ) : Type 0 where
  pub same_user : g'.user ≡ g.user
  pub balance : n' + weight g.phase ≡ n + weight g'.phase
  pub loads : (u : Bytes) → load u d' ≡ (if bytes_beq g.user u then pos n' else load u d)
  pub capped : n' ≤ pos_part max
  pub summed : sum d' +ℤ pos n ≡ sum d +ℤ pos n'

module _ (max : ℤ) (g : Goroutine) (n : ℕ) (d : Dict Bytes ℤ) (held : load g.user d ≡ pos n)
    (fits : n ≤ pos_part max) where
  -- A step that writes no counter.
  still :
      (p : Phase) (d' : Dict Bytes ℤ)
      → weight p ≡ weight g.phase
      → ((u : Bytes) → load u d' ≡ load u d)
      → sum d' ≡ sum d
      → (n' : ℕ) × Moves max g (at g p) n n' d d'
  still p d' same loads sums = (
    n,
    record {
      same_user = refl;
      balance = omega (arith, same);
      loads = λ u. ground (arith, loads u, bytes_beq_iff g.user u);
      capped = fits;
      summed = rw sums;
    },
  )

  -- A step that writes `n'` to the user's counter.
  writes :
      (p : Phase) (n' : ℕ)
      → n' + weight g.phase ≡ n + weight p
      → n' ≤ pos_part max
      → (m : ℕ) × Moves max g (at g p) n m d (Dict.insert g.user (pos n') d)
  writes p n' balance fits' = (
    n',
    record {
      same_user = refl;
      balance = balance;
      loads = λ u. load-insert u g.user (pos n') d;
      capped = fits';
      summed = rw held at (sum-insert g.user (pos n') d);
    },
  )

+ℤ-one : (n : ℕ) → pos n +ℤ pos 1 ≡ pos (n + 1)
+ℤ-one n = omega int_laws

+ℤ-minus_one : (n : ℕ) → 1 ≤ n → pos n +ℤ minus_one ≡ pos (n - 1)
+ℤ-minus_one n h = omega int_laws

pub advance_full :
    (max : ℤ) (g : Goroutine) (cur : ℤ) (d : Dict Bytes ℤ)
    → leb_ℤ max cur ≡ true
    → advance max g (loaded cur) d ≡ (at g refused, d)
unfolding advance
advance_full max g cur d full = rw (full, advance)

pub advance_swap :
    (max : ℤ) (g : Goroutine) (cur : ℤ) (d : Dict Bytes ℤ)
    → leb_ℤ max cur ≡ false
    → beq_ℤ (load g.user d) cur ≡ true
    → advance max g (loaded cur) d ≡ (at g holding, Dict.insert g.user (cur +ℤ pos 1) d)
unfolding advance
advance_swap max g cur d room same =
    rw (room, advance, compare_and_swap) (rw (same, compare_and_swap))

pub advance_lost :
    (max : ℤ) (g : Goroutine) (cur : ℤ) (d : Dict Bytes ℤ)
    → leb_ℤ max cur ≡ false
    → beq_ℤ (load g.user d) cur ≡ false
    → advance max g (loaded cur) d ≡ (at g looping, d)
unfolding advance
advance_lost max g cur d room moved =
    rw (room, advance, compare_and_swap) (rw (moved, compare_and_swap))

below-leb_ℤ : (max : ℤ) (n : ℕ) → leb_ℤ max (pos n) ≡ false → n + 1 ≤ pos_part max
below-leb_ℤ max n h = ground arith

loaded-Moves :
    (max : ℤ) (g : Goroutine) (cur : ℤ) (n : ℕ) (d : Dict Bytes ℤ)
    → g.phase ≡ loaded cur
    → load g.user d ≡ pos n
    → n ≤ pos_part max
    → (n' : ℕ) × Moves max g
        (advance max g (loaded cur) d).0
        n
        n'
        d
        (advance max g (loaded cur) d).1
loaded-Moves max g cur n d ph l c = elim (Bool-cases (leb_ℤ max cur)) [
  | inl full ↦
      rw (advance_full max g cur d full) (still max g n d l c refused d (rw ph) (λ u. refl) refl)
  | inr room ↦ elim (Bool-cases (beq_ℤ (load g.user d) cur)) [
    | inl same ↦
        let now : cur ≡ pos n = sym (eq_of_beq_ℤ _ cur same) ∙ l in
        let below = below-leb_ℤ max n (rw now at room) in
        rw (advance_swap max g cur d room same, now, +ℤ-one n)
          (writes max g n d l c holding (n + 1) (rw ph (omega arith)) below)
    | inr moved ↦
        rw (advance_lost max g cur d room moved)
          (still max g n d l c looping d (rw ph) (λ u. refl) refl)
  ]
]

-- A counter that is not 0 is in the map, so `Release` finds it.
advance_holding :
    (max : ℤ) (g : Goroutine) (n : ℕ) (d : Dict Bytes ℤ)
    → load g.user d ≡ pos n
    → 1 ≤ n
    → advance max g holding d ≡ (at g leaving, d)
unfolding advance
advance_holding max g n d l h = ground (arith, load_missing g.user d)

pub advance-Moves :
    (max : ℤ) (g : Goroutine) (p : Phase) (n : ℕ) (d : Dict Bytes ℤ)
    → g.phase ≡ p
    → load g.user d ≡ pos n
    → weight p ≤ n
    → n ≤ pos_part max
    → (n' : ℕ) × Moves max g (advance max g p d).0 n n' d (advance max g p d).1
unfolding advance
advance-Moves max g starting n d ph l w c =
    still max g n d l c looping _ (rw ph) (λ u. load-counter_for u g.user d)
      (sum-counter_for g.user d)
advance-Moves max g looping n d ph l w c =
    still max g n d l c (loaded (load g.user d)) d (rw ph) (λ u. refl) refl
advance-Moves max g refused n d ph l w c = still max g n d l c g.phase d refl (λ u. refl) refl
advance-Moves max g (loaded cur) n d ph l w c = loaded-Moves max g cur n d ph l c
advance-Moves max g holding n d ph l w c =
    rw (advance_holding max g n d l w) (still max g n d l c leaving d (rw ph) (λ u. refl) refl)
advance-Moves max g leaving n d ph l w c =
    rw (l, +ℤ-minus_one n w) (writes max g n d l c left (n - 1) (rw ph (omega arith)) (omega arith))
advance-Moves max g left n d ph l w c = still max g n d l c g.phase d refl (λ u. refl) refl
