-- ===== src/Relay/Limiter/Goroutines.antt =====
-- Any number of goroutines that share one limiter: each runs `Acquire` and, if it got a slot,
-- `Release`, and a schedule says whose atomic step comes next.
use rootenv.Common.{
  ℕ, ◌+◌, none, some, Bytes, bytes_eq, bytes_beq, if◌then◌else◌, List, [], ◌∷◌, get_elem?, set,
}
use rootenv.Common.Dict
use rootenv.Common.Dict.{Dict}
use rootenv.Common.Int.{ℤ, minus_one, leb_ℤ}
use rootenv.Relay.Limiter.{ConnLimiter, counter_for, load, add, compare_and_swap}

-- Where a goroutine stands: before the lock of `Acquire`, at the top of its loop, behind
-- `LoadInt64`, refused, between the two calls, behind the lock of `Release`, and done.
pub data Phase : Type 0 where
  starting looping refused holding leaving left : Phase
  loaded : ℤ → Phase

pub record Goroutine : Type 0 where
  pub user : Bytes
  pub phase : Phase

pub record System : Type 0 where
  pub limiter : ConnLimiter
  pub goroutines : List Goroutine

abbrev pub at : Goroutine → Phase → Goroutine
at g p = record g { phase = p }

-- One atomic step of a goroutine.
unfoldable pub advance : ℤ → Goroutine → Phase → Dict Bytes ℤ → Goroutine × Dict Bytes ℤ
unfolding add compare_and_swap
advance max g starting d = (at g looping, counter_for g.user d)
advance max g looping d = (at g (loaded (load g.user d)), d)
advance max g (loaded cur) d =
    if leb_ℤ max cur
    then (at g refused, d)
    else (let (d', done) = compare_and_swap g.user cur d in
        (at g (if done then holding else looping), d'))
advance max g refused d = (g, d)
advance max g holding d = elim (Dict.lookup g.user d) [
  | none ↦ (at g left, d)
  | some _ ↦ (at g leaving, d)
]
advance max g leaving d = (at g left, add g.user minus_one d)
advance max g left d = (g, d)

-- Goroutine `i` takes its next step.
unfoldable pub step : System → ℕ → System
step s i = elim (get_elem? s.goroutines i) [
  | none ↦ s
  | some g ↦
      let (g', d) = advance s.limiter.max g g.phase s.limiter.counts in
      record {
        limiter = record { max = s.limiter.max; counts = d };
        goroutines = set s.goroutines i g';
      }
]

unfoldable pub run : System → List ℕ → System
run s [] = s
run s (i ∷ schedule) = run (step s i) schedule

-- A goroutine between its successful `CompareAndSwap` and its `AddInt64` owns a slot.
abbrev pub weight : Phase → ℕ
weight holding = 1
weight leaving = 1
weight _ = 0

-- The slots that a user's goroutines own, and those of all users.
abbrev pub slots : Bytes → List Goroutine → ℕ
slots user [] = 0
slots user (g ∷ gs) = (if bytes_beq g.user user then weight g.phase else 0) + slots user gs

abbrev pub active : List Goroutine → ℕ
active [] = 0
active (g ∷ gs) = weight g.phase + active gs

abbrev pub all_starting : List Bytes → List Goroutine
all_starting [] = []
all_starting (user ∷ users) = record { user = user; phase = starting } ∷ all_starting users
