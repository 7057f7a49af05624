-- ===== src/Relay/Limiter.antt =====
-- services/relay/pkg/relaybase/limiter.go: `ConnLimiter`, its counters and the atomic steps of
-- `Acquire` and `Release`. A counter is created once and never removed from the map, so the pointer
-- that a goroutine holds reads and writes the map's entry of its user.
pub mod Counts
pub mod Sequential
pub mod Goroutines
pub mod Moves
pub mod Invariant
pub mod Alone
use rootenv.Common.{
  ℕ, Bool, true, false, Option, none, some, Bytes, bytes_eq, if◌then◌else◌, List, [], ◌∷◌, suc,
  get_elem?,
}
use rootenv.Common.Dict
use rootenv.Common.Dict.{Dict}
use rootenv.Common.Int.{ℤ, pos, ◌+ℤ◌, leb_ℤ, beq_ℤ, minus_one}

-- The counters are int64; each call moves one by 1, so they stay far inside the range.
pub record ConnLimiter : Type 0 where
  pub max : ℤ
  pub counts : Dict Bytes ℤ

unfoldable pub new_conn_limiter : ℤ → ConnLimiter
new_conn_limiter max = record { max = max; counts = [] }

-- The locked part of `Acquire`: the user's counter is made if it is missing.
unfoldable pub counter_for : Bytes → Dict Bytes ℤ → Dict Bytes ℤ
counter_for user d = elim (Dict.lookup user d) [ none ↦ Dict.insert user (pos 0) d | some _ ↦ d ]

-- `*counter`
abbrev pub load : Bytes → Dict Bytes ℤ → ℤ
load user d = Dict.get_or user (pos 0) d

-- `atomic.AddInt64`
unfoldable pub add : Bytes → ℤ → Dict Bytes ℤ → Dict Bytes ℤ
add user n d = Dict.insert user (load user d +ℤ n) d

-- `atomic.CompareAndSwapInt64(counter, cur, cur+1)`
unfoldable pub compare_and_swap : Bytes → ℤ → Dict Bytes ℤ → Dict Bytes ℤ × Bool
compare_and_swap user cur d =
    if beq_ℤ (load user d) cur then (Dict.insert user (cur +ℤ pos 1) d, true) else (d, false)

-- `Acquire` with no other goroutine in between: its first `CompareAndSwap` succeeds. The flag is
-- false where it returns the error "connection limit reached".
unfoldable pub acquire : Bytes → ConnLimiter → ConnLimiter × Bool
acquire user l =
    let d = counter_for user l.counts in
    let cur = load user d in
    if leb_ℤ l.max cur
    then (record l { counts = d }, false)
    else (record l { counts = Dict.insert user (cur +ℤ pos 1) d }, true)

unfoldable pub release : Bytes → ConnLimiter → ConnLimiter
unfolding add
release user l = elim (Dict.lookup user l.counts) [
  | none ↦ l
  | some _ ↦ record l { counts = add user minus_one l.counts }
]

-- The sum of the counters at one moment.
unfoldable pub sum : Dict Bytes ℤ → ℤ
sum [] = pos 0
sum ((_, n) ∷ d) = n +ℤ sum d

-- `atomic.LoadInt64` of a counter, by its place in the map
abbrev pub count_of : Option (Bytes × ℤ) → ℤ
count_of none = pos 0
count_of (some (_, n)) = n

-- The loop of `Total`: counter `i` is loaded at the moment `i`, and others may move the counters in
-- between.
unfoldable pub sum_from : (ℕ → ConnLimiter) → ℕ → Dict Bytes ℤ → ℤ
sum_from moments i [] = pos 0
sum_from moments i (_ ∷ d) = count_of (get_elem? (moments i).counts i) +ℤ sum_from moments (suc i) d

-- The mutex is held, so that no counter is made in between and each stays in its place.
unfoldable pub total : (ℕ → ConnLimiter) → ℤ
total moments = sum_from moments 0 (moments 0).counts
