-- ===== src/Relay/Limiter/Sequential.antt =====
-- `Acquire` and `Release` when no other goroutine comes in between.
use rootenv.Common.{
  ◌≡◌, refl, ◌∙◌, not, ◌&&◌, true, false, some, inl, inr, Bool-cases, Bytes, bytes_eq, bytes_beq,
  bytes_beq_iff, eq_self, if◌then◌else◌, arith,
}
use rootenv.Common.Dict
use rootenv.Common.Int.{ℤ, pos, ◌+ℤ◌, minus_one, leb_ℤ, int_laws}
use rootenv.Relay.Limiter.Counts.{load-insert, load-counter_for}
use rootenv.Relay.Limiter.{ConnLimiter, load, add, counter_for, acquire, release}

-- The counters after `Acquire` has stored `n` for its user.
taken_counts : Bytes → ℤ → ConnLimiter → ConnLimiter
taken_counts user n l = record l { counts = Dict.insert user n (counter_for user l.counts) }

acquire_full :
    (user : Bytes) (l : ConnLimiter)
    → leb_ℤ l.max (load user l.counts) ≡ true
    → acquire user l ≡ (record l { counts = counter_for user l.counts }, false)
unfolding acquire
acquire_full user l h = ground (arith, load-counter_for user user l.counts)

acquire_room :
    (user : Bytes) (l : ConnLimiter)
    → leb_ℤ l.max (load user l.counts) ≡ false
    → acquire user l ≡ (taken_counts user (load user l.counts +ℤ pos 1) l, true)
unfolding acquire taken_counts
acquire_room user l h = ground (arith, load-counter_for user user l.counts)

load-taken_counts :
    (user u : Bytes) (n : ℤ) (l : ConnLimiter)
    → load u (taken_counts user n l).counts ≡ (if bytes_beq user u then n else load u l.counts)
unfolding taken_counts
load-taken_counts user u n l =
    ground
      (arith, load-insert u user n (counter_for user l.counts), load-counter_for u user l.counts)

-- `Acquire` succeeds exactly if the user's counter is below the limit. It then moves that counter
-- alone, by one; otherwise it moves none. The limit stays.
pub acquire_lem :
    (user u : Bytes) (l : ConnLimiter)
    → let (l', taken) = acquire user l in
      (taken ≡ not (leb_ℤ l.max (load user l.counts)))
      × (l'.max ≡ l.max)
      × (load u l'.counts
          ≡ (if taken && bytes_beq user u then load user l.counts +ℤ pos 1 else load u l.counts))
acquire_lem user u l = elim (Bool-cases (leb_ℤ l.max (load user l.counts))) [
  | inl full ↦ rw (acquire_full user l full, full) (refl, refl, load-counter_for u user l.counts)
  | inr room ↦
      rw (acquire_room user l room, room)
        (refl, unfold taken_counts in refl, load-taken_counts user u _ l)
]

release_found :
    (user u : Bytes) (l : ConnLimiter) {n : ℤ}
    → Dict.lookup user l.counts ≡ some n
    → load u (release user l).counts
      ≡ (if bytes_beq user u then load user l.counts +ℤ minus_one else load u l.counts)
unfolding release add
release_found user u l h =
    rw (h, release) (load-insert u user (load user l.counts +ℤ minus_one) l.counts)

release-taken_counts :
    (user u : Bytes) (n : ℤ) (l : ConnLimiter)
    → load u (release user (taken_counts user n l)).counts
      ≡ (if bytes_beq user u then n +ℤ minus_one else load u l.counts)
release-taken_counts user u n l =
    let found : Dict.lookup user (taken_counts user n l).counts ≡ some n =
      (unfold taken_counts in
        Dict.lookup-insert user user n (counter_for user l.counts) ∙ rw (eq_self user)) in
    ground (
      arith,
      release_found user u (taken_counts user n l) found,
      load-taken_counts user u n l,
      load-taken_counts user user n l,
      bytes_beq_iff user user,
    )

+ℤ-undo : (n : ℤ) → n +ℤ pos 1 +ℤ minus_one ≡ n
+ℤ-undo n = omega int_laws

-- `Release` after a successful `Acquire` gives back every count.
pub release-acquire :
    (user u : Bytes) (l : ConnLimiter)
    → (acquire user l).1 ≡ true
    → load u (release user (acquire user l).0).counts ≡ load u l.counts
release-acquire user u l h = elim (Bool-cases (leb_ℤ l.max (load user l.counts))) [
  | inl full ↦ ground (arith, acquire_full user l full)
  | inr room ↦ rw (acquire_room user l room) (
      ground (
        arith,
        release-taken_counts user u (load user l.counts +ℤ pos 1) l,
        +ℤ-undo (load user l.counts),
        bytes_beq_iff user u,
      ))
]
