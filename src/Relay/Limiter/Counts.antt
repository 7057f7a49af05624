-- ===== src/Relay/Limiter/Counts.antt =====
-- Laws of the counters, with the dictionary shut.
use rootenv.Common.{
  ℕ, suc, ◌+◌, get_elem?, refl, ◌∙◌, ◌≡◌, ap, none, some, Option-cases, Bool-cases, inl, inr, Bytes,
  bytes_eq, bytes_beq, bytes_beq_iff, if◌then◌else◌, [], ◌∷◌, arith,
}
use rootenv.Common.Dict
use rootenv.Common.Dict.{Dict}
use rootenv.Common.Int.{ℤ, pos, pos_part, neg_part, ◌+ℤ◌, int_laws}
use rootenv.Relay.Limiter.{ConnLimiter, counter_for, load, sum, sum_from, total}

pub load-insert :
    (j k : Bytes) (n : ℤ) (d : Dict Bytes ℤ)
    → load j (Dict.insert k n d) ≡ (if bytes_beq k j then n else load j d)
load-insert j k n d = Dict.get_or-insert j k (pos 0) n d

pub load_missing : (k : Bytes) (d : Dict Bytes ℤ) → Dict.lookup k d ≡ none → load k d ≡ pos 0
load_missing k d h = rw (Dict.get_or-lookup k (pos 0) d) (ground arith)

-- Making a counter changes no count.
pub load-counter_for : (j k : Bytes) (d : Dict Bytes ℤ) → load j (counter_for k d) ≡ load j d
unfolding counter_for
load-counter_for j k d =
    ground (arith, load-insert j k (pos 0) d, load_missing k d, bytes_beq_iff k j)

pub lookup-counter_for :
    (j k : Bytes) (d : Dict Bytes ℤ)
    → Dict.lookup k d ≡ none
    → Dict.lookup j (counter_for k d) ≡ (if bytes_beq k j then some (pos 0) else Dict.lookup j d)
unfolding counter_for
lookup-counter_for j k d h = ground (arith, Dict.lookup-insert j k (pos 0) d)

-- A write moves the sum by what it changes.
pub sum-insert :
    (k : Bytes) (n : ℤ) (d : Dict Bytes ℤ) → sum (Dict.insert k n d) +ℤ load k d ≡ sum d +ℤ n
unfolding sum Dict.insert Dict.get_or
sum-insert k n [] = omega int_laws
sum-insert k n ((j, m) ∷ d) = elim (Bool-cases (bytes_beq j k)) [
  | inl same ↦ rw same (omega int_laws)
  | inr other ↦
      rw other (let ih = sum-insert k n d in omega (int_laws, ap pos_part ih, ap neg_part ih))
]

pub sum-counter_for : (k : Bytes) (d : Dict Bytes ℤ) → sum (counter_for k d) ≡ sum d
unfolding counter_for
sum-counter_for k d = elim (Option-cases (Dict.lookup k d)) [
  | inl new ↦
      let same = rw (load_missing k d new) at (sum-insert k (pos 0) d) in
      rw (new, counter_for) (omega (int_laws, ap pos_part same, ap neg_part same))
  | inr (_, old) ↦ rw (old, counter_for)
]

sum_from_still :
    (l : ConnLimiter) (d : Dict Bytes ℤ) (i : ℕ)
    → ((j : ℕ) → get_elem? l.counts (i + j) ≡ get_elem? d j)
    → sum_from (λ _. l) i d ≡ sum d
unfolding sum_from sum
sum_from_still l [] i h = refl
sum_from_still l ((k, n) ∷ d) i h =
    let here : get_elem? l.counts i ≡ some (k, n) = ap (get_elem? l.counts) (omega arith) ∙ h 0 in
    let rest =
      sum_from_still l d (suc i) (λ j. ap (get_elem? l.counts) (omega arith) ∙ h (suc j)) in
    rw (here, rest) refl

-- Where no one moves a counter while it runs, `Total` gives the sum of the counters.
pub total_still : (l : ConnLimiter) → total (λ _. l) ≡ sum l.counts
unfolding total
total_still l = sum_from_still l l.counts 0 (λ j. ap (get_elem? l.counts) (omega arith))
