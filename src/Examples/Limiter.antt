-- ===== src/Examples/Limiter.antt =====
-- Three connections of one user against a limit of two, interleaved.
use rootenv.Common.{ℕ, ◌≤◌, ◌≡◌, refl, List, [], ◌∷◌, Bytes, codes, bytes_beq, bytes_eq}
use rootenv.Common.Dict
use rootenv.Common.Int.{pos, ◌+ℤ◌}
use rootenv.Relay.Limiter.Goroutines.{run, step, advance, slots, active}
use rootenv.Relay.Limiter.Invariant.{initial, run_bounded}
use rootenv.Relay.Limiter.{new_conn_limiter, load, counter_for, add, compare_and_swap, total}

abbrev ann : Bytes
ann = codes "ann"

abbrev crowd : List Bytes
crowd = ann ∷ ann ∷ ann ∷ codes "bob" ∷ []

-- The first two load 0; the first swap wins, the second is lost and tried again, the third is
-- refused.
abbrev clash : List ℕ
clash = 0 ∷ 1 ∷ 2 ∷ 0 ∷ 1 ∷ 0 ∷ 1 ∷ 1 ∷ 1 ∷ 2 ∷ 2 ∷ 3 ∷ 3 ∷ 3 ∷ 0 ∷ 0 ∷ []

clash_counts :
    (run (initial (pos 2) crowd) clash).limiter.counts ≡ (ann, pos 1) ∷ (codes "bob", pos 1) ∷ []
unfolding run step advance counter_for add compare_and_swap new_conn_limiter Dict.lookup Dict.insert
    Dict.get_or ◌+ℤ◌ bytes_beq
clash_counts = refl

run_bounded_example :
    let s = run (initial (pos 2) crowd) clash in
    (load ann s.limiter.counts ≡ pos (slots ann s.goroutines))
    × (slots ann s.goroutines ≤ 2)
    × (total (λ _. s.limiter) ≡ pos (active s.goroutines))
run_bounded_example = run_bounded (pos 2) crowd clash ann
