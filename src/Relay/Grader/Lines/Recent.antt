-- ===== src/Relay/Grader/Lines/Recent.antt =====
-- Lines that are dropped early would have been dropped later.
use mathlib.Core.List.{append-nil}
use rootenv.Common.{
  ℕ, zero, suc, ◌+◌, ◌-◌, ◌≤◌, ◌≡◌, refl, ap, sym, ◌∙◌, List, [], ◌∷◌, ◌++◌, Bytes, nat_eq, length,
  drop, length-append, length-drop, arith,
}
use rootenv.Relay.Grader.Lines.{recent, ring_capacity}

module _ {ℓ} {A : Type ℓ} where
  drop-length : (xs ys : List A) (k : ℕ) → k ≤ length xs → drop k (xs ++ ys) ≡ drop k xs ++ ys
  drop-length xs ys zero h = refl
  drop-length [] ys (suc k) h = absurd (omega arith)
  drop-length (x ∷ xs) ys (suc k) h = drop-length xs ys k (omega arith)

  drop-nil : (k : ℕ) → drop {A = A} k [] ≡ []
  drop-nil zero = refl
  drop-nil (suc k) = refl

  drop-drop : (i k n : ℕ) (xs : List A) → n ≡ k + i → drop i (drop k xs) ≡ drop n xs
  drop-drop i zero n xs h = ap (λ j. drop j xs) (omega arith)
  drop-drop i (suc k) n [] h = drop-nil i ∙ sym (drop-nil n)
  drop-drop i (suc k) zero (x ∷ xs) h = absurd (omega arith)
  drop-drop i (suc k) (suc n) (x ∷ xs) h = drop-drop i k n xs (omega arith)

-- Keeping the newest lines before more are added makes no difference in the end.
pub recent-append : (a b : List Bytes) → recent (recent a ++ b) ≡ recent (a ++ b)
unfolding recent
recent-append a b =
    let k = length a - ring_capacity in
    ap (λ ls. drop (length (drop k a ++ b) - ring_capacity) ls)
      (sym (drop-length a b k (omega arith)))
    ∙ drop-drop (length (drop k a ++ b) - ring_capacity) k _ (a ++ b)
        (omega (arith, length-append (drop k a) b, length-append a b, length-drop k a))

pub recent-recent : (a : List Bytes) → recent (recent a) ≡ recent a
recent-recent a =
    ap recent (sym (append-nil (recent a))) ∙ recent-append a [] ∙ ap recent (append-nil a)
