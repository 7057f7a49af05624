-- ===== src/Relay/Grader/Lines/Cut.antt =====
-- A text's complete lines and what is behind them, from its end.
use rootenv.Common.{
  ℕ, ◌≡◌, refl, ◌≢◌, ap, sym, ◌∙◌, true, false, inl, inr, Bool-cases, List, [], ◌∷◌, ◌++◌, Bytes,
  ◌==◌, nat_eq, nat_beq, if◌then◌else◌, arith,
}
use rootenv.Relay.Grader.Lines.{split_lines, all_but_last, last}
use rootenv.Text.Split.{IsFree}
use rootenv.Text.{newline, split, before_first}

-- Cutting a text into its complete lines and the rest, from its end.
abbrev before_line : ℕ → List Bytes × Bytes → List Bytes × Bytes
before_line c ([], r) = ([], c ∷ r)
before_line c (l ∷ ls, r) = ((c ∷ l) ∷ ls, r)

abbrev pub cut_lines : Bytes → List Bytes × Bytes
cut_lines [] = ([], [])
cut_lines (c ∷ cs) =
    let rest = cut_lines cs in if c == newline then ([] ∷ rest.0, rest.1) else before_line c rest

unfoldable pub lines_and_rest : List Bytes → List Bytes × Bytes
lines_and_rest ss = (all_but_last ss, last ss)

before_first-ne-nil : (c : ℕ) (ss : List Bytes) → before_first c ss ≢ []
before_first-ne-nil c [] = λ h. cc
before_first-ne-nil c (s ∷ ss) = λ h. cc

split-ne-nil : (s : Bytes) → split newline s ≢ []
unfolding split
split-ne-nil [] = λ h. cc
split-ne-nil (c ∷ cs) = ground (arith, before_first-ne-nil c (split newline cs))

line_at_front :
    (c : ℕ) (ss : List Bytes)
    → ss ≢ []
    → lines_and_rest (before_first c ss) ≡ before_line c (lines_and_rest ss)
unfolding lines_and_rest all_but_last last
line_at_front c [] h = absurd (h refl)
line_at_front c (s ∷ []) h = refl
line_at_front c (s ∷ t ∷ ss) h = refl

newline_at_front :
    (ss : List Bytes)
    → ss ≢ []
    → lines_and_rest ([] ∷ ss) ≡ ([] ∷ (lines_and_rest ss).0, (lines_and_rest ss).1)
unfolding lines_and_rest all_but_last last
newline_at_front [] h = absurd (h refl)
newline_at_front (t ∷ ss) h = refl

split-cut_lines : (s : Bytes) → lines_and_rest (split newline s) ≡ cut_lines s
unfolding split
split-cut_lines [] = unfold lines_and_rest all_but_last last in refl
split-cut_lines (c ∷ cs) = elim (Bool-cases (nat_beq c newline)) [
  | inl e ↦
      rw (e, split)
        (newline_at_front (split newline cs) (split-ne-nil cs)
          ∙ ap (λ p. ([] ∷ p.0, p.1)) (split-cut_lines cs))
  | inr e ↦
      rw (e, split)
        (line_at_front c (split newline cs) (split-ne-nil cs)
          ∙ ap (before_line c) (split-cut_lines cs))
]

pub split_lines-cut_lines : (s : Bytes) → lines_and_rest (split_lines s) ≡ cut_lines s
unfolding split_lines
split_lines-cut_lines [] = unfold lines_and_rest all_but_last last in refl
split_lines-cut_lines (c ∷ cs) = split-cut_lines (c ∷ cs)

abbrev pub after_lines : List Bytes → List Bytes × Bytes → List Bytes × Bytes
after_lines ls (ms, r) = (ls ++ ms, r)

before_line-after_lines :
    (c : ℕ) (l : Bytes) (ls : List Bytes) (q : List Bytes × Bytes)
    → before_line c (after_lines (l ∷ ls) q) ≡ after_lines ((c ∷ l) ∷ ls) q
before_line-after_lines c l ls (ms, r) = refl

cut_lines-line :
    (c : ℕ) (s : Bytes)
    → nat_beq c newline ≡ false
    → cut_lines (c ∷ s) ≡ before_line c (cut_lines s)
cut_lines-line c s h = ground arith

cut_lines-newline :
    (c : ℕ) (s : Bytes)
    → nat_beq c newline ≡ true
    → cut_lines (c ∷ s) ≡ ([] ∷ (cut_lines s).0, (cut_lines s).1)
cut_lines-newline c s h = ground arith

within_line :
    (c : ℕ) (b : Bytes) (whole p : List Bytes × Bytes)
    → nat_beq c newline ≡ false
    → whole ≡ after_lines p.0 (cut_lines (p.1 ++ b))
    → before_line c whole ≡ after_lines (before_line c p).0 (cut_lines ((before_line c p).1 ++ b))
within_line c b whole ([], r) h ih = ap (before_line c) ih ∙ sym (cut_lines-line c (r ++ b) h)
within_line c b whole (l ∷ ls, r) h ih =
    ap (before_line c) ih ∙ before_line-after_lines c l ls (cut_lines (r ++ b))

-- What is cut off first stays cut off.
pub cut_lines-append :
    (a b : Bytes)
    → cut_lines (a ++ b) ≡ after_lines (cut_lines a).0 (cut_lines ((cut_lines a).1 ++ b))
cut_lines-append [] b = refl
cut_lines-append (c ∷ a) b = elim (Bool-cases (nat_beq c newline)) [
  | inl e ↦
      cut_lines-newline c (a ++ b) e
      ∙ ap (λ q. ([] ∷ q.0, q.1)) (cut_lines-append a b)
      ∙ ap (λ p. after_lines p.0 (cut_lines (p.1 ++ b))) (sym (cut_lines-newline c a e))
  | inr e ↦
      cut_lines-line c (a ++ b) e
      ∙ within_line c b (cut_lines (a ++ b)) (cut_lines a) e (cut_lines-append a b)
      ∙ ap (λ p. after_lines p.0 (cut_lines (p.1 ++ b))) (sym (cut_lines-line c a e))
]

pub cut_lines-IsFree : (s : Bytes) → IsFree newline s → cut_lines s ≡ ([], s)
cut_lines-IsFree [] h = refl
cut_lines-IsFree (c ∷ cs) (ne, h) = ground (arith, cut_lines-IsFree cs h)

pub rest-IsFree : (s : Bytes) → IsFree newline (cut_lines s).1
rest-IsFree [] = tt
rest-IsFree (c ∷ cs) = ground (arith, rest-IsFree cs)
