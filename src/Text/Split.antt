-- ===== src/Text/Split.antt =====
-- Laws of cutting and splitting at a byte.
use rootenv.Common.{
  ℕ, suc, ◌≡◌, refl, ◌≢◌, ◌∙◌, Option, none, some, List, [], ◌∷◌, ◌++◌, Bytes, nat_eq, arith,
}
use rootenv.Text.{cut, split_n}

-- The byte does not occur in the text.
abbrev pub IsFree : ℕ → Bytes → Type 0
IsFree sep [] = Unit
IsFree sep (c ∷ cs) = (c ≢ sep) × IsFree sep cs

-- What stands behind the piece before the first separator.
abbrev pub tail_text : ℕ → Option Bytes → Bytes
tail_text sep none = []
tail_text sep (some r) = sep ∷ r

pub cut-IsFree : (sep : ℕ) (s : Bytes) → IsFree sep (cut sep s).0
unfolding cut
cut-IsFree sep [] = tt
cut-IsFree sep (c ∷ cs) = ground (arith, cut-IsFree sep cs)

pub cut-append : (sep : ℕ) (s : Bytes) → s ≡ (cut sep s).0 ++ tail_text sep (cut sep s).1
unfolding cut
cut-append sep [] = refl
cut-append sep (c ∷ cs) = ground (arith, cut-append sep cs)

-- A text with a piece free of the separator in front is cut behind that piece.
pub cut-IsFree-append :
    (sep : ℕ) (p : Bytes) (r : Option Bytes)
    → IsFree sep p
    → cut sep (p ++ tail_text sep r) ≡ (p, r)
unfolding cut
cut-IsFree-append sep [] none h = refl
cut-IsFree-append sep [] (some r) h = ground arith
cut-IsFree-append sep (c ∷ p) r h = ground (arith, cut-IsFree-append sep p r h.1)

abbrev pub split_after : ℕ → ℕ → Option Bytes → List Bytes
split_after sep n none = []
split_after sep n (some r) = split_n sep r (suc n)

-- `SplitN` is a cut, and the rest split into one piece less.
pub split_n-cut :
    (sep : ℕ) (s : Bytes) (n : ℕ)
    → split_n sep s (suc (suc n)) ≡ (cut sep s).0 ∷ split_after sep n (cut sep s).1
unfolding split_n cut
split_n-cut sep [] n = refl
split_n-cut sep (c ∷ cs) n = ground (arith, split_n-cut sep cs n)

-- A text is its first piece and what is behind it, and `SplitN` goes on there.
pub record Piece (sep : ℕ) (s : Bytes) (n : ℕ) : Type 0 where
  pub first : Bytes
  pub after : Option Bytes
  pub first_free : IsFree sep first
  pub text_is : s ≡ first ++ tail_text sep after
  pub pieces : split_n sep s (suc (suc n)) ≡ first ∷ split_after sep n after

pub piece : (sep : ℕ) (s : Bytes) (n : ℕ) → Piece sep s n
piece sep s n = record {
  first = (cut sep s).0;
  after = (cut sep s).1;
  first_free = cut-IsFree sep s;
  text_is = cut-append sep s;
  pieces = split_n-cut sep s n;
}

pub split_n-IsFree-append :
    (sep : ℕ) (p : Bytes) (r : Option Bytes) (n : ℕ)
    → IsFree sep p
    → split_n sep (p ++ tail_text sep r) (suc (suc n)) ≡ p ∷ split_after sep n r
split_n-IsFree-append sep p r n f =
    split_n-cut sep (p ++ tail_text sep r) n ∙ rw (cut-IsFree-append sep p r f)

pub IsFree-append : (sep : ℕ) (a b : Bytes) → IsFree sep a → IsFree sep b → IsFree sep (a ++ b)
IsFree-append sep [] b h k = k
IsFree-append sep (c ∷ a) b (ne, h) k = (ne, IsFree-append sep a b h k)
