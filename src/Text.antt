-- ===== src/Text.antt =====
-- What the services use of Go's `strings` package, on byte strings.
pub mod Split
use Prim.Native.Nat.{pred}
use rootenv.Common.{
  ℕ, zero, suc, Bool, true, false, ◌||◌, Option, none, some, List, [], ◌∷◌, ◌++◌, Bytes, ◌==◌,
  nat_eq, leb, ◌&&◌, if◌then◌else◌,
}

abbrev pub slash : ℕ
slash = b'/'

abbrev pub newline : ℕ
newline = b'\n'

-- `strings.TrimLeftFunc`
unfoldable pub trim_left : (ℕ → Bool) → Bytes → Bytes
trim_left p [] = []
trim_left p (c ∷ cs) = let rest = trim_left p cs in if p c then rest else c ∷ cs

-- A byte in front of what is left of the text behind it.
abbrev pub keep_before : (ℕ → Bool) → ℕ → Bytes → Bytes
keep_before p c [] = if p c then [] else c ∷ []
keep_before p c (d ∷ ds) = c ∷ d ∷ ds

-- `strings.TrimRightFunc`
unfoldable pub trim_right : (ℕ → Bool) → Bytes → Bytes
trim_right p [] = []
trim_right p (c ∷ cs) = keep_before p c (trim_right p cs)

unfoldable pub trim : (ℕ → Bool) → Bytes → Bytes
unfolding trim_left trim_right
trim p s = trim_right p (trim_left p s)

abbrev pub is_slash : ℕ → Bool
is_slash c = c == slash

-- White space, for texts in ASCII.
abbrev pub is_space : ℕ → Bool
is_space c = c == b' ' || (leb 9 c && leb c 13)

-- `strings.TrimSpace`
unfoldable pub trim_space : Bytes → Bytes
unfolding trim
trim_space = trim is_space

-- What stands behind a prefix.
unfoldable pub strip_prefix? : Bytes → Bytes → Option Bytes
strip_prefix? [] s = some s
strip_prefix? (c ∷ p) [] = none
strip_prefix? (c ∷ p) (d ∷ s) = let rest = strip_prefix? p s in if c == d then rest else none

abbrev pub or_else {ℓ} : {A : Type ℓ} → Option A → A → A
or_else none d = d
or_else (some a) d = a

-- `strings.HasPrefix` and `strings.TrimPrefix`
abbrev pub is_some {ℓ} : {A : Type ℓ} → Option A → Bool
is_some none = false
is_some (some _) = true

abbrev pub has_prefix : Bytes → Bytes → Bool
has_prefix s p = is_some (strip_prefix? p s)

abbrev pub trim_prefix : Bytes → Bytes → Bytes
trim_prefix s p = or_else (strip_prefix? p s) s

-- A byte in front of the first piece.
abbrev pub before_first : ℕ → List Bytes → List Bytes
before_first c [] = (c ∷ []) ∷ []
before_first c (p ∷ ps) = (c ∷ p) ∷ ps

-- `strings.SplitN(s, sep, n)` for a separator of one byte; `zero` gives no piece.
unfoldable pub split_n : ℕ → Bytes → ℕ → List Bytes
split_n sep s zero = []
split_n sep s (suc zero) = s ∷ []
split_n sep [] (suc (suc n)) = [] ∷ []
split_n sep (c ∷ cs) (suc (suc n)) =
    if c == sep then [] ∷ split_n sep cs (suc n) else before_first c (split_n sep cs (suc (suc n)))

-- `strings.Split(s, sep)` for a separator of one byte
unfoldable pub split : ℕ → Bytes → List Bytes
split sep [] = [] ∷ []
split sep (c ∷ cs) = let rest = split sep cs in if c == sep then [] ∷ rest else before_first c rest

-- `strings.Join(parts, sep)` for a separator of one byte
unfoldable pub join : ℕ → List Bytes → Bytes
join sep [] = []
join sep (p ∷ []) = p
join sep (p ∷ q ∷ ps) = p ++ (sep ∷ join sep (q ∷ ps))

-- `strings.Cut` at a byte: what stands before its first occurrence, and what behind it.
unfoldable pub cut : ℕ → Bytes → Bytes × Option Bytes
cut sep [] = ([], none)
cut sep (c ∷ cs) =
    let (before, after) = cut sep cs in if c == sep then ([], some cs) else (c ∷ before, after)
