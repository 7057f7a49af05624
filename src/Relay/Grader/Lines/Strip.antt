-- ===== src/Relay/Grader/Lines/Strip.antt =====
-- The escape filter as a machine that reads byte by byte.
use mathlib.Core.List.{append_assoc, append-nil}
use rootenv.Common.{
  ℕ, zero, suc, ◌≡◌, refl, ◌≢◌, ap, sym, ◌∙◌, true, false, inl, inr, Bool-cases, Option, none, some,
  [], ◌∷◌, ◌++◌, Bytes, ◌==◌, nat_eq, nat_beq, nat_beq_iff, beq_of_ne, length, if◌then◌else◌, arith,
}
use rootenv.Relay.Grader.Lines.{
  escape, is_letter, is_parameter, parameters_length, escape_length, strip_from, strip_ansi,
}

-- Outside of a sequence, behind its escape byte, and in its parameters, which are kept.
pub data Mode : Type 0 where
  text opened : Mode
  parameters : Bytes → Mode

-- The bytes of the sequence read so far.
abbrev pub pending : Mode → Bytes
pending text = []
pending opened = escape ∷ []
pending (parameters ps) = escape ∷ b'[' ∷ ps

abbrev pub ArePlain : Bytes → Type 0
ArePlain [] = Unit
ArePlain (c ∷ cs) = (c ≢ escape) × ArePlain cs

abbrev pub AreParameters : Bytes → Type 0
AreParameters [] = Unit
AreParameters (c ∷ cs) = (is_parameter c ≡ true) × AreParameters cs

abbrev pub IsSound : Mode → Type 0
IsSound (parameters ps) = AreParameters ps
IsSound _ = Unit

-- One byte: what is put out, and the next mode; `none` where an escape byte begins no sequence.
unfoldable pub feed_byte : Mode → ℕ → Option (Bytes × Mode)
feed_byte text c = if c == escape then some ([], opened) else some (c ∷ [], text)
feed_byte opened c = if c == b'[' then some ([], parameters []) else none
feed_byte (parameters ps) c =
    if is_letter c
    then some ([], text)
    else if is_parameter c
    then some ([], parameters (ps ++ c ∷ []))
    else none

abbrev pub put_before : Bytes → Option (Bytes × Mode) → Option (Bytes × Mode)
put_before o none = none
put_before o (some (p, m)) = some (o ++ p, m)

unfoldable pub feed : Mode → Bytes → Option (Bytes × Mode)
feed m [] = some ([], m)
feed m (c ∷ cs) = elim (feed_byte m c) [ none ↦ none | some (o, m') ↦ put_before o (feed m' cs) ]

strip_from_skip :
    (ps : Bytes) (c : ℕ) (x : Bytes)
    → strip_from (suc (length ps)) (ps ++ (c ∷ x)) ≡ strip_from zero x
unfolding strip_from
strip_from_skip [] c x = refl
strip_from_skip (p ∷ ps) c x = strip_from_skip ps c x

not-is_letter : (c : ℕ) → is_parameter c ≡ true → is_letter c ≡ false
unfolding is_parameter is_letter
not-is_letter c h = ground arith

parameters_length_lem :
    (ps : Bytes) (c : ℕ) (x : Bytes)
    → AreParameters ps
    → is_letter c ≡ true
    → parameters_length (ps ++ (c ∷ x)) ≡ some (suc (length ps))
unfolding parameters_length
parameters_length_lem [] c x h l = rw l
parameters_length_lem (p ∷ ps) c x (hp, h) l =
    rw (not-is_letter p hp, hp, parameters_length_lem ps c x h l)

parameter-ne-escape : (c : ℕ) → is_parameter c ≡ true → c ≢ escape
unfolding is_parameter
parameter-ne-escape c h = ground arith

-- What a byte's effect says of the filter, before any rest.
abbrev Follows : Mode → ℕ → Option (Bytes × Mode) → Type 0
Follows m c none = Unit
Follows m c (some (o, m')) =
    ((x : Bytes) → strip_ansi (pending m ++ (c ∷ x)) ≡ o ++ strip_ansi (pending m' ++ x))
    × IsSound m'
    × ArePlain o

strip-plain : (c : ℕ) (x : Bytes) → nat_beq c escape ≡ false → strip_ansi (c ∷ x) ≡ c ∷ strip_ansi x
unfolding strip_ansi strip_from
strip-plain c x h = ground arith

strip-sequence :
    (ps : Bytes) (c : ℕ) (x : Bytes)
    → AreParameters ps
    → is_letter c ≡ true
    → strip_ansi (escape ∷ b'[' ∷ (ps ++ (c ∷ x))) ≡ strip_ansi x
unfolding strip_ansi strip_from escape_length
strip-sequence ps c x h l = rw (parameters_length_lem ps c x h l) (strip_from_skip ps c x)

AreParameters-concat :
    (ps : Bytes) (c : ℕ) → AreParameters ps → is_parameter c ≡ true → AreParameters (ps ++ c ∷ [])
AreParameters-concat [] c h p = (p, tt)
AreParameters-concat (q ∷ ps) c (hq, h) p = (hq, AreParameters-concat ps c h p)

feed_byte-Follows : (m : Mode) (c : ℕ) → IsSound m → Follows m c (feed_byte m c)
unfolding feed_byte
feed_byte-Follows text c s = elim (Bool-cases (nat_beq c escape)) [
  | inl e ↦
      rw (e, feed_byte) ((λ x. ap (λ d. strip_ansi (d ∷ x)) ((nat_beq_iff c escape).0 e)), tt, tt)
  | inr e ↦ rw (e, feed_byte) ((λ x. strip-plain c x e), tt, (ground arith, tt))
]
feed_byte-Follows opened c s = elim (Bool-cases (nat_beq c b'[')) [
  | inl e ↦
      rw (e, feed_byte)
        ((λ x. ap (λ d. strip_ansi (escape ∷ d ∷ x)) ((nat_beq_iff c b'[').0 e)), tt, tt)
  | inr e ↦ rw (e, feed_byte) tt
]
feed_byte-Follows (parameters ps) c s = elim (Bool-cases (is_letter c)) [
  | inl l ↦ rw (l, feed_byte) ((λ x. strip-sequence ps c x s l), tt, tt)
  | inr l ↦ elim (Bool-cases (is_parameter c)) [
    | inl p ↦
        rw (l, p, feed_byte)
          (
            (λ x. ap (λ t. strip_ansi (escape ∷ b'[' ∷ t)) (sym (append_assoc ps (c ∷ []) x))),
            AreParameters-concat ps c s p,
            tt,
          )
    | inr p ↦ rw (l, p, feed_byte) tt
  ]
]

ArePlain-append : (a b : Bytes) → ArePlain a → ArePlain b → ArePlain (a ++ b)
ArePlain-append [] b h k = k
ArePlain-append (c ∷ a) b (ne, h) k = (ne, ArePlain-append a b h k)

-- What a text's effect says of the filter, before any rest.
abbrev pub FollowsAll : Mode → Bytes → Option (Bytes × Mode) → Type 0
FollowsAll m s none = Unit
FollowsAll m s (some (o, m')) =
    ((x : Bytes) → strip_ansi (pending m ++ (s ++ x)) ≡ o ++ strip_ansi (pending m' ++ x))
    × IsSound m'
    × ArePlain o

both_follow :
    (m m' : Mode) (c : ℕ) (cs o : Bytes) (q : Option (Bytes × Mode))
    → Follows m c (some (o, m'))
    → FollowsAll m' cs q
    → FollowsAll m (c ∷ cs) (put_before o q)
both_follow m m' c cs o none f g = tt
both_follow m m' c cs o (some (p, n)) (f, _, plain) (g, sound, plain') = (
  λ x. f (cs ++ x) ∙ ap (◌++◌ o) (g x) ∙ sym (append_assoc o p (strip_ansi (pending n ++ x))),
  sound,
  ArePlain-append o p plain plain',
)

then_follow :
    (m : Mode) (c : ℕ) (cs : Bytes) (r : Option (Bytes × Mode))
    → Follows m c r
    → ((m' : Mode) → IsSound m' → FollowsAll m' cs (feed m' cs))
    → FollowsAll m (c ∷ cs) (elim r [ none ↦ none | some (o, m') ↦ put_before o (feed m' cs) ])
then_follow m c cs none f g = tt
then_follow m c cs (some (o, m')) f g = both_follow m m' c cs o (feed m' cs) f (g m' f.1)

pub feed-FollowsAll : (m : Mode) (s : Bytes) → IsSound m → FollowsAll m s (feed m s)
unfolding feed
feed-FollowsAll m [] sound = (λ x. refl, sound, tt)
feed-FollowsAll m (c ∷ cs) sound =
    then_follow m c cs (feed_byte m c) (feed_byte-Follows m c sound)
      (λ m' s. feed-FollowsAll m' cs s)

parameters_length-none : (ps : Bytes) → AreParameters ps → parameters_length ps ≡ none
unfolding parameters_length
parameters_length-none [] h = refl
parameters_length-none (p ∷ ps) (hp, h) = rw (not-is_letter p hp, hp, parameters_length-none ps h)

pub strip-ArePlain : (s x : Bytes) → ArePlain s → strip_ansi (s ++ x) ≡ s ++ strip_ansi x
strip-ArePlain [] x h = refl
strip-ArePlain (c ∷ s) x (ne, h) =
    strip-plain c (s ++ x) (beq_of_ne c escape ne) ∙ ap (◌∷◌ c) (strip-ArePlain s x h)

AreParameters-ArePlain : (ps : Bytes) → AreParameters ps → ArePlain ps
AreParameters-ArePlain [] h = tt
AreParameters-ArePlain (p ∷ ps) (hp, h) = (parameter-ne-escape p hp, AreParameters-ArePlain ps h)

strip-unfinished :
    (ps : Bytes)
    → AreParameters ps
    → strip_ansi (escape ∷ b'[' ∷ ps) ≡ escape ∷ b'[' ∷ strip_ansi ps
unfolding strip_ansi strip_from escape_length
strip-unfinished ps h = rw (parameters_length-none ps h)

strip-nil : strip_ansi [] ≡ []
unfolding strip_ansi strip_from
strip-nil = refl

strip-escape : strip_ansi (escape ∷ []) ≡ escape ∷ []
unfolding strip_ansi strip_from escape_length
strip-escape = refl

-- An unfinished sequence stays as it is.
pub strip-pending : (m : Mode) → IsSound m → strip_ansi (pending m) ≡ pending m
strip-pending text s = strip-nil
strip-pending opened s = strip-escape
strip-pending (parameters ps) s =
    strip-unfinished ps s
    ∙ ap (λ t. escape ∷ b'[' ∷ t)
        (rw (append-nil, strip-nil, append-nil) at
          (strip-ArePlain ps [] (AreParameters-ArePlain ps s)))
