-- ===== src/Operator/RelayConfig/Laws.antt =====
-- When a relay's route keeps the middleware that authenticates its users.
use rootenv.Common.Dict
use rootenv.Common.Dict.{Dict, lookup-insert}
use rootenv.Common.{
  ◌≡◌, ◌≢◌, refl, ◌∙◌, Option, none, some, List, [], ◌∷◌, Bytes, bytes_eq, beq_of_ne, arith,
  eq_self,
}
use rootenv.Operator.RelayConfig.{entry_of, add_entry, add_tokens, add_raw}
use rootenv.Text.{split}

-- What an entry sets is not the key.
abbrev pub Spares : Bytes → Option (Bytes × Bytes) → Type 0
Spares key none = Unit
Spares key (some (k, v)) = k ≢ key

abbrev pub AllSpare : Bytes → List Bytes → Type 0
AllSpare key [] = Unit
AllSpare key (t ∷ ts) = Spares key (entry_of t) × AllSpare key ts

add_entry-Spares :
    (key : Bytes) (e : Option (Bytes × Bytes)) (d : Dict Bytes Bytes)
    → Spares key e
    → Dict.lookup key (add_entry e d) ≡ Dict.lookup key d
unfolding add_entry
add_entry-Spares key none d h = refl
add_entry-Spares key (some (k, v)) d h = lookup-insert key k v d ∙ rw (beq_of_ne k key h) refl

add_tokens-AllSpare :
    (key : Bytes) (ts : List Bytes) (d : Dict Bytes Bytes)
    → AllSpare key ts
    → Dict.lookup key (add_tokens ts d) ≡ Dict.lookup key d
unfolding add_tokens
add_tokens-AllSpare key [] d h = refl
add_tokens-AllSpare key (t ∷ ts) d (s, h) =
    add_tokens-AllSpare key ts (add_entry (entry_of t) d) h ∙ add_entry-Spares key (entry_of t) d s

pub add_raw-AllSpare :
    (key raw : Bytes) (d : Dict Bytes Bytes)
    → AllSpare key (split b',' raw)
    → Dict.lookup key (add_raw raw d) ≡ Dict.lookup key d
unfolding add_raw
add_raw-AllSpare key raw d h = ground (arith, add_tokens-AllSpare key (split b',' raw) d h)

pub lookup-first : (k v : Bytes) → Dict.lookup k ((k, v) ∷ []) ≡ some v
unfolding Dict.lookup
lookup-first k v = rw (eq_self k) refl
