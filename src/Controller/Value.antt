-- ===== src/Controller/Value.antt =====
-- Decoded JSON, Go's `any` where the controller looks into it.
use rootenv.Common.{◌≡◌, refl, ap, Bool, List, [], ◌∷◌, Bytes, bytes_eq, ◌==◌, if◌then◌else◌}
use rootenv.Common.Int.{ℤ}

mutual
  pub data Value : Type 0 where
    null : Value
    boolean : Bool → Value
    number : ℤ → Value
    text : Bytes → Value
    array : Values → Value
    object : Fields → Value

  pub data Values : Type 0 where
    no_items : Values
    item : Value → Values → Values

  pub data Fields : Type 0 where
    no_fields : Fields
    field : Bytes → Value → Fields → Fields

-- `m[k]`, `null` (Go's nil) where the key is missing
unfoldable pub get : Bytes → Fields → Value
get k no_fields = null
get k (field j v fs) = if j == k then v else get k fs

-- `v.(string)` without its flag
abbrev pub as_string : Value → Bytes
as_string (text s) = s
as_string _ = []

-- `v.([]any)` without its flag
abbrev pub as_array : Value → Values
as_array (array vs) = vs
as_array _ = no_items

-- The strings of a list, all else skipped.
unfoldable pub strings : Values → List Bytes
strings no_items = []
strings (item (text s) vs) = s ∷ strings vs
strings (item null vs) = strings vs
strings (item (boolean b) vs) = strings vs
strings (item (number n) vs) = strings vs
strings (item (array xs) vs) = strings vs
strings (item (object fs) vs) = strings vs

-- A `[]string` as JSON
abbrev pub texts : List Bytes → Values
texts [] = no_items
texts (s ∷ ss) = item (text s) (texts ss)

pub strings-texts : (ss : List Bytes) → strings (texts ss) ≡ ss
unfolding strings
strings-texts [] = refl
strings-texts (s ∷ ss) = ap (◌∷◌ s) (strings-texts ss)
