-- ===== src/Relay/Grader/Lines.antt =====
-- services/relay/grader/lines.go: the buffer of one asset's recent lines.
pub mod Strip
pub mod Recent
pub mod Cut
pub mod Stream
pub mod Chunks
use mathlib.Core.Option
use rootenv.Common.{
  ℕ, zero, suc, ◌-◌, Bool, true, false, ◌&&◌, ◌||◌, Option, none, some, List, [], ◌∷◌, ◌++◌, Bytes,
  ◌==◌, nat_eq, leb, length, drop, if◌then◌else◌,
}
use rootenv.Text.{newline, split, join}

abbrev pub escape : ℕ
escape = 0x1b

unfoldable pub is_letter : ℕ → Bool
is_letter c = (leb b'a' c && leb c b'z') || (leb b'A' c && leb c b'Z')

unfoldable pub is_parameter : ℕ → Bool
is_parameter c = (leb b'0' c && leb c b'9') || c == b';'

-- How many bytes `[0-9;]*[a-zA-Z]` takes.
unfoldable pub parameters_length : Bytes → Option ℕ
parameters_length [] = none
parameters_length (c ∷ cs) =
    let rest = Option.map suc (parameters_length cs) in
    if is_letter c then some 1 else if is_parameter c then rest else none

-- How many bytes behind an escape byte belong to the match of `ansiEscape`.
unfoldable pub escape_length : Bytes → Option ℕ
escape_length [] = none
escape_length (c ∷ cs) = if c == b'[' then Option.map suc (parameters_length cs) else none

-- The number counts the bytes of a match that are still to be dropped.
unfoldable pub strip_from : ℕ → Bytes → Bytes
strip_from k [] = []
strip_from (suc k) (c ∷ cs) = strip_from k cs
strip_from zero (c ∷ cs) =
    let kept = c ∷ strip_from zero cs in
    if c == escape then elim (escape_length cs) [ none ↦ kept | some n ↦ strip_from n cs ] else kept

-- `stripANSI`: every match of "\x1b\\[[0-9;]*[a-zA-Z]" is dropped.
unfoldable pub strip_ansi : Bytes → Bytes
strip_ansi = strip_from zero

abbrev pub ring_capacity : ℕ
ring_capacity = 10

pub record AssetBuffer : Type 0 where
  pub partial : Bytes
  pub lines : List Bytes

abbrev pub empty_buffer : AssetBuffer
empty_buffer = record { partial = []; lines = [] }

unfoldable pub split_lines : Bytes → List Bytes
split_lines [] = []
split_lines (c ∷ cs) = split newline (c ∷ cs)

-- `segments[:len(segments)-1]` and `segments[len(segments)-1]`
unfoldable pub all_but_last : List Bytes → List Bytes
all_but_last [] = []
all_but_last (s ∷ []) = []
all_but_last (s ∷ t ∷ ss) = s ∷ all_but_last (t ∷ ss)

unfoldable pub last : List Bytes → Bytes
last [] = []
last (s ∷ []) = s
last (s ∷ t ∷ ss) = last (t ∷ ss)

-- The newest `ringCapacity` lines.
unfoldable pub recent : List Bytes → List Bytes
recent lines = drop (length lines - ring_capacity) lines

-- The complete lines of a chunk are added; the flag says whether there are any.
unfoldable pub push_lines : Bytes → List Bytes → List Bytes → AssetBuffer × Bool
push_lines partial lines [] = (record { partial = partial; lines = lines }, false)
push_lines partial lines (l ∷ ls) =
    (record { partial = partial; lines = recent (lines ++ l ∷ ls) }, true)

-- On no segment at all the partial line is empty, and so is `last []`.
unfoldable pub ingest : AssetBuffer → Bytes → AssetBuffer × Bool
unfolding push_lines
ingest b chunk =
    let segments = split_lines (strip_ansi (b.partial ++ chunk)) in
    push_lines (last segments) b.lines (all_but_last segments)

unfoldable pub joined : AssetBuffer → Bytes
joined b = join newline b.lines

-- The chunks of one asset, one after the other.
unfoldable pub ingest_all : AssetBuffer → List Bytes → AssetBuffer
ingest_all b [] = b
ingest_all b (c ∷ cs) = ingest_all (ingest b c).0 cs
