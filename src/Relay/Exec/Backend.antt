-- ===== src/Relay/Exec/Backend.antt =====
-- services/relay/exec/backend.go: the two directions of a terminal session.
pub mod Laws
use rootenv.Common.{
  ℕ, ◌+◌, ◌*◌, Bool, true, false, Option, none, some, List, [], ◌∷◌, ◌++◌, Bytes, bytes_eq, ◌==◌,
  nat_eq, if◌then◌else◌,
}

-- One `Read` of the shell's output: what came, whether a write of it to the client succeeds, and
-- whether the read reported an error with it.
pub record Output : Type 0 where
  pub content : Bytes
  pub written : Bool
  pub failed : Bool

pub record Sent : Type 0 where
  pub to_client : List Bytes
  pub to_forwarder : List Bytes

-- The write of one chunk; the flag says whether the loop goes on.
unfoldable pub write_chunk : Bool → Output → Sent → Sent × Bool
write_chunk has_forwarder o s =
    if o.content == []
    then (s, true)
    else if o.written
    then (
      record {
        to_client = s.to_client ++ o.content ∷ [];
        to_forwarder = if has_forwarder then s.to_forwarder ++ o.content ∷ [] else s.to_forwarder;
      },
      true,
    )
    else (s, false)

unfoldable pub copy_output : Bool → List Output → Sent → Sent
copy_output has_forwarder [] s = s
copy_output has_forwarder (o ∷ os) s =
    let (s', more) = write_chunk has_forwarder o s in
    let rest = copy_output has_forwarder os s' in
    if more then (if o.failed then s' else rest) else s'

pub record TerminalSize : Type 0 where
  pub width : ℕ
  pub height : ℕ

-- `binary.LittleEndian.Uint16`
abbrev pub uint16 : ℕ → ℕ → ℕ
uint16 low high = low + high * 256

-- A resize frame: \x01, the columns and the rows.
unfoldable pub resize_of : Bytes → Option TerminalSize
resize_of (t ∷ a ∷ b ∷ c ∷ d ∷ []) =
    if t == 1 then some (record { width = uint16 a b; height = uint16 c d }) else none
resize_of _ = none

-- `resize` is the channel with room for one size, `stdin` what was written to the shell, in order.
pub record Input : Type 0 where
  pub resize : Option TerminalSize
  pub stdin : List Bytes
  pub is_open : Bool

abbrev pub new_input : Input
new_input = record { resize = none; stdin = []; is_open = true }

-- The size is dropped where the channel is full.
unfoldable pub offer : TerminalSize → Input → Input
offer size i = elim i.resize [ none ↦ record i { resize = some size } | some s ↦ i ]

unfoldable pub write_stdin : Bool → Bytes → Input → Input
write_stdin ok data' i =
    if ok then record i { stdin = i.stdin ++ data' ∷ [] } else record i { is_open = false }

-- A message of the client, and whether a write of it to the shell succeeds; the shell taking a
-- size; the client being gone.
pub data Event : Type 0 where
  message : Bytes → Bool → Event
  size_taken gone : Event

unfoldable pub on_message : Bytes → Bool → Input → Input
on_message data' ok i = elim (resize_of data') [
  | none ↦ write_stdin ok data' i
  | some size ↦ offer size i
]

unfoldable pub step : Input → Event → Input
step i (message data' ok) = if i.is_open then on_message data' ok i else i
step i size_taken = record i { resize = none }
step i gone = record i { is_open = false }

unfoldable pub run : Input → List Event → Input
run i [] = i
run i (e ∷ es) = run (step i e) es
