-- ===== src/Controller/Realtime/Frames.antt =====
-- A frame as PocketBase writes it is read back whole.
use mathlib.Core.List.{append_assoc, append-nil}
use rootenv.Common.{
  ◌≤◌, ◌≡◌, ◌≢◌, refl, ap, ◌∙◌, inl, inr, true, false, Bool-cases, Option, none, some, List, [],
  ◌∷◌, ◌++◌, Bytes, bytes_eq, bytes_beq, beq_of_ne, codes, length, arith,
}
use rootenv.Text.{trim_space, strip_prefix?, join, newline}
use rootenv.Controller.Realtime.{
  Line, blank, ignored, event_line, data_line, classify, Frame, is_empty, read_event,
}

-- An event's name and the lines of its payload.
pub record Message : Type 0 where
  pub id : Bytes
  pub event : Bytes
  pub payload : List Bytes

-- A name that the reader leaves as it is.
abbrev pub IsNamed : Message → Type 0
IsNamed m = (trim_space m.event ≡ m.event) × (m.event ≢ [])

unfoldable pub data_lines : List Bytes → List Bytes → List Bytes
data_lines [] rest = rest
data_lines (d ∷ ds) rest = (codes "data:" ++ (b' ' ∷ d)) ∷ data_lines ds rest

-- The lines of a frame: `id:`, `event:` and `data:` lines, and an empty one.
unfoldable pub frame_lines : Message → List Bytes → List Bytes
frame_lines m rest =
    (codes "id:" ++ m.id) ∷ (codes "event:" ++ m.event) ∷ data_lines m.payload ([] ∷ rest)

abbrev pub frame_of : Message → Frame
frame_of m = record { event = m.event; payload = join newline m.payload }

classify-id : (i : Bytes) → classify (codes "id:" ++ i) ≡ ignored
unfolding classify strip_prefix? bytes_beq
classify-id i = refl

classify-event : (e : Bytes) → classify (codes "event:" ++ e) ≡ event_line (trim_space e)
unfolding classify strip_prefix? bytes_beq
classify-event e = refl

classify-data : (d : Bytes) → classify (codes "data:" ++ (b' ' ∷ d)) ≡ data_line d
unfolding classify strip_prefix? bytes_beq
classify-data d = refl

classify-nil : classify [] ≡ blank
unfolding classify bytes_beq
classify-nil = refl

named-is_empty : (e : Bytes) (ds : List Bytes) → e ≢ [] → is_empty e ds ≡ false
named-is_empty e [] h = beq_of_ne e [] h
named-is_empty e (d ∷ ds) h = refl

read-data_lines :
    (e : Bytes) (seen ds rest : List Bytes)
    → e ≢ []
    → read_event e seen (data_lines ds ([] ∷ rest))
      ≡ some (record { event = e; payload = join newline (seen ++ ds) }, rest)
unfolding read_event data_lines
read-data_lines e seen [] rest h =
    rw (classify-nil, read_event, named-is_empty e seen h, append-nil seen)
read-data_lines e seen (d ∷ ds) rest h =
    rw (classify-data d, read_event)
      (read-data_lines e (seen ++ d ∷ []) ds rest h
        ∙ ap (λ l. some (record { event = e; payload = join newline l }, rest))
            (append_assoc seen (d ∷ []) ds))

pub read_event-frame_lines :
    (m : Message) (rest : List Bytes)
    → IsNamed m
    → read_event [] [] (frame_lines m rest) ≡ some (frame_of m, rest)
unfolding read_event frame_lines
read_event-frame_lines m rest (trimmed, ne) =
    rw (classify-id m.id, read_event, classify-event m.event, trimmed)
      (read-data_lines m.event [] m.payload rest ne)

abbrev pub Shorter : List Bytes → Option (Frame × List Bytes) → Type 0
Shorter ls none = Unit
Shorter ls (some (f, rest)) = length rest ≤ length ls

line-Shorter :
    (k : Line) (e : Bytes) (ds ls : List Bytes)
    → ((e : Bytes) (ds : List Bytes) → Shorter ls (read_event e ds ls))
    → Shorter ls (elim k [
      | blank ↦ elim (is_empty e ds) [
        | true ↦ read_event e ds ls
        | false ↦ some (record { event = e; payload = join newline ds }, ls)
      ]
      | event_line e' ↦ read_event e' ds ls
      | data_line d ↦ read_event e (ds ++ d ∷ []) ls
      | ignored ↦ read_event e ds ls
    ])
line-Shorter blank e ds ls ih = elim (Bool-cases (is_empty e ds)) [
  | inl q ↦ rw q (ih e ds)
  | inr q ↦ rw q (omega arith)
]
line-Shorter (event_line e') e ds ls ih = ih e' ds
line-Shorter (data_line d) e ds ls ih = ih e (ds ++ d ∷ [])
line-Shorter ignored e ds ls ih = ih e ds

Shorter-cons :
    (l : Bytes) (ls : List Bytes) (r : Option (Frame × List Bytes))
    → Shorter ls r
    → Shorter (l ∷ ls) r
Shorter-cons l ls none h = tt
Shorter-cons l ls (some (f, rest)) h = omega (arith, h)

read_event-Shorter : (e : Bytes) (ds ls : List Bytes) → Shorter ls (read_event e ds ls)
unfolding read_event
read_event-Shorter e ds [] = elim (Bool-cases (is_empty e ds)) [
  | inl q ↦ rw (q, read_event) tt
  | inr q ↦ rw (q, read_event) (omega arith)
]
read_event-Shorter e ds (l ∷ ls) =
    Shorter-cons l ls _ (line-Shorter (classify l) e ds ls (λ e' ds'. read_event-Shorter e' ds' ls))

-- Reading a frame takes at least one line.
pub read_event-cons :
    (e : Bytes) (ds : List Bytes) (l : Bytes) (ls : List Bytes)
    → Shorter ls (read_event e ds (l ∷ ls))
unfolding read_event
read_event-cons e ds l ls =
    line-Shorter (classify l) e ds ls (λ e' ds'. read_event-Shorter e' ds' ls)
