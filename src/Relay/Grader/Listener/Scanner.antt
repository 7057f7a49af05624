-- ===== src/Relay/Grader/Listener/Scanner.antt =====
-- services/relay/grader/listener.go: the lines that the listener's scanner gives of a connection, and
-- what services/relay/exec/forwarder.go writes to it.
use rootenv.Common.Dict.{Dict}
use rootenv.Common.{
  ℕ, ◌≡◌, ◌≢◌, refl, ap, ◌∙◌, ◌<◌, Bool, Option, some, List, [], ◌∷◌, ◌++◌, map, length, Bytes,
  nat_eq, ◌==◌, ltb, if◌then◌else◌, beq_of_ne, arith,
}
use rootenv.Relay.Exec.Forwarder.{ForwardMsg}
use rootenv.Relay.Grader.Backend.{Regexp, Backend, ingest_chunk}
use rootenv.Relay.Grader.Listener.{
  handle_message, handle_line, handle_forwarder_conn, ingest_messages,
}
use rootenv.Text.Split.{IsFree}
use rootenv.Text.{newline, split, before_first}

-- The size of the scanner's buffer: a line and its newline must fit.
abbrev pub max_line : ℕ
max_line = 1048576

-- A carriage return in front of the newline is dropped.
unfoldable pub drop_cr : Bytes → Bytes
drop_cr [] = []
drop_cr (c ∷ []) = if c == 13 then [] else c ∷ []
drop_cr (c ∷ d ∷ cs) = c ∷ drop_cr (d ∷ cs)

-- What stands behind the last newline is a line unless it is empty.
abbrev pub add_line : Bytes → List Bytes → List Bytes → List Bytes
add_line [] [] lines = lines
add_line [] (p ∷ pieces) lines = [] ∷ lines
add_line (c ∷ cs) pieces lines = drop_cr (c ∷ cs) ∷ lines

-- The scanner ends at a line that is too long.
unfoldable pub keep_lines : List Bytes → List Bytes
keep_lines [] = []
keep_lines (p ∷ pieces) =
    let rest = keep_lines pieces in if ltb (length p) max_line then add_line p pieces rest else []

abbrev pub scan : Bytes → List Bytes
scan stream = keep_lines (split newline stream)

-- The forwarder's writes, one after the other.
unfoldable pub stream_of : (ForwardMsg → Bytes) → List ForwardMsg → Bytes
stream_of encode [] = []
stream_of encode (m ∷ ms) = encode m ++ newline ∷ stream_of encode ms

-- A message whose text is one line that the other side reads, and that is for an asset: JSON is not
-- empty, has no newline byte and ends with a brace.
pub record IsSent (encode : ForwardMsg → Bytes) (unmarshal : Bytes → Option ForwardMsg)
    (m : ForwardMsg) : Type 0 where
  pub free : IsFree newline (encode m)
  pub not_empty : encode m ≢ []
  pub no_return : drop_cr (encode m) ≡ encode m
  pub short : length (encode m) < max_line
  pub read : unmarshal (encode m) ≡ some m
  pub named : m.asset ≢ []

abbrev pub AreSent : (ForwardMsg → Bytes) → (Bytes → Option ForwardMsg) → List ForwardMsg → Type 0
AreSent encode unmarshal [] = Unit
AreSent encode unmarshal (m ∷ ms) = IsSent encode unmarshal m × AreSent encode unmarshal ms

split-piece :
    (p r : Bytes) → IsFree newline p → split newline (p ++ newline ∷ r) ≡ p ∷ split newline r
unfolding split
split-piece [] r h = refl
split-piece (c ∷ p) r (ne, h) =
    rw (beq_of_ne c newline ne) (ap (before_first c) (split-piece p r h))

keep_lines-piece :
    (p : Bytes) (pieces : List Bytes)
    → p ≢ []
    → length p < max_line
    → keep_lines (p ∷ pieces) ≡ drop_cr p ∷ keep_lines pieces
unfolding keep_lines
keep_lines-piece [] pieces ne h = absurd (ne refl)
keep_lines-piece (c ∷ p) pieces ne h = ground (arith, h)

scan-nil : scan [] ≡ []
unfolding split keep_lines
scan-nil = refl

scan-stream_of :
    (encode : ForwardMsg → Bytes) (unmarshal : Bytes → Option ForwardMsg) (ms : List ForwardMsg)
    → AreSent encode unmarshal ms
    → scan (stream_of encode ms) ≡ map encode ms
unfolding stream_of
scan-stream_of encode unmarshal [] h = scan-nil
scan-stream_of encode unmarshal (m ∷ ms) (sent, h) =
    ap keep_lines (split-piece (encode m) (stream_of encode ms) sent.free)
    ∙ keep_lines-piece (encode m) (split newline (stream_of encode ms)) sent.not_empty sent.short
    ∙ ap (λ l. l ∷ keep_lines (split newline (stream_of encode ms))) sent.no_return
    ∙ ap (λ ls. encode m ∷ ls) (scan-stream_of encode unmarshal ms h)

module _ {R : Type 0} (re : Regexp R) (marshal : Dict Bytes Bool → Option Bytes)
    (accepts : ℕ → Bool) where
  handle_message-named :
      (m : ForwardMsg) (b : Backend R)
      → m.asset ≢ []
      → handle_message re marshal accepts m b ≡ ingest_chunk re marshal accepts m.asset m.content b
  unfolding handle_message
  handle_message-named m b named = rw (beq_of_ne m.asset [] named) refl

  handle_forwarder_conn-map :
      (encode : ForwardMsg → Bytes) (unmarshal : Bytes → Option ForwardMsg) (ms : List ForwardMsg)
      (b : Backend R)
      → AreSent encode unmarshal ms
      → handle_forwarder_conn re marshal accepts unmarshal (map encode ms) b
        ≡ ingest_messages re marshal accepts ms b
  unfolding handle_forwarder_conn handle_line ingest_messages
  handle_forwarder_conn-map encode unmarshal [] b h = refl
  handle_forwarder_conn-map encode unmarshal (m ∷ ms) b (sent, h) =
      ap
        (λ o.
          handle_forwarder_conn re marshal accepts unmarshal (map encode ms)
            (handle_line re marshal accepts o b))
        sent.read
      ∙ ap (handle_forwarder_conn re marshal accepts unmarshal (map encode ms))
          (handle_message-named m b sent.named)
      ∙ handle_forwarder_conn-map encode unmarshal ms
          (ingest_chunk re marshal accepts m.asset m.content b) h

  -- The messages that a forwarder writes on a connection, each for a named asset and with a text that
  -- is a line of less than a megabyte, which the listener's JSON reads, all reach the grader, in
  -- their order and no other.
  pub handle_forwarder_conn-stream_of :
      (encode : ForwardMsg → Bytes) (unmarshal : Bytes → Option ForwardMsg) (ms : List ForwardMsg)
      (b : Backend R)
      → AreSent encode unmarshal ms
      → handle_forwarder_conn re marshal accepts unmarshal (scan (stream_of encode ms)) b
        ≡ ingest_messages re marshal accepts ms b
  handle_forwarder_conn-stream_of encode unmarshal ms b sent =
      ap (λ ls. handle_forwarder_conn re marshal accepts unmarshal ls b)
        (scan-stream_of encode unmarshal ms sent)
      ∙ handle_forwarder_conn-map encode unmarshal ms b sent
