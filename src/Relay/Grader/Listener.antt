-- ===== src/Relay/Grader/Listener.antt =====
-- services/relay/grader/listener.go: the lines of a forwarder's connection.
pub mod Scanner
pub mod Accept
use rootenv.Common.{
  ℕ, ◌≡◌, refl, ap, ◌∙◌, Bool, Option, none, some, List, [], ◌∷◌, ◌++◌, map, Bytes, bytes_eq, ◌==◌,
  if◌then◌else◌, ◌≢◌, beq_of_ne,
}
use rootenv.Common.Dict.{Dict}
use rootenv.Relay.Exec.Forwarder.{ForwardMsg}
use rootenv.Relay.Grader.Backend.{Regexp, Backend, ingest_chunk}

-- `unmarshal` stands for `json.Unmarshal` of a line, at `none` where the line is malformed. The
-- lines are those that `bufio.Scanner` gives.
module _ {R : Type 0} (re : Regexp R) (marshal : Dict Bytes Bool → Option Bytes)
    (accepts : ℕ → Bool) where
  unfoldable pub handle_message : ForwardMsg → Backend R → Backend R
  handle_message m b =
      if m.asset == [] then b else ingest_chunk re marshal accepts m.asset m.content b

  unfoldable pub handle_line : Option ForwardMsg → Backend R → Backend R
  handle_line none b = b
  handle_line (some m) b = handle_message m b

  unfoldable pub handle_forwarder_conn :
      (Bytes → Option ForwardMsg) → List Bytes → Backend R → Backend R
  handle_forwarder_conn unmarshal [] b = b
  handle_forwarder_conn unmarshal (l ∷ ls) b =
      handle_forwarder_conn unmarshal ls (handle_line (unmarshal l) b)

  -- The messages of a connection, ingested one after the other.
  unfoldable pub ingest_messages : List ForwardMsg → Backend R → Backend R
  ingest_messages [] b = b
  ingest_messages (m ∷ ms) b =
      ingest_messages ms (ingest_chunk re marshal accepts m.asset m.content b)

  -- A malformed line changes nothing, and the lines behind it are handled all the same.
  pub handle_forwarder_conn-malformed :
      (unmarshal : Bytes → Option ForwardMsg) (before after : List Bytes) (l : Bytes)
      (b : Backend R)
      → unmarshal l ≡ none
      → handle_forwarder_conn unmarshal (before ++ l ∷ after) b
        ≡ handle_forwarder_conn unmarshal (before ++ after) b
  unfolding handle_forwarder_conn handle_line
  handle_forwarder_conn-malformed unmarshal [] after l b h =
      ap (λ o. handle_forwarder_conn unmarshal after (handle_line o b)) h
  handle_forwarder_conn-malformed unmarshal (x ∷ before) after l b h =
      handle_forwarder_conn-malformed unmarshal before after l (handle_line (unmarshal x) b) h
