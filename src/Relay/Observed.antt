-- ===== src/Relay/Observed.antt =====
-- From a terminal to the grader: what services/relay/grader keeps of an asset's terminal is what
-- services/relay/exec showed on it.
use rootenv.Common.Dict
use rootenv.Common.Dict.{Dict, get_or-insert}
use rootenv.Common.{
  ℕ, ◌≡◌, refl, ap, ◌∙◌, subst, inl, inr, Bool, true, false, Option, List, [], ◌∷◌, ◌++◌, Bytes,
  bytes_eq, bytes_beq_iff, ◌==◌, if◌then◌else◌, arith,
}
use rootenv.Relay.Exec.Forwarder
use rootenv.Relay.Exec.Forwarder.{ForwardMsg, new_forwarder}
use rootenv.Relay.Exec.Forwarder.Laws.{IsSublist, weaken, tail-IsSublist, sends, run-IsSublist}
use rootenv.Relay.Exec.Session
use rootenv.Relay.Exec.Session.{new_session}
use rootenv.Relay.Exec.Session.Output.{run-passes_on}
use rootenv.Relay.Grader.Backend.Grades.{ingest_chunk_lem}
use rootenv.Relay.Grader.Backend.{Regexp, Backend, ingest_chunk}
use rootenv.Relay.Grader.Lines.{AssetBuffer, empty_buffer, ingest, ingest_all}
use rootenv.Relay.Grader.Listener.Scanner.{
  AreSent, scan, stream_of, handle_forwarder_conn-stream_of,
}
use rootenv.Relay.Grader.Listener.{handle_forwarder_conn, ingest_messages}

-- What the messages of an asset hold, in their order.
unfoldable pub contents : Bytes → List ForwardMsg → List Bytes
contents a [] = []
contents a (m ∷ ms) = let rest = contents a ms in if m.asset == a then m.content ∷ rest else rest

module _ {A : Type 0} where
  front-IsSublist : (xs zs ys : List A) → IsSublist (xs ++ zs) ys → IsSublist xs ys
  front-IsSublist [] zs ys h = tt
  front-IsSublist (x ∷ xs) zs [] h = absurd h
  front-IsSublist (x ∷ xs) zs (y ∷ ys) (inl (e, h)) = inl (e, front-IsSublist xs zs ys h)
  front-IsSublist (x ∷ xs) zs (y ∷ ys) (inr h) = inr (front-IsSublist (x ∷ xs) zs ys h)

  back-IsSublist : (xs zs ys : List A) → IsSublist (xs ++ zs) ys → IsSublist zs ys
  back-IsSublist [] zs ys h = h
  back-IsSublist (x ∷ xs) zs ys h = back-IsSublist xs zs ys (tail-IsSublist x (xs ++ zs) ys h)

pick-IsSublist :
    (b : Bool) (c : Bytes) (xs ys : List Bytes)
    → IsSublist xs ys
    → IsSublist (if b then c ∷ xs else xs) (if b then c ∷ ys else ys)
pick-IsSublist true c xs ys h = inl (refl, h)
pick-IsSublist false c xs ys h = h

skip-IsSublist :
    (b : Bool) (c : Bytes) (xs ys : List Bytes)
    → IsSublist xs ys
    → IsSublist xs (if b then c ∷ ys else ys)
skip-IsSublist true c xs ys h = weaken c xs ys h
skip-IsSublist false c xs ys h = h

contents-IsSublist :
    (a : Bytes) (xs ys : List ForwardMsg)
    → IsSublist xs ys
    → IsSublist (contents a xs) (contents a ys)
unfolding contents
contents-IsSublist a [] ys h = tt
contents-IsSublist a (x ∷ xs) [] h = absurd h
contents-IsSublist a (x ∷ xs) (y ∷ ys) (inl (e, h)) =
    subst (λ z. IsSublist (contents a (x ∷ xs)) (contents a (z ∷ ys))) e
      (pick-IsSublist (x.asset == a) x.content (contents a xs) (contents a ys)
        (contents-IsSublist a xs ys h))
contents-IsSublist a (x ∷ xs) (y ∷ ys) (inr h) =
    skip-IsSublist (y.asset == a) y.content (contents a (x ∷ xs)) (contents a ys)
      (contents-IsSublist a (x ∷ xs) ys h)

module _ {R : Type 0} (re : Regexp R) (marshal : Dict Bytes Bool → Option Bytes)
    (accepts : ℕ → Bool) where
  abbrev pub kept : Bytes → Backend R → AssetBuffer
  kept a b = Dict.get_or a empty_buffer b.assets

  ingest_chunk-kept :
      (m : ForwardMsg) (b : Backend R) (a : Bytes)
      → kept a (ingest_chunk re marshal accepts m.asset m.content b)
        ≡ (if m.asset == a then (ingest (kept a b) m.content).0 else kept a b)
  ingest_chunk-kept m b a = ground (
    arith,
    ingest_chunk_lem re marshal accepts m.asset m.content b a,
    bytes_beq_iff m.asset a,
    get_or-insert a m.asset empty_buffer (ingest (kept m.asset b) m.content).0 b.assets,
  )

  ingest_messages-kept :
      (ms : List ForwardMsg) (b : Backend R) (a : Bytes)
      → kept a (ingest_messages re marshal accepts ms b) ≡ ingest_all (kept a b) (contents a ms)
  unfolding ingest_messages ingest_all contents
  ingest_messages-kept [] b a = refl
  ingest_messages-kept (m ∷ ms) b a =
      let b' = ingest_chunk re marshal accepts m.asset m.content b in
      ground (arith, ingest_messages-kept ms b' a, ingest_chunk-kept m b a)

  -- Let a relay forward one session's output of an asset, and whatever it does of other assets, to
  -- the grader, over connections that come and go. What a connection's messages, each a line of less
  -- than a megabyte that the grader's JSON reads, make of the lines that the grader keeps of the
  -- asset is what chunks that the session's client was shown make of them, in their order, with
  -- gaps.
  pub kept-IsSublist :
      (events : List Session.Event) (addr : Bytes) (forwarded : List Forwarder.Event) (a : Bytes)
      (before ms after : List ForwardMsg) (encode : ForwardMsg → Bytes)
      (unmarshal : Bytes → Option ForwardMsg) (b : Backend R)
      → contents a (sends forwarded) ≡ (Session.run true new_session events).sent.to_forwarder
      → (Forwarder.run (new_forwarder addr) forwarded).written ≡ before ++ (ms ++ after)
      → AreSent encode unmarshal ms
      → IsSublist (contents a ms) (Session.run true new_session events).sent.to_client
        × (kept a
              (handle_forwarder_conn re marshal accepts unmarshal (scan (stream_of encode ms)) b)
            ≡ ingest_all (kept a b) (contents a ms))
  kept-IsSublist events addr forwarded a before ms after encode unmarshal b fed split sent =
      let f = Forwarder.run (new_forwarder addr) forwarded in
      let shown = (Session.run true new_session events).sent.to_client in
      let all : IsSublist (f.written ++ f.queue) (sends forwarded) =
        (run-IsSublist addr forwarded).0 in
      let written : IsSublist (before ++ (ms ++ after)) (sends forwarded) =
        subst (λ w. IsSublist w (sends forwarded)) split
          (front-IsSublist f.written f.queue (sends forwarded) all) in
      let those : IsSublist ms (sends forwarded) =
        front-IsSublist ms after _ (back-IsSublist before (ms ++ after) _ written) in
      let same : contents a (sends forwarded) ≡ shown = fed ∙ (run-passes_on true events).1 in
      (
        subst (IsSublist (contents a ms)) same (contents-IsSublist a ms (sends forwarded) those),
        ap (kept a) (handle_forwarder_conn-stream_of re marshal accepts encode unmarshal ms b sent)
            ∙ ingest_messages-kept ms b a,
      )
