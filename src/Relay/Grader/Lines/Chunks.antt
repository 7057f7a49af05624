-- ===== src/Relay/Grader/Lines/Chunks.antt =====
-- What an asset's buffer holds does not depend on where its stream is cut.
use mathlib.Core.List.{append_assoc, append-nil}
use rootenv.Common.{
  ◌≡◌, refl, ◌≢◌, ap, sym, ◌∙◌, subst, Option, none, some, List, [], ◌∷◌, ◌++◌, Bytes,
}
use rootenv.Relay.Grader.Lines.{empty_buffer, ingest, ingest_all, recent, strip_ansi, strip_from}
use rootenv.Relay.Grader.Lines.Strip.{Mode, text, feed, feed_byte, put_before}
use rootenv.Relay.Grader.Lines.Cut.{cut_lines}
use rootenv.Relay.Grader.Lines.Stream.{whole, ingest-whole}

unfoldable pub flatten : List Bytes → Bytes
flatten [] = []
flatten (c ∷ cs) = c ++ flatten cs

-- Every escape byte of the stream begins a sequence of the filter, of which the last may be cut off.
abbrev pub IsFollowed : Bytes → Type 0
IsFollowed s = feed text s ≢ none

put_before-none : (o : Bytes) (q : Option (Bytes × Mode)) → put_before o q ≢ none → q ≢ none
put_before-none o none h = h
put_before-none o (some q) h = λ e. cc

put_before-some : (o : Bytes) (q : Option (Bytes × Mode)) → q ≢ none → put_before o q ≢ none
put_before-some o none h = h
put_before-some o (some q) h = λ e. cc

step-beginning :
    (r : Option (Bytes × Mode)) (a b : Bytes)
    → ((m : Mode) → feed m b ≢ none → feed m a ≢ none)
    → elim r [ none ↦ none | some (o, m) ↦ put_before o (feed m b) ] ≢ none
    → elim r [ none ↦ none | some (o, m) ↦ put_before o (feed m a) ] ≢ none
step-beginning none a b ih h = h
step-beginning (some (o, m)) a b ih h =
    put_before-some o (feed m a) (ih m (put_before-none o (feed m b) h))

-- The beginning of a stream can be read where the stream can be.
feed-beginning : (m : Mode) (a b : Bytes) → feed m (a ++ b) ≢ none → feed m a ≢ none
unfolding feed
feed-beginning m [] b h = λ e. cc
feed-beginning m (c ∷ a) b h =
    step-beginning (feed_byte m c) a (a ++ b) (λ m'. feed-beginning m' a b) h

chunk_of_followed :
    (s c : Bytes) (q : Option (Bytes × Mode))
    → feed text s ≡ q
    → q ≢ none
    → (ingest (whole s) c).0 ≡ whole (s ++ c)
chunk_of_followed s c none h ne = absurd (ne refl)
chunk_of_followed s c (some (o, m)) h ne = ingest-whole s c o m h

ingest_all-whole :
    (s : Bytes) (cs : List Bytes)
    → IsFollowed (s ++ flatten cs)
    → ingest_all (whole s) cs ≡ whole (s ++ flatten cs)
unfolding ingest_all flatten
ingest_all-whole s [] h = ap whole (sym (append-nil s))
ingest_all-whole s (c ∷ cs) h =
    ap (λ b. ingest_all b cs)
      (chunk_of_followed s c (feed text s) refl (feed-beginning text s (c ++ flatten cs) h))
    ∙ ingest_all-whole (s ++ c) cs (subst IsFollowed (sym (append_assoc s c (flatten cs))) h)
    ∙ ap whole (append_assoc s c (flatten cs))

whole-nil : whole [] ≡ empty_buffer
unfolding whole recent strip_ansi strip_from
whole-nil = refl

-- A stream in which every escape byte begins a sequence that the filter knows (the last one may
-- be unfinished) leaves an asset's empty buffer the same however it is cut into chunks: the
-- newest ten of its filtered lines, and the filtered rest behind its last newline.
pub ingest_all-chunks :
    (cs : List Bytes)
    → IsFollowed (flatten cs)
    → (ingest_all empty_buffer cs ≡ record {
      partial = (cut_lines (strip_ansi (flatten cs))).1;
      lines = recent (cut_lines (strip_ansi (flatten cs))).0;
    })
      × (ingest_all empty_buffer cs ≡ ingest_all empty_buffer (flatten cs ∷ []))
unfolding whole flatten
ingest_all-chunks cs h =
    let at_once = ap (λ b. ingest_all b cs) (sym whole-nil) ∙ ingest_all-whole [] cs h in
    (
      at_once,
      at_once
          ∙ ap whole (sym (append-nil (flatten cs)))
          ∙ sym (
              ap (λ b. ingest_all b (flatten cs ∷ [])) (sym whole-nil)
              ∙ ingest_all-whole [] (flatten cs ∷ [])
                  (subst IsFollowed (sym (append-nil (flatten cs))) h)),
    )
