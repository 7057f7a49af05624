-- ===== src/Relay/Grader/Lines/Stream.antt =====
-- One more chunk of a stream gives the buffer of the stream so far.
use mathlib.Core.List.{append_assoc, append-nil}
use rootenv.Common.{◌≡◌, refl, ap, sym, ◌∙◌, some, List, [], ◌∷◌, ◌++◌, Bytes, nat_eq, arith}
use rootenv.Relay.Grader.Lines.Strip.{
  Mode, text, opened, parameters, pending, ArePlain, AreParameters, IsSound, FollowsAll, feed,
  feed-FollowsAll, strip-pending, strip-ArePlain,
}
use rootenv.Relay.Grader.Lines.{is_parameter, strip_ansi, AssetBuffer, recent, push_lines, ingest}
use rootenv.Text.Split.{IsFree, IsFree-append}
use rootenv.Text.{newline}
use rootenv.Relay.Grader.Lines.Recent.{recent-append, recent-recent}
use rootenv.Relay.Grader.Lines.Cut.{
  cut_lines, lines_and_rest, split_lines-cut_lines, after_lines, cut_lines-append, cut_lines-IsFree,
  rest-IsFree,
}

rest-ArePlain : (s : Bytes) → ArePlain s → ArePlain (cut_lines s).1
rest-ArePlain [] h = tt
rest-ArePlain (c ∷ cs) (ne, h) = ground (arith, rest-ArePlain cs h)

parameters-IsFree : (ps : Bytes) → AreParameters ps → IsFree newline ps
unfolding is_parameter
parameters-IsFree [] h = tt
parameters-IsFree (p ∷ ps) (hp, h) = (ground arith, parameters-IsFree ps h)

pending-IsFree : (m : Mode) → IsSound m → IsFree newline (pending m)
pending-IsFree text s = tt
pending-IsFree opened s = omega arith
pending-IsFree (parameters ps) s = (omega arith, (omega arith, parameters-IsFree ps s))

-- The buffer that a whole stream gives, read at once.
unfoldable pub whole : Bytes → AssetBuffer
whole s = record {
  partial = (cut_lines (strip_ansi s)).1;
  lines = recent (cut_lines (strip_ansi s)).0;
}

unfoldable pub of_lines : List Bytes × Bytes → AssetBuffer
of_lines p = record { partial = p.1; lines = recent p.0 }

push_lines_lem :
    (r : Bytes) (ls ms : List Bytes)
    → recent ls ≡ ls
    → (push_lines r ls ms).0 ≡ of_lines (ls ++ ms, r)
unfolding push_lines of_lines
push_lines_lem r ls [] full =
    ap (λ l. record { partial = r; lines = l }) (sym full ∙ ap recent (sym (append-nil ls)))
push_lines_lem r ls (m ∷ ms) full = refl

ingest_lem :
    (b : AssetBuffer) (chunk : Bytes)
    → recent b.lines ≡ b.lines
    → (ingest b chunk).0
      ≡ of_lines (after_lines b.lines (cut_lines (strip_ansi (b.partial ++ chunk))))
unfolding ingest lines_and_rest
ingest_lem b chunk full =
    push_lines_lem _ b.lines _ full
    ∙ ap (λ q. of_lines (after_lines b.lines q))
        (split_lines-cut_lines (strip_ansi (b.partial ++ chunk)))

recent_first :
    (ls : List Bytes) (q : List Bytes × Bytes)
    → of_lines (after_lines (recent ls) q) ≡ of_lines (after_lines ls q)
unfolding of_lines
recent_first ls (ms, r) = ap (λ l. record { partial = r; lines = l }) (recent-append ls ms)

-- What a read beginning of a stream says of its filtered text.
cut_beginning :
    (o : Bytes) (m : Mode)
    → IsSound m
    → cut_lines (o ++ pending m) ≡ ((cut_lines o).0, (cut_lines o).1 ++ pending m)
cut_beginning o m sound =
    let r = (cut_lines o).1 in
    cut_lines-append o (pending m)
    ∙ ap (after_lines (cut_lines o).0) (
        cut_lines-IsFree (r ++ pending m)
          (IsFree-append newline r (pending m) (rest-IsFree o) (pending-IsFree m sound)))
    ∙ ap (λ ls. (ls, r ++ pending m)) (append-nil (cut_lines o).0)

-- One more chunk of a stream: its beginning `s` has been read, and has put out `o`.
next_chunk :
    (s chunk o : Bytes) (m : Mode)
    → FollowsAll text s (some (o, m))
    → let p = cut_lines (strip_ansi s) in
      after_lines p.0 (cut_lines (strip_ansi (p.1 ++ chunk))) ≡ cut_lines (strip_ansi (s ++ chunk))
next_chunk s chunk o m (f, sound, plain) =
    let r = (cut_lines o).1 in
    let y = strip_ansi (pending m ++ chunk) in
    let stripped : strip_ansi s ≡ o ++ pending m =
      ap strip_ansi (sym (append-nil s))
      ∙ f []
      ∙ ap (λ t. o ++ strip_ansi t) (append-nil (pending m))
      ∙ ap (◌++◌ o) (strip-pending m sound) in
    let before = ap cut_lines stripped ∙ cut_beginning o m sound in
    let behind : strip_ansi (r ++ pending m ++ chunk) ≡ r ++ y =
      ap strip_ansi (append_assoc r (pending m) chunk)
      ∙ strip-ArePlain r (pending m ++ chunk) (rest-ArePlain o plain) in
    ap (λ p. after_lines p.0 (cut_lines (strip_ansi (p.1 ++ chunk)))) before
    ∙ ap (λ t. after_lines (cut_lines o).0 (cut_lines t)) behind
    ∙ sym (cut_lines-append o y)
    ∙ ap cut_lines (sym (f chunk))

pub ingest-whole :
    (s chunk o : Bytes) (m : Mode)
    → feed text s ≡ some (o, m)
    → (ingest (whole s) chunk).0 ≡ whole (s ++ chunk)
unfolding whole of_lines
ingest-whole s chunk o m h =
    let p = cut_lines (strip_ansi s) in
    ingest_lem (whole s) chunk (recent-recent p.0)
    ∙ recent_first p.0 (cut_lines (strip_ansi (p.1 ++ chunk)))
    ∙ ap of_lines (next_chunk s chunk o m (rw h at (feed-FollowsAll text s tt)))
