-- ===== src/Authenticator/Path/Grammar.antt =====
-- The paths that `parseAttemptID` accepts, described without splitting.
use rootenv.Common.{
  ◌≡◌, refl, ◌≢◌, ap, ◌∙◌, ◌↔◌, ◌⊎◌, inl, inr, Option, none, some, List, [], ◌∷◌, ◌++◌, Bytes,
  bytes_eq, bytes_beq_iff, arith,
}
use rootenv.Text.{slash, split_n, trim_prefix}
use rootenv.Text.Split.{IsFree, tail_text, split_after, split_n-IsFree-append, Piece, piece}
use rootenv.Authenticator.Path.{
  relay_segment, exec_segment, grade_segment, attempt_of, parse_attempt_id,
}

-- `relay/<exec or grade>/<id>`, then nothing or a slash and anything; `id` is one segment that is
-- not empty.
pub record IsRelayPath (id path : Bytes) : Type 0 where
  pub kind : Bytes
  pub rest : Option Bytes
  pub kind_is : (kind ≡ exec_segment) ⊎ (kind ≡ grade_segment)
  pub id_ne_nil : id ≢ []
  pub id_free : IsFree slash id
  pub path_is : path ≡ relay_segment ++ (slash ∷ kind ++ (slash ∷ id ++ tail_text slash rest))

kind-IsFree : (kind : Bytes) → (kind ≡ exec_segment) ⊎ (kind ≡ grade_segment) → IsFree slash kind
kind-IsFree kind (inl e) = rw e (omega arith)
kind-IsFree kind (inr e) = rw e (omega arith)

split_relay :
    (kind id : Bytes) (rest : Option Bytes)
    → (kind ≡ exec_segment) ⊎ (kind ≡ grade_segment)
    → IsFree slash id
    → split_n slash (relay_segment ++ (slash ∷ kind ++ (slash ∷ id ++ tail_text slash rest))) 4
      ≡ relay_segment ∷ kind ∷ id ∷ split_after slash 0 rest
split_relay kind id rest k f =
    let ids = id ++ tail_text slash rest in
    split_n-IsFree-append slash relay_segment (some (kind ++ (slash ∷ ids))) 2 (omega arith)
    ∙ ap (◌∷◌ relay_segment) (
        split_n-IsFree-append slash kind (some ids) 1 (kind-IsFree kind k)
        ∙ ap (◌∷◌ kind) (split_n-IsFree-append slash id rest 0 f))

accepted_pieces :
    (kind id : Bytes) (more : List Bytes)
    → (kind ≡ exec_segment) ⊎ (kind ≡ grade_segment)
    → id ≢ []
    → attempt_of (relay_segment ∷ kind ∷ id ∷ more) ≡ some id
unfolding attempt_of
accepted_pieces kind id more k ne = ground (
  arith,
  bytes_beq_iff relay_segment relay_segment,
  bytes_beq_iff kind exec_segment,
  bytes_beq_iff kind grade_segment,
  bytes_beq_iff id [],
)

read_pieces :
    (a b c id : Bytes) (more : List Bytes)
    → attempt_of (a ∷ b ∷ c ∷ more) ≡ some id
    → (a ≡ relay_segment) × ((b ≡ exec_segment) ⊎ (b ≡ grade_segment)) × (c ≢ []) × (c ≡ id)
unfolding attempt_of
read_pieces a b c id more h = ground (
  arith,
  bytes_beq_iff a relay_segment,
  bytes_beq_iff b exec_segment,
  bytes_beq_iff b grade_segment,
  bytes_beq_iff c [],
)

none_of_one : (a id : Bytes) → attempt_of (a ∷ []) ≢ some id
unfolding attempt_of
none_of_one a id = λ h. cc

none_of_two : (a b id : Bytes) → attempt_of (a ∷ b ∷ []) ≢ some id
unfolding attempt_of
none_of_two a b id = λ h. cc

-- Three pieces that pass the test make up a relay path.
from_pieces :
    (path a b c id : Bytes) (t u : Bytes) (rest : Option Bytes)
    → path ≡ a ++ (slash ∷ t)
    → t ≡ b ++ (slash ∷ u)
    → u ≡ c ++ tail_text slash rest
    → IsFree slash c
    → attempt_of (a ∷ b ∷ c ∷ split_after slash 0 rest) ≡ some id
    → IsRelayPath id path
from_pieces path a b c id t u rest p q r f h =
    let (a_is, b_is, c_ne, c_is) = read_pieces a b c id (split_after slash 0 rest) h in
    record {
      kind = b;
      rest = rest;
      kind_is = b_is;
      id_ne_nil = rw (← c_is) c_ne;
      id_free = rw (← c_is) f;
      path_is = rw (a_is, q, r, c_is) at p;
    }

from_third :
    (path a b id t u : Bytes)
    → path ≡ a ++ (slash ∷ t)
    → t ≡ b ++ (slash ∷ u)
    → attempt_of (a ∷ b ∷ split_n slash u 2) ≡ some id
    → IsRelayPath id path
from_third path a b id t u p q h =
    let c = piece slash u 0 in
    from_pieces path a b c.first id t u c.after p q c.text_is c.first_free (rw c.pieces at h)

from_second :
    (path a id t : Bytes) (b : Piece slash t 1) (r : Option Bytes)
    → b.after ≡ r
    → path ≡ a ++ (slash ∷ t)
    → attempt_of (a ∷ split_n slash t 3) ≡ some id
    → IsRelayPath id path
from_second path a id t b none e p h = absurd (none_of_two a b.first id (rw (b.pieces, e) at h))
from_second path a id t b (some u) e p h =
    from_third path a b.first id t u p (rw e at b.text_is) (rw (b.pieces, e) at h)

from_first :
    (path id : Bytes) (a : Piece slash path 2) (r : Option Bytes)
    → a.after ≡ r
    → attempt_of (split_n slash path 4) ≡ some id
    → IsRelayPath id path
from_first path id a none e h = absurd (none_of_one a.first id (rw (a.pieces, e) at h))
from_first path id a (some t) e h =
    from_second path a.first id t (piece slash t 1) _ refl (rw e at a.text_is)
      (rw (a.pieces, e) at h)

parse-IsRelayPath :
    (path id : Bytes) → attempt_of (split_n slash path 4) ≡ some id → IsRelayPath id path
parse-IsRelayPath path id h = from_first path id (piece slash path 2) _ refl h

-- One leading slash is dropped, and the rest is accepted exactly if it is a relay path; the attempt
-- ID is its third segment.
pub parse_attempt_id_iff :
    (uri id : Bytes)
    → (parse_attempt_id uri ≡ some id) ↔ IsRelayPath id (trim_prefix uri (slash ∷ []))
unfolding parse_attempt_id
parse_attempt_id_iff uri id = (
  λ h. parse-IsRelayPath (trim_prefix uri (slash ∷ [])) id h,
  λ p.
      rw (p.path_is, split_relay p.kind id p.rest p.kind_is p.id_free)
        (accepted_pieces p.kind id (split_after slash 0 p.rest) p.kind_is p.id_ne_nil),
)
