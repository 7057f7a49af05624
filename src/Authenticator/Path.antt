-- ===== src/Authenticator/Path.antt =====
-- services/relay-authenticator/internal/auth/handler.go: `parseAttemptID`.
pub mod Grammar
use rootenv.Common.{
  Bool, true, false, not, ◌&&◌, ◌||◌, Option, none, some, List, [], ◌∷◌, Bytes, bytes_eq, codes,
  ◌==◌, if◌then◌else◌,
}
use rootenv.Text.{slash, trim_prefix, split_n}

abbrev pub relay_segment : Bytes
relay_segment = codes "relay"

abbrev pub exec_segment : Bytes
exec_segment = codes "exec"

abbrev pub grade_segment : Bytes
grade_segment = codes "grade"

-- The test on the pieces, and the third of them.
unfoldable pub attempt_of : List Bytes → Option Bytes
attempt_of (relay ∷ kind ∷ id ∷ _) =
    if not (relay == relay_segment)
      || (not (kind == exec_segment) && not (kind == grade_segment))
      || id == []
    then none
    else some id
attempt_of _ = none

unfoldable pub parse_attempt_id : Bytes → Option Bytes
unfolding attempt_of
parse_attempt_id uri = attempt_of (split_n slash (trim_prefix uri (slash ∷ [])) 4)
