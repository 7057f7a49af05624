-- ===== src/Controller/Pocketbase/Attempts.antt =====
-- services/attempt-controller/internal/pocketbase/pbclient.go: attempts read from PocketBase.
use rootenv.Common.{
  ℕ, ◌⊎◌, inl, inr, Option, none, some, List, [], ◌∷◌, ◌++◌, Bytes, bytes_eq, codes, ◌==◌, ◌||◌,
  ◌&&◌, nat_eq, if◌then◌else◌, leb, ◌/◌, ◌%◌,
}
use rootenv.Common.Int.{pos}
use rootenv.Authenticator.Client.{hex_digit}
use rootenv.Controller.Downstream.{Attempt, EnvironmentSpec, Exercise}
use rootenv.Controller.Pocketbase.{Failure, Session, get, attempt_path}

-- `environment` and `exercises` are the raw JSON of the expanded lab, empty where it is missing.
pub record AttemptRecord : Type 0 where
  pub id : Bytes
  pub user_id : Bytes
  pub user_name : Bytes
  pub lab : Bytes
  pub current_state : Bytes
  pub desired_state : Bytes
  pub environment : Bytes
  pub exercises : Bytes

pub data RecordError : Type 0 where
  malformed_environment malformed_exercises : Bytes → RecordError

-- What `json.Unmarshal` makes of the two fields of a lab, `none` on an error.
pub record Parsers : Type 0 where
  pub parse_environment : Bytes → Option EnvironmentSpec
  pub parse_exercises : Bytes → Option (List Exercise)

abbrev pub empty_environment : EnvironmentSpec
empty_environment = record { duration = pos 0; assets = [] }

-- Nothing is parsed of a field that is missing.
unfoldable pub unless_missing {ℓ} : {A : Type ℓ} → A → (Bytes → Option A) → Bytes → Option A
unless_missing zero_value parse [] = some zero_value
unless_missing zero_value parse (c ∷ cs) = parse (c ∷ cs)

unfoldable pub attempt_from : AttemptRecord → EnvironmentSpec → List Exercise → Attempt
attempt_from r env exercises = record {
  id = r.id;
  user_id = r.user_id;
  user_name = r.user_name;
  lab_id = r.lab;
  desired_state = r.desired_state;
  decommission_reason = [];
  environment = env;
  exercises = exercises;
}

module _ (p : Parsers) where
  unfoldable pub to_attempt : AttemptRecord → RecordError ⊎ Attempt
  to_attempt r = elim (unless_missing empty_environment p.parse_environment r.environment) [
    | none ↦ inl (malformed_environment r.id)
    | some env ↦ elim (unless_missing [] p.parse_exercises r.exercises) [
      | none ↦ inl (malformed_exercises r.id)
      | some exercises ↦ inr (attempt_from r env exercises)
    ]
  ]

  -- The loop of `ListActiveAttempts`: a record that cannot be parsed is skipped.
  unfoldable pub to_attempts : List AttemptRecord → List Attempt
  to_attempts [] = []
  to_attempts (r ∷ rs) = elim (to_attempt r) [ inl e ↦ to_attempts rs | inr a ↦ a ∷ to_attempts rs ]

-- `url.QueryEscape`
unfoldable pub query_byte : ℕ → Bytes
query_byte c =
    if (leb b'a' c && leb c b'z')
      || (leb b'A' c && leb c b'Z')
      || (leb b'0' c && leb c b'9')
      || c == b'-'
      || c == b'_'
      || c == b'.'
      || c == b'~'
    then c ∷ []
    else if c == b' '
    then b'+' ∷ []
    else b'%' ∷ hex_digit (c / 16) ∷ hex_digit (c % 16) ∷ []

unfoldable pub query_escape : Bytes → Bytes
query_escape [] = []
query_escape (c ∷ cs) = query_byte c ++ query_escape cs

unfoldable pub active_path : Bytes
active_path =
    codes "/api/collections/attempts/records?filter="
    ++ (query_escape (codes "(current_state!=desired_state)")
        ++ (codes "&expand=" ++ query_escape (codes "lab")))

module _ {P : Type 0} (decode_token : Bytes → Option Bytes) where
  -- `decode_items` stands for the decoder of a page of records.
  unfoldable pub list_active_attempts :
      Parsers
      → (Bytes → Option (List AttemptRecord))
      → Session P
      → (Failure ⊎ List Attempt) × Session P
  list_active_attempts p decode_items s =
      let (r, s') = get decode_token decode_items active_path s in
      (elim r [ inl f ↦ inl f | inr rs ↦ inr (to_attempts p rs) ], s')

  unfoldable pub get_attempt :
      (Bytes → Option AttemptRecord) → Bytes → Session P → (Failure ⊎ AttemptRecord) × Session P
  get_attempt decode_record id s =
      get decode_token decode_record
        (attempt_path id ++ (codes "?expand=" ++ query_escape (codes "lab"))) s
