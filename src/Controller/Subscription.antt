-- ===== src/Controller/Subscription.antt =====
-- services/attempt-controller/cmd/main.go: what the controller does with a realtime event on an
-- attempt.
use rootenv.Common.{◌⊎◌, inl, inr, not, ◌&&◌, List, [], Bytes, bytes_eq, codes, ◌==◌, if◌then◌else◌}
use rootenv.Controller.Downstream.{Attempt, Call, Deletion, decommissioned, reconcile_attempt}
use rootenv.Controller.Pocketbase.Attempts.{
  AttemptRecord, Parsers, RecordError, to_attempt, empty_environment,
}
use rootenv.Controller.Pocketbase.{Failure}
use rootenv.Controller.Pocketbase

-- The attempt that stands for a record which PocketBase no longer has.
abbrev pub missing_attempt : Bytes → Attempt
missing_attempt id = record {
  id = id;
  user_id = [];
  user_name = [];
  lab_id = [];
  desired_state = decommissioned;
  decommission_reason = codes "attempt-not-found-in-pocketbase";
  environment = empty_environment;
  exercises = [];
}

unfoldable pub with_reason : Attempt → Attempt
with_reason a =
    if a.desired_state == decommissioned && a.decommission_reason == []
    then record a { decommission_reason = codes "desired-state-decommissioned" }
    else a

module _ (p : Parsers) (delete_reply : Bytes → Deletion) where
  unfoldable pub reconcile_parsed : RecordError ⊎ Attempt → List Call
  reconcile_parsed (inl e) = []
  reconcile_parsed (inr a) = reconcile_attempt delete_reply (with_reason a)

  unfoldable pub reconcile_record : AttemptRecord → List Call
  reconcile_record r = reconcile_parsed (to_attempt p r)

  -- The reply of `GetAttempt` for an attempt.
  unfoldable pub reconcile_fetched : Bytes → Failure ⊎ AttemptRecord → List Call
  reconcile_fetched id (inr full) = reconcile_record full
  reconcile_fetched id (inl Pocketbase.not_found) =
      reconcile_attempt delete_reply (missing_attempt id)
  reconcile_fetched id (inl Pocketbase.request_failed) = []
  reconcile_fetched id (inl Pocketbase.bad_body) = []
  reconcile_fetched id (inl Pocketbase.empty_token) = []
  reconcile_fetched id (inl (Pocketbase.bad_status n)) = []
  reconcile_fetched id (inl (Pocketbase.reauth_failed f)) = []

  -- `fetch` stands for the call of `GetAttempt`.
  unfoldable pub on_record : (Bytes → Failure ⊎ AttemptRecord) → AttemptRecord → List Call
  on_record fetch r =
      if r.desired_state == decommissioned && r.current_state == decommissioned
      then []
      else if not (r.desired_state == decommissioned)
      then reconcile_fetched r.id (fetch r.id)
      else reconcile_record r
