-- ===== src/Examples/Controller.antt =====
-- Attempt a7 of Ann, from PocketBase to Kubernetes and back.
use rootenv.Common.Dict
use rootenv.Common.Int.{pos}
use rootenv.Common.{
  ◌≡◌, ◌↔◌, ◌≢◌, ◌⊎◌, ◌≤◌, ◌+◌, refl, Bool, bytes_eq, true, false, inl, inr, Option, some, none,
  List, [], ◌∷◌, Bytes, codes, bytes_beq, bytes_eq, arith,
}
use rootenv.Controller.Downstream.Translation.{
  read_lab_environment, lab_spec, read-to_lab_environment,
}
use rootenv.Controller.Downstream.{Attempt, Deletion, not_found, decommissioned, to_lab_environment}
use rootenv.Controller.Pocketbase
use rootenv.Controller.Pocketbase.Attempts.{AttemptRecord, Parsers, empty_environment}
use rootenv.Controller.Pocketbase.Laws.{Succeeds, patch_attempt_iff, Makes, patch_attempt-Makes}
use rootenv.Controller.Pocketbase.{Client, Session, Failure, Response, patch_attempt}
use rootenv.Controller.Realtime.Frames.{Message}
use rootenv.Controller.Realtime.Laws.{subscribe_attempts-ends}
use rootenv.Controller.Realtime.{subscribe_attempts, out_of_fuel}
use rootenv.Operator.Api.{AssetStatus}
use rootenv.Controller.Upstream.Assets.{to_items}
use rootenv.Controller.Upstream.Expiry.{expiries, written, KeepsAttempt, deletes, run-expiries}
use rootenv.Controller.Upstream.{
  LabEnv, Patch, Event, added, updated, deleted, unstructured, tombstone, new_reconciler, patch_of,
  run,
}
use rootenv.Controller.Value.{Fields, no_fields, field, array, get}

abbrev a7 : Bytes
a7 = codes "a7"

abbrev vm : AssetStatus
vm = record {
  name = codes "vm";
  phase = codes "Running";
  reason = [];
  ready = true;
  address = codes "10.0.0.7";
  protocols = codes "exec" ∷ [];
}

abbrev status : Fields
status = field (codes "assets") (array (to_items (vm ∷ []))) no_fields

status-assets : get (codes "assets") status ≡ array (to_items (vm ∷ []))
unfolding get bytes_beq
status-assets = refl

abbrev env : LabEnv
env = record {
  name = a7;
  resource_version = codes "41";
  status = status;
  phase = codes "Ready";
  expires_at = codes "2026-01-01T00:00:00Z";
}

abbrev as_it_is : Bytes → Option Bytes
as_it_is t = some t

abbrev always : Bytes → Patch → Bool
always id patch = true

abbrev never : Bytes → Patch → Bool
never id patch = false

abbrev first_patch : Patch
first_patch =
    patch_of as_it_is always (Dict.get_or env.name false new_reconciler.expires_at_written) env

abbrev later : LabEnv
later = record env { resource_version = codes "42"; phase = codes "Degraded" }

abbrev other : LabEnv
other = record env { name = codes "a8" }

abbrev week : List (Event × (Bytes → Patch → Bool))
week =
    (added (unstructured env), never)
    ∷ (updated (unstructured env), always)
    ∷ (updated (unstructured later), always)
    ∷ (deleted (tombstone (some other)), always)
    ∷ []

week-KeepsAttempt : KeepsAttempt a7 week
unfolding deletes bytes_beq
week-KeepsAttempt = (refl, (refl, (refl, (refl, tt))))

run-expiries_example :
    let (r, calls) = run as_it_is week new_reconciler in
    (expiries a7 calls + written a7 new_reconciler ≡ written a7 r)
    × (expiries a7 calls + written a7 new_reconciler ≤ 1)
run-expiries_example = run-expiries as_it_is a7 week new_reconciler week-KeepsAttempt

abbrev attempt : Attempt
attempt = record {
  id = a7;
  user_id = codes "u1";
  user_name = codes "ann";
  lab_id = codes "nginx";
  desired_state = decommissioned;
  decommission_reason = [];
  environment = record {
    duration = pos 3600;
    assets =
        record {
          name = codes "vm";
          image = codes "alpine";
          cpu = [];
          memory = [];
          disk = [];
          setup = [];
          relay_protocols = none;
        }
        ∷ [];
  };
  exercises = [];
}

read-to_lab_environment_example :
    read_lab_environment (to_lab_environment attempt) ≡ some (a7, lab_spec attempt)
read-to_lab_environment_example = read-to_lab_environment attempt

abbrev none_there : Bytes → Deletion
none_there id = not_found

abbrev token_of : Bytes → Option Bytes
token_of b = some b

abbrev reply : Bytes → Response
reply b = record { status = 200; body = b }

abbrev expired : Session Patch
expired = record {
  client = record {
    base_url = codes "http://pb";
    email = codes "e";
    password = codes "p";
    token = codes "old";
  };
  replies =
      some (record { status = 401; body = [] }) ∷ some (reply (codes "new")) ∷ some (reply []) ∷ [];
  requests = [];
}

patch_attempt_iff_example :
    ((patch_attempt token_of a7 first_patch expired).0 ≡ none)
    ↔ Succeeds token_of a7 first_patch expired.replies
patch_attempt_iff_example = patch_attempt_iff token_of a7 first_patch expired

patch_attempt-Makes_example :
    Makes token_of a7 first_patch expired.client expired.requests
      (patch_attempt token_of a7 first_patch expired).1
patch_attempt-Makes_example = patch_attempt-Makes token_of a7 first_patch expired

abbrev greeting : Message
greeting = record { id = codes "c1"; event = codes "PB_CONNECT"; payload = codes "c1" ∷ [] }

abbrev event_of : Bytes → Option (Bytes × Bytes)
event_of b = some (codes "update", b)

subscribe_attempts-ends_example :
    (subscribe_attempts token_of event_of (λ id. true) 3 (codes "event:x" ∷ [] ∷ [])).1
    ≢ out_of_fuel
subscribe_attempts-ends_example =
    subscribe_attempts-ends token_of event_of (λ id. true) 3 (codes "event:x" ∷ [] ∷ [])
      (omega arith)

abbrev parsers : Parsers
parsers = record { parse_environment = λ b. some empty_environment; parse_exercises = λ b. some [] }

abbrev running : AttemptRecord
running = record {
  id = a7;
  user_id = codes "u1";
  user_name = codes "ann";
  lab = codes "nginx";
  current_state = codes "provisioning";
  desired_state = codes "provisioned";
  environment = codes "{}";
  exercises = [];
}

abbrev fetched : Bytes → Failure ⊎ AttemptRecord
fetched id = inr running

abbrev lost : Bytes → Failure ⊎ AttemptRecord
lost id = inl Pocketbase.not_found
