-- ===== src/Examples/Program.antt =====
-- The attempt controller from its start: PocketBase is there at the second call, and has lost attempt
-- a7.
use rootenv.Common.{
  ◌≡◌, refl, ◌⊎◌, inl, inr, true, false, some, Option, List, [], ◌∷◌, ◌++◌, Bytes, bytes_eq,
  bytes_beq, codes, any,
}
use rootenv.Controller.Config.{Config, Missing}
use rootenv.Controller.Downstream.{
  Deletion, gone, reconcile_attempt, decommission, resync_attempts, reconcile_all,
}
use rootenv.Controller.Main.{
  Event, connects, links, waited, notified, resyncs, start, run, on_event, on_running, on_connects,
  on_links, attempts_of,
}
use rootenv.Controller.Main.Asked.{heard, run-asks_removal, run-asks_creation}
use rootenv.Controller.Main.Calls.{removes, makes, asks_removal, asks_creation}
use rootenv.Controller.Pocketbase
use rootenv.Controller.Pocketbase.Attempts.{
  AttemptRecord, Parsers, empty_environment, to_attempt, to_attempts, attempt_from, unless_missing,
}
use rootenv.Controller.Pocketbase.{Failure}
use rootenv.Controller.Subscription.{on_record, reconcile_fetched}

abbrev a7 : Bytes
a7 = codes "a7"

abbrev parsers : Parsers
parsers = record { parse_environment = λ b. some empty_environment; parse_exercises = λ b. some [] }

abbrev provisioned : AttemptRecord
provisioned = record {
  id = a7;
  user_id = codes "u1";
  user_name = codes "ann";
  lab = codes "nginx";
  current_state = codes "provisioning";
  desired_state = codes "provisioned";
  environment = codes "{}";
  exercises = [];
}

abbrev deleted : Bytes → Deletion
deleted id = gone

abbrev lost : Bytes → Failure ⊎ AttemptRecord
lost id = inl Pocketbase.not_found

abbrev settings : Missing ⊎ Config
settings = inr (record {
  pb_url = codes "http://pb";
  pb_email = codes "e";
  pb_password = codes "p";
  tls_verify = true;
})

abbrev as_it_is : Bytes → Option Bytes
as_it_is t = some t

abbrev up : List Event
up = connects false ∷ waited ∷ connects true ∷ links true ∷ []

abbrev day : List Event
day = up ++ (resyncs deleted (some (provisioned ∷ [])) ∷ notified deleted lost provisioned ∷ [])

day-removes : any (removes a7) (run parsers as_it_is (start settings) day).calls ≡ true
unfolding run start on_event on_running on_connects on_links attempts_of resync_attempts
    reconcile_all to_attempts to_attempt attempt_from unless_missing reconcile_attempt decommission
    on_record reconcile_fetched any removes bytes_beq
day-removes = refl

run-asks_removal_example :
    any (removes a7) (run parsers as_it_is (start settings) day).calls
    ≡ any (asks_removal parsers a7) (heard parsers as_it_is (start settings) day)
run-asks_removal_example = run-asks_removal parsers as_it_is a7 settings day

day-makes : any (makes a7) (run parsers as_it_is (start settings) day).calls ≡ true
unfolding run start on_event on_running on_connects on_links attempts_of resync_attempts
    reconcile_all to_attempts to_attempt attempt_from unless_missing reconcile_attempt decommission
    on_record reconcile_fetched any makes bytes_beq
day-makes = refl

run-asks_creation_example :
    any (makes a7) (run parsers as_it_is (start settings) day).calls
    ≡ any (asks_creation parsers a7) (heard parsers as_it_is (start settings) day)
run-asks_creation_example = run-asks_creation parsers as_it_is a7 settings day

abbrev mirrored : List Event
mirrored = notified deleted lost provisioned ∷ []
