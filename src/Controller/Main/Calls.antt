-- ===== src/Controller/Main/Calls.antt =====
-- services/attempt-controller/cmd/main.go: which events ask for a LabEnvironment or for its removal, and
-- what the calls are that they lead to.
use rootenv.Common.{
  ◌≡◌, refl, Bool, false, not, ◌&&◌, ◌||◌, inl, inr, Option, none, some, ◌⊎◌, List, [], ◌∷◌, ◌++◌,
  Bytes, bytes_eq, ◌==◌, if◌then◌else◌, any, arith, eq_self,
}
use rootenv.Controller.Downstream.{
  Attempt, Call, Deletion, decommissioned, reconcile_attempt, reconcile_all, resync_attempts,
  decommission, delete_env, apply_env, patch_state,
}
use rootenv.Controller.Pocketbase
use rootenv.Controller.Pocketbase.{Failure}
use rootenv.Controller.Pocketbase.Attempts.{
  AttemptRecord, Parsers, RecordError, to_attempt, to_attempts, attempt_from,
}
use rootenv.Controller.Subscription.{
  missing_attempt, with_reason, reconcile_parsed, reconcile_record, reconcile_fetched, on_record,
}
use rootenv.Controller.Main.{Event, resyncs, notified, attempts_of}

unfoldable pub removes : Bytes → Call → Bool
removes id (delete_env i) = i == id
removes id (apply_env i fs) = false
removes id (patch_state i s) = false

unfoldable pub makes : Bytes → Call → Bool
makes id (delete_env i) = false
makes id (apply_env i fs) = i == id
makes id (patch_state i s) = false

module _ (p : Parsers) (id : Bytes) where
  -- A record of the attempt whose lab can be parsed.
  abbrev pub is_record : AttemptRecord → Bool
  is_record r = elim (to_attempt p r) [ inl e ↦ false | inr a ↦ r.id == id ]

  abbrev pub is_unwanted : AttemptRecord → Bool
  is_unwanted r = is_record r && r.desired_state == decommissioned

  abbrev pub is_wanted : AttemptRecord → Bool
  is_wanted r = is_record r && not (r.desired_state == decommissioned)

  -- PocketBase's answer on an attempt asked for.
  abbrev pub is_unwanted_reply : Bytes → Failure ⊎ AttemptRecord → Bool
  is_unwanted_reply asked (inr full) = is_unwanted full
  is_unwanted_reply asked (inl Pocketbase.not_found) = asked == id
  is_unwanted_reply asked (inl f) = false

  abbrev pub is_wanted_reply : Failure ⊎ AttemptRecord → Bool
  is_wanted_reply (inr full) = is_wanted full
  is_wanted_reply (inl f) = false

  -- An event by which PocketBase says that the attempt's LabEnvironment is to go.
  unfoldable pub asks_removal : Event → Bool
  asks_removal (resyncs reply (some rs)) = any is_unwanted rs
  asks_removal (notified reply fetch r) =
      if r.desired_state == decommissioned
      then is_unwanted r && not (r.current_state == decommissioned)
      else is_unwanted_reply r.id (fetch r.id)
  asks_removal e = false

  -- An event by which it says that there is to be one.
  unfoldable pub asks_creation : Event → Bool
  asks_creation (resyncs reply (some rs)) = any is_wanted rs
  asks_creation (notified reply fetch r) =
      not (r.desired_state == decommissioned) && is_wanted_reply (fetch r.id)
  asks_creation e = false

pub any-append :
    {A : Type 0} (f : A → Bool) (xs ys : List A) → any f (xs ++ ys) ≡ (any f xs || any f ys)
unfolding any
any-append f [] ys = refl
any-append f (x ∷ xs) ys = ground (arith, any-append f xs ys)

to_attempt-fields :
    (p : Parsers) (r : AttemptRecord) (a : Attempt)
    → to_attempt p r ≡ inr a
    → (a.id ≡ r.id) × (a.desired_state ≡ r.desired_state)
unfolding to_attempt attempt_from
to_attempt-fields p r a h = ground (arith, h)

Sum-cases : {A B : Type 0} (x : A ⊎ B) → ((a : A) × (x ≡ inl a)) ⊎ ((b : B) × (x ≡ inr b))
Sum-cases (inl a) = inl (a, refl)
Sum-cases (inr b) = inr (b, refl)

module _ (p : Parsers) (id : Bytes) (reply : Bytes → Deletion) where
  decommission-Asked :
      (i : Bytes)
      → (any (removes id) (decommission reply i) ≡ (i == id))
        × (any (makes id) (decommission reply i) ≡ false)
  unfolding decommission any removes makes
  decommission-Asked i = ground arith

  attempt-Asked :
      (a : Attempt)
      → (any (removes id) (reconcile_attempt reply (with_reason a))
          ≡ (a.id == id && a.desired_state == decommissioned))
        × (any (makes id) (reconcile_attempt reply (with_reason a))
            ≡ (a.id == id && not (a.desired_state == decommissioned)))
  unfolding reconcile_attempt with_reason any removes makes
  attempt-Asked a = ground (arith, decommission-Asked a.id)

  plain-Asked :
      (a : Attempt)
      → (any (removes id) (reconcile_attempt reply a)
          ≡ (a.id == id && a.desired_state == decommissioned))
        × (any (makes id) (reconcile_attempt reply a)
            ≡ (a.id == id && not (a.desired_state == decommissioned)))
  unfolding reconcile_attempt any removes makes
  plain-Asked a = ground (arith, decommission-Asked a.id)

  -- A parsed attempt has the ID and the desired state of its record.
  parsed-Asked :
      (r : AttemptRecord) (x : RecordError ⊎ Attempt)
      → to_attempt p r ≡ x
      → (any (removes id) (reconcile_parsed p reply x) ≡ is_unwanted p id r)
        × (any (makes id) (reconcile_parsed p reply x) ≡ is_wanted p id r)
  unfolding reconcile_parsed any
  parsed-Asked r (inl e) h = ground (arith, h)
  parsed-Asked r (inr a) h = ground (arith, h, attempt-Asked a, to_attempt-fields p r a h)

  record-Asked :
      (r : AttemptRecord)
      → (any (removes id) (reconcile_record p reply r) ≡ is_unwanted p id r)
        × (any (makes id) (reconcile_record p reply r) ≡ is_wanted p id r)
  unfolding reconcile_record
  record-Asked r = parsed-Asked r (to_attempt p r) refl

  fetched-Asked :
      (asked : Bytes) (x : Failure ⊎ AttemptRecord)
      → (any (removes id) (reconcile_fetched p reply asked x) ≡ is_unwanted_reply p id asked x)
        × (any (makes id) (reconcile_fetched p reply asked x) ≡ is_wanted_reply p id x)
  unfolding reconcile_fetched any
  fetched-Asked asked (inr full) = record-Asked full
  fetched-Asked asked (inl Pocketbase.not_found) =
      ground (arith, plain-Asked (missing_attempt asked), eq_self decommissioned)
  fetched-Asked asked (inl Pocketbase.request_failed) = (refl, refl)
  fetched-Asked asked (inl Pocketbase.bad_body) = (refl, refl)
  fetched-Asked asked (inl Pocketbase.empty_token) = (refl, refl)
  fetched-Asked asked (inl (Pocketbase.bad_status n)) = (refl, refl)
  fetched-Asked asked (inl (Pocketbase.reauth_failed f)) = (refl, refl)

  pub on_record-Asked :
      (fetch : Bytes → Failure ⊎ AttemptRecord) (r : AttemptRecord)
      → (any (removes id) (on_record p reply fetch r) ≡ asks_removal p id (notified reply fetch r))
        × (any (makes id) (on_record p reply fetch r) ≡ asks_creation p id (notified reply fetch r))
  unfolding on_record asks_removal asks_creation any
  on_record-Asked fetch r = ground (arith, record-Asked r, fetched-Asked r.id (fetch r.id))

  -- `to_attempts` with the record at its head parsed.
  all-Asked :
      (rs : List AttemptRecord)
      → (any (removes id) (reconcile_all reply (to_attempts p rs)) ≡ any (is_unwanted p id) rs)
        × (any (makes id) (reconcile_all reply (to_attempts p rs)) ≡ any (is_wanted p id) rs)
  unfolding to_attempts reconcile_all any
  all-Asked [] = (refl, refl)
  all-Asked (r ∷ rs) = elim (Sum-cases (to_attempt p r)) [
    | inl (e, h) ↦ ground (arith, h, all-Asked rs)
    | inr (a, h) ↦ ground (
      arith,
      h,
      to_attempt-fields p r a h,
      all-Asked rs,
      plain-Asked a,
      any-append (removes id) (reconcile_attempt reply a) (reconcile_all reply (to_attempts p rs)),
      any-append (makes id) (reconcile_attempt reply a) (reconcile_all reply (to_attempts p rs)),
    )
  ]

  pub resync-Asked :
      (items : Option (List AttemptRecord))
      → (any (removes id) (resync_attempts reply (attempts_of p items))
          ≡ asks_removal p id (resyncs reply items))
        × (any (makes id) (resync_attempts reply (attempts_of p items))
            ≡ asks_creation p id (resyncs reply items))
  unfolding resync_attempts attempts_of asks_removal asks_creation any
  resync-Asked none = (refl, refl)
  resync-Asked (some rs) = all-Asked rs
