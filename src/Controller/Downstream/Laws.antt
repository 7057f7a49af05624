-- ===== src/Controller/Downstream/Laws.antt =====
-- What one attempt asks of Kubernetes and of PocketBase, and a resync of many.
use rootenv.Common.{
  ◌≡◌, ◌↔◌, refl, ap, ◌∙◌, Bool, true, false, some, List, [], ◌∷◌, ◌++◌, Bytes, bytes_eq,
  bytes_beq_iff, ◌==◌, if◌then◌else◌, filter, any, ◌&&◌, eq_self, arith,
}
use rootenv.Controller.Downstream.{
  Attempt, Deletion, not_found, Call, delete_env, apply_env, patch_state, decommissioned,
  decommission, reconcile_attempt, reconcile_all, resync_attempts,
}

-- The attempt that a call is about.
abbrev pub about : Call → Bytes
about (delete_env id) = id
about (apply_env id fs) = id
about (patch_state id s) = id

abbrev pub calls_about : Bytes → List Call → List Call
calls_about id = filter (λ c. about c == id)

filter-append :
    (id : Bytes) (a b : List Call) → calls_about id (a ++ b) ≡ calls_about id a ++ calls_about id b
unfolding filter
filter-append id [] b = refl
filter-append id (c ∷ a) b = ground (arith, filter-append id a b)

module _ (delete_reply : Bytes → Deletion) where
  decommission-about :
      (i id : Bytes)
      → calls_about id (decommission delete_reply i)
        ≡ (if i == id then decommission delete_reply i else [])
  unfolding filter decommission
  decommission-about i id = ground arith

  reconcile_attempt-about :
      (a : Attempt) (id : Bytes)
      → calls_about id (reconcile_attempt delete_reply a)
        ≡ (if a.id == id then reconcile_attempt delete_reply a else [])
  unfolding reconcile_attempt filter
  reconcile_attempt-about a id = ground (arith, decommission-about a.id id)

  -- Reconciling the attempts of a list, in order, that have an ID.
  unfoldable pub reconcile_those : Bytes → List Attempt → List Call
  reconcile_those id [] = []
  reconcile_those id (a ∷ attempts) =
      (if a.id == id then reconcile_attempt delete_reply a else []) ++ reconcile_those id attempts

  -- A resync asks for an attempt what reconciling that attempt alone asks for, whatever the others
  -- in the list are and however their calls end; it asks for no attempt that is not listed.
  pub resync_attempts-about :
      (attempts : List Attempt) (id : Bytes)
      → calls_about id (resync_attempts delete_reply (some attempts)) ≡ reconcile_those id attempts
  unfolding resync_attempts reconcile_all reconcile_those filter
  resync_attempts-about [] id = refl
  resync_attempts-about (a ∷ attempts) id =
      filter-append id (reconcile_attempt delete_reply a) (reconcile_all delete_reply attempts)
      ∙ ap (λ cs. cs ++ calls_about id (reconcile_all delete_reply attempts))
          (reconcile_attempt-about a id)
      ∙ ap (◌++◌ (if a.id == id then reconcile_attempt delete_reply a else []))
          (resync_attempts-about attempts id)

  unfoldable pub marks : Bytes → Call → Bool
  marks id (delete_env i) = false
  marks id (apply_env i fs) = false
  marks id (patch_state i s) = i == id && s == decommissioned

  decommission-marks :
      (id : Bytes)
      → (any (marks id) (decommission delete_reply id) ≡ true) ↔ (delete_reply id ≡ not_found)
  unfolding any marks decommission
  decommission-marks id = ground (arith, eq_self id, eq_self decommissioned)

  -- The controller itself marks an attempt as decommissioned exactly if that is its desired state
  -- and Kubernetes says that there is no LabEnvironment of its name to delete.
  pub reconcile_attempt-marks :
      (a : Attempt)
      → (any (marks a.id) (reconcile_attempt delete_reply a) ≡ true)
        ↔ (a.desired_state ≡ decommissioned) × (delete_reply a.id ≡ not_found)
  unfolding reconcile_attempt any marks
  reconcile_attempt-marks a =
      ground (arith, decommission-marks a.id, bytes_beq_iff a.desired_state decommissioned)
