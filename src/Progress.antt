-- ===== src/Progress.antt =====
-- From the operator to PocketBase: the status that the operator works out from the pods of a lab
-- (services/labenv-operator), as the attempt controller reads it and writes it to the attempt
-- (services/attempt-controller/internal/upstream).
use rootenv.Common.{
  ℕ, zero, suc, ◌≡◌, ◌↔◌, ◌⊎◌, refl, ap, ◌∙◌, Bool, false, Option, none, some, List, [], ◌∷◌, map,
  length, Bytes, bytes_eq, bytes_beq, bytes_beq_iff, codes, arith,
}
use rootenv.Common.Int.{ℤ, pos}
use rootenv.Controller.Upstream.Assets.{
  text_unless_empty, to_items, state_of, get-reason, build_assets-to_items,
}
use rootenv.Controller.Upstream.{LabEnv, Patch, patch_of, phase_to_state, build_assets, build_items}
use rootenv.Controller.Value.{
  Values, Fields, text, number, array, no_fields, field, no_items, item, get, as_string, as_array,
}
use rootenv.Operator.Api.{AssetStatus, Condition, LabEnvironment, LabEnvironmentStatus}
use rootenv.Operator.Status.{count_ready, lab_phase, summarize}
use rootenv.Operator.Status.Laws.{AllReady, count_ready-AllReady}

-- `omitempty`, for the other types of the status.
abbrev pub number_unless_zero : Bytes → ℕ → Fields → Fields
number_unless_zero k zero fs = fs
number_unless_zero k (suc n) fs = field k (number (pos (suc n))) fs

abbrev pub array_unless_empty : Bytes → Values → Fields → Fields
array_unless_empty k no_items fs = fs
array_unless_empty k vs fs = field k (array vs) fs

abbrev pub time_unless_missing : (ℤ → Bytes) → Bytes → Option ℤ → Fields → Fields
time_unless_missing format k none fs = fs
time_unless_missing format k (some t) fs = field k (text (format t)) fs

-- `format` and `condition_items` stand for the JSON of a time and of the conditions.
module _ (format : ℤ → Bytes) (condition_items : List Condition → Values) where
  -- The JSON of a status, by the tags of its fields.
  unfoldable pub status_fields : LabEnvironmentStatus → Fields
  status_fields s = array_unless_empty (codes "conditions") (condition_items s.conditions) (
      text_unless_empty (codes "phase") s.phase (
        text_unless_empty (codes "namespace") s.namespace (
          time_unless_missing format (codes "expiresAt") s.expires_at (
            number_unless_zero (codes "totalAssets") s.total_assets (
              number_unless_zero (codes "readyAssets") s.ready_assets (
                text_unless_empty (codes "ready") s.ready
                  (array_unless_empty (codes "assets") (to_items s.assets) no_fields)))))))

  -- The LabEnvironment that the controller's informer hands on.
  unfoldable pub observed : Bytes → LabEnvironment → LabEnv
  observed version env =
      let fields = status_fields env.status in
      record {
        name = env.name;
        resource_version = version;
        status = fields;
        phase = as_string (get (codes "phase") fields);
        expires_at = as_string (get (codes "expiresAt") fields);
      }

get-number :
    (k j : Bytes) (n : ℕ) (fs : Fields)
    → bytes_beq j k ≡ false
    → get k (number_unless_zero j n fs) ≡ get k fs
unfolding get
get-number k j zero fs h = refl
get-number k j (suc n) fs h = ground arith

get-array :
    (k j : Bytes) (vs : Values) (fs : Fields)
    → bytes_beq j k ≡ false
    → get k (array_unless_empty j vs fs) ≡ get k fs
unfolding get
get-array k j no_items fs h = refl
get-array k j (item v vs) fs h = ground arith

get-time :
    (k j : Bytes) (format : ℤ → Bytes) (t : Option ℤ) (fs : Fields)
    → bytes_beq j k ≡ false
    → get k (time_unless_missing format j t fs) ≡ get k fs
unfolding get
get-time k j format none fs h = refl
get-time k j format (some t) fs h = ground arith

-- A text that is left out where it is empty is read as the empty text.
get-text :
    (k s : Bytes) (fs : Fields)
    → as_string (get k fs) ≡ []
    → as_string (get k (text_unless_empty k s fs)) ≡ s
unfolding get
get-text k [] fs h = h
get-text k (c ∷ s) fs h = ground (arith, bytes_beq_iff k k)

assets-read :
    (assets : List AssetStatus)
    → build_assets (array_unless_empty (codes "assets") (to_items assets) no_fields)
      ≡ map state_of assets
unfolding build_assets build_items to_items get bytes_beq
assets-read [] = refl
assets-read (a ∷ assets) =
    build_assets-to_items (array_unless_empty (codes "assets") (to_items (a ∷ assets)) no_fields)
      (a ∷ assets) refl

lab_phase-state :
    (ready total : ℕ)
    → let state = phase_to_state (lab_phase ready total) in
      ((state ≡ codes "provisioned") ↔ (ready ≡ total))
      × ((state ≡ codes "provisioned") ⊎ (state ≡ codes "provisioning"))
unfolding lab_phase phase_to_state bytes_beq
lab_phase-state ready total = ground arith

module _ (format : ℤ → Bytes) (condition_items : List Condition → Values) where
  phase-read :
      (s : LabEnvironmentStatus)
      → as_string (get (codes "phase") (status_fields format condition_items s)) ≡ s.phase
  unfolding status_fields get bytes_beq
  phase-read s =
      let k = codes "phase" in
      ap as_string (get-array k (codes "conditions") (condition_items s.conditions) _ refl)
      ∙ get-text k s.phase _ (
          ap as_string (
            get-reason k (codes "namespace") s.namespace _ refl
            ∙ get-time k (codes "expiresAt") format s.expires_at _ refl
            ∙ get-number k (codes "totalAssets") s.total_assets _ refl
            ∙ get-number k (codes "readyAssets") s.ready_assets _ refl
            ∙ get-reason k (codes "ready") s.ready _ refl
            ∙ get-array k (codes "assets") (to_items s.assets) no_fields refl))

  status-assets :
      (s : LabEnvironmentStatus)
      → build_assets (status_fields format condition_items s) ≡ map state_of s.assets
  unfolding status_fields build_assets bytes_beq
  status-assets s =
      let k = codes "assets" in
      ap (λ v. build_items (as_array v))
        (get-array k (codes "conditions") (condition_items s.conditions) _ refl
          ∙ get-reason k (codes "phase") s.phase _ refl
          ∙ get-reason k (codes "namespace") s.namespace _ refl
          ∙ get-time k (codes "expiresAt") format s.expires_at _ refl
          ∙ get-number k (codes "totalAssets") s.total_assets _ refl
          ∙ get-number k (codes "readyAssets") s.ready_assets _ refl
          ∙ get-reason k (codes "ready") s.ready _ refl)
      ∙ assets-read s.assets

  -- What the controller sends to PocketBase of a status that the operator has worked out from the
  -- states of a lab's assets, one for each: the attempt is said to be provisioned exactly if all the
  -- assets are ready, and else to be provisioning; and every asset is handed on, in order, with its
  -- name, its protocols and the state and status of its phase.
  pub patch_of-summarize :
      (format_time : Bytes → Option Bytes) (accept : Bytes → Patch → Bool) (is_written : Bool)
      (set_condition : Condition → List Condition → List Condition) (env : LabEnvironment)
      (version : Bytes) (assets : List AssetStatus)
      → length assets ≡ length env.spec.assets
      → let obj = observed format condition_items version (summarize set_condition env assets) in
        let patch = patch_of format_time accept is_written obj in
        ((patch.current_state ≡ codes "provisioned") ↔ AllReady assets)
        × ((patch.current_state ≡ codes "provisioned")
            ⊎ (patch.current_state ≡ codes "provisioning"))
        × (patch.assets ≡ some (map state_of assets))
  unfolding observed patch_of summarize
  patch_of-summarize format_time accept is_written set_condition env version assets h =
      let s = (summarize set_condition env assets).status in
      let phase = phase-read s in
      let state = lab_phase-state (count_ready assets) (length env.spec.assets) in
      let all = count_ready-AllReady assets in
      rw (phase) (ground (arith, state, all, h), state.1, ap some (status-assets s))
