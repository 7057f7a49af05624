-- ===== src/Controller/Downstream/Translation.antt =====
-- The LabEnvironment of an attempt, read back by the field names of its schema
-- (services/labenv-operator/api/v1alpha1/labenvironment_types.go).
use rootenv.Common.{
  arith, ltb, ◌^◌, Bool, if◌then◌else◌, Option, none, some, ◌≡◌, refl, ap, List, [], ◌∷◌, map,
  Bytes, bytes_eq, bytes_beq, codes, String,
}
use rootenv.Common.Int.{ℤ, pos, negsuc}
use rootenv.Operator.Api.{LabEnvironmentSpec, Asset as LabAsset, Exercise as LabExercise}
use rootenv.Controller.Value.{
  Value, number, object, Values, no_items, item, Fields, no_fields, get, as_string, as_array,
  strings, strings-texts,
}
use rootenv.Controller.Downstream.{
  Asset, Exercise, Attempt, protocols_of, asset_value, asset_values, exercise_value,
  exercise_values, spec_fields, to_lab_environment,
}

abbrev pub as_object : Value → Fields
as_object (object fs) = fs
as_object _ = no_fields

abbrev pub fits_int32 : ℤ → Bool
fits_int32 (pos n) = ltb n (2 ^ 31)
fits_int32 (negsuc n) = ltb n (2 ^ 31)

-- A number of type `int32`: a decoder refuses one that does not fit, and leaves a field that is not
-- there at zero.
abbrev as_int32 : Value → Option ℤ
as_int32 (number n) = if fits_int32 n then some n else none
as_int32 _ = some (pos 0)

abbrev text_at : String → Fields → Bytes
text_at k fs = as_string (get (codes k) fs)

unfoldable pub read_asset : Fields → LabAsset
read_asset fs = record {
  name = text_at "name" fs;
  image = text_at "image" fs;
  cpu = text_at "cpu" fs;
  memory = text_at "memory" fs;
  disk = text_at "disk" fs;
  protocols = strings (as_array (get (codes "protocols") fs));
  setup = text_at "setup" fs;
}

unfoldable pub read_assets : Values → List LabAsset
read_assets no_items = []
read_assets (item v vs) = read_asset (as_object v) ∷ read_assets vs

unfoldable pub read_exercise : Fields → LabExercise
read_exercise fs = record {
  id = text_at "id" fs;
  description = text_at "description" fs;
  type = text_at "type" fs;
  asset = text_at "asset" fs;
  template = text_at "template" fs;
}

unfoldable pub read_exercises : Values → List LabExercise
read_exercises no_items = []
read_exercises (item v vs) = read_exercise (as_object v) ∷ read_exercises vs

-- `metadata.name` and the spec, as the operator's types decode them; `none` is a decoder's error.
unfoldable pub read_lab_environment : Fields → Option (Bytes × LabEnvironmentSpec)
read_lab_environment fs =
    let spec = as_object (get (codes "spec") fs) in
    elim (as_int32 (get (codes "ttl") spec)) [
      | none ↦ none
      | some ttl ↦ some (
        text_at "name" (as_object (get (codes "metadata") fs)),
        record {
          owner_id = text_at "ownerId" spec;
          owner_name = text_at "ownerName" spec;
          lab_id = text_at "labId" spec;
          ttl = ttl;
          assets = read_assets (as_array (get (codes "assets") spec));
          exercises = read_exercises (as_array (get (codes "exercises") spec));
        },
      )
    ]

unfoldable pub lab_asset : Asset → LabAsset
lab_asset a = record {
  name = a.name;
  image = a.image;
  cpu = a.cpu;
  memory = a.memory;
  disk = a.disk;
  protocols = protocols_of a.relay_protocols;
  setup = a.setup;
}

unfoldable pub lab_exercise : Exercise → LabExercise
lab_exercise e = record {
  id = e.id;
  description = e.description;
  type = e.type;
  asset = e.asset;
  template = e.template;
}

read_asset-asset_value : (a : Asset) → read_asset (as_object (asset_value a)) ≡ lab_asset a
unfolding read_asset asset_value lab_asset get bytes_beq
read_asset-asset_value a =
    ap (λ ps. record (lab_asset a) { protocols = ps })
      (strings-texts (protocols_of a.relay_protocols))

read_assets-asset_values :
    (assets : List Asset) → read_assets (asset_values assets) ≡ map lab_asset assets
unfolding read_assets asset_values
read_assets-asset_values [] = refl
read_assets-asset_values (a ∷ assets) =
    rw (read_asset-asset_value a, read_assets-asset_values assets)

read_exercise-exercise_value :
    (e : Exercise) → read_exercise (as_object (exercise_value e)) ≡ lab_exercise e
unfolding read_exercise exercise_value lab_exercise get bytes_beq
read_exercise-exercise_value e = refl

read_exercises-exercise_values :
    (exercises : List Exercise)
    → read_exercises (exercise_values exercises) ≡ map lab_exercise exercises
unfolding read_exercises exercise_values
read_exercises-exercise_values [] = refl
read_exercises-exercise_values (e ∷ exercises) =
    rw (read_exercise-exercise_value e, read_exercises-exercise_values exercises)

-- The spec of an attempt's LabEnvironment.
abbrev pub lab_spec : Attempt → LabEnvironmentSpec
lab_spec a = record {
  owner_id = a.user_id;
  owner_name = a.user_name;
  lab_id = a.lab_id;
  ttl = a.environment.duration;
  assets = map lab_asset a.environment.assets;
  exercises = map lab_exercise a.exercises;
}

-- Read by the operator's field names and types, the LabEnvironment of an attempt is named after the
-- attempt and has its user, lab, duration, assets (a missing list of protocols is empty) and
-- exercises where the duration fits into 32 bits; it cannot be read where it does not.
pub read-to_lab_environment :
    (a : Attempt)
    → read_lab_environment (to_lab_environment a)
      ≡ (if fits_int32 a.environment.duration then some (a.id, lab_spec a) else none)
unfolding read_lab_environment to_lab_environment spec_fields get bytes_beq
read-to_lab_environment a = ground (
  arith,
  read_assets-asset_values a.environment.assets,
  read_exercises-exercise_values a.exercises,
)
