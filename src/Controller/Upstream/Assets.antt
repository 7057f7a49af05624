-- ===== src/Controller/Upstream/Assets.antt =====
-- The operator's asset states (services/labenv-operator/api/v1alpha1) as the upstream reads them.
use rootenv.Common.{
  ◌≡◌, refl, ap, ◌∙◌, false, List, [], ◌∷◌, map, Bytes, bytes_eq, bytes_beq, codes, arith,
}
use rootenv.Controller.Value.{
  boolean, text, array, object, Values, no_items, item, Fields, no_fields, field, get, as_array,
  strings, texts, strings-texts,
}
use rootenv.Controller.Upstream.{
  AssetState, build_asset, build_items, build_assets, asset_phase_to_state, asset_phase_to_status,
}
use rootenv.Operator.Api.{AssetStatus}

-- `omitempty`
abbrev pub text_unless_empty : Bytes → Bytes → Fields → Fields
text_unless_empty k [] fs = fs
text_unless_empty k (c ∷ cs) fs = field k (text (c ∷ cs)) fs

abbrev pub texts_unless_empty : Bytes → List Bytes → Fields → Fields
texts_unless_empty k [] fs = fs
texts_unless_empty k (s ∷ ss) fs = field k (array (texts (s ∷ ss))) fs

-- The JSON of an asset's state, by the tags of its fields.
unfoldable pub to_fields : AssetStatus → Fields
to_fields a = field (codes "name") (text a.name) (
    field (codes "phase") (text a.phase) (
      text_unless_empty (codes "reason") a.reason (
        field (codes "ready") (boolean a.ready) (
          text_unless_empty (codes "address") a.address
            (texts_unless_empty (codes "protocols") a.protocols no_fields)))))

unfoldable pub to_items : List AssetStatus → Values
to_items [] = no_items
to_items (a ∷ assets) = item (object (to_fields a)) (to_items assets)

abbrev pub state_of : AssetStatus → AssetState
state_of a = record {
  name = a.name;
  state = asset_phase_to_state a.phase;
  status = asset_phase_to_status a.phase;
  protocols = a.protocols;
}

pub get-reason :
    (k j r : Bytes) (fs : Fields)
    → bytes_beq j k ≡ false
    → get k (text_unless_empty j r fs) ≡ get k fs
unfolding get
get-reason k j [] fs h = refl
get-reason k j (c ∷ r) fs h = ground arith

protocols_lem :
    (ss : List Bytes)
    → strings
        (as_array (get (codes "protocols") (texts_unless_empty (codes "protocols") ss no_fields)))
      ≡ ss
unfolding get bytes_beq strings
protocols_lem [] = refl
protocols_lem (s ∷ ss) = strings-texts (s ∷ ss)

build_asset-to_fields : (a : AssetStatus) → build_asset (to_fields a) ≡ state_of a
unfolding build_asset to_fields get bytes_beq
build_asset-to_fields a =
    let k = codes "protocols" in
    ap (λ v. record (state_of a) { protocols = strings (as_array v) })
      (get-reason k (codes "reason") a.reason _ refl
        ∙ get-reason k (codes "address") a.address _ refl)
    ∙ ap (λ ss. record (state_of a) { protocols = ss }) (protocols_lem a.protocols)

build_items-to_items :
    (assets : List AssetStatus) → build_items (to_items assets) ≡ map state_of assets
unfolding build_items to_items
build_items-to_items [] = refl
build_items-to_items (a ∷ assets) = rw (build_asset-to_fields a, build_items-to_items assets)

-- Of a status that lists asset states as the operator writes them, every one is handed on, in
-- order, with its name, its protocols and the state and status of its phase.
pub build_assets-to_items :
    (status : Fields) (assets : List AssetStatus)
    → get (codes "assets") status ≡ array (to_items assets)
    → build_assets status ≡ map state_of assets
unfolding build_assets
build_assets-to_items status assets h =
    ap (λ v. build_items (as_array v)) h ∙ build_items-to_items assets
