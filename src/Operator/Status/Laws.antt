-- ===== src/Operator/Status/Laws.antt =====
-- The status tells how many assets are ready.
use rootenv.Common.{
  Bytes, suc, ◌∙◌, ap, zero, ◌*◌, ◌+◌, ◌-◌, ◌/◌, ◌%◌, ◌<◌, Bool-cases, inl, inr, ltb, ℕ, ◌≡◌, ◌↔◌,
  ◌≤◌, true, List, [], ◌∷◌, length, bytes_eq, codes, arith,
}
use rootenv.Operator.Api.{AssetStatus, Condition, LabEnvironment}
use rootenv.Operator.Status.{digits, decimal, count_ready, lab_phase, summarize}

abbrev pub AllReady : List AssetStatus → Type 0
AllReady [] = Unit
AllReady (a ∷ assets) = (a.ready ≡ true) × AllReady assets

count_ready-length : (assets : List AssetStatus) → count_ready assets ≤ length assets
unfolding count_ready
count_ready-length [] = omega arith
count_ready-length (a ∷ assets) = ground (arith, count_ready-length assets)

pub count_ready-AllReady :
    (assets : List AssetStatus) → (count_ready assets ≡ length assets) ↔ AllReady assets
unfolding count_ready
count_ready-AllReady [] = ground arith
count_ready-AllReady (a ∷ assets) =
    ground (arith, count_ready-AllReady assets, count_ready-length assets)

lab_phase-ready : (ready total : ℕ) → (lab_phase ready total ≡ codes "Ready") ↔ (ready ≡ total)
unfolding lab_phase
lab_phase-ready ready total = ground arith

-- Of the states of a lab's assets, one for each: the lab is said to be ready just where all the
-- assets are, and no more of them are counted as ready than there are.
pub summarize-AllReady :
    (set_condition : Condition → List Condition → List Condition) (env : LabEnvironment)
    → (assets : List AssetStatus) → length assets ≡ length env.spec.assets
    → (((summarize set_condition env assets).status.phase ≡ codes "Ready") ↔ AllReady assets)
      × ((summarize set_condition env assets).status.ready_assets
          ≤ (summarize set_condition env assets).status.total_assets)
unfolding summarize
summarize-AllReady set_condition env assets h = ground (
  arith,
  h,
  lab_phase-ready (count_ready assets) (length env.spec.assets),
  count_ready-AllReady assets,
  count_ready-length assets,
)

-- The number that a text of digits stands for, behind one that is read.
unfoldable pub read_decimal : ℕ → Bytes → ℕ
read_decimal n [] = n
read_decimal n (c ∷ cs) = read_decimal (n * 10 + (c - 48)) cs

digits-read :
    (fuel n : ℕ) (later : Bytes)
    → n < fuel
    → read_decimal 0 (digits fuel n later) ≡ read_decimal n later
unfolding digits read_decimal
digits-read zero n later h = absurd (omega arith)
digits-read (suc fuel) n later h = elim (Bool-cases (ltb n 10)) [
  | inl e ↦ rw e (ap (λ m. read_decimal m later) (ground (arith, e)))
  | inr e ↦ rw e (
      digits-read fuel (n / 10) ((48 + n % 10) ∷ later) (ground (arith, e, h))
      ∙ ap (λ m. read_decimal m later) (omega arith))
]

-- The counts in a status can be read back.
pub decimal-read : (n : ℕ) → read_decimal 0 (decimal n) ≡ n
unfolding read_decimal
decimal-read n = digits-read (suc n) n [] (omega arith)
