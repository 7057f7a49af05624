-- ===== src/Operator/Reconcile/Time.antt =====
-- services/labenv-operator/internal/controller/labenvironment_controller.go: when a lab expires.
use rootenv.Common.Int.{
  ℤ, pos, negsuc, pos_part, neg_part, ◌+ℤ◌, ◌≤ℤ◌, +ℤ_parts, eq_of_parts, leb_ℤ,
}
use rootenv.Common.Int64.{wrap64, scale, ◌-ℤ◌, saturate}
use rootenv.Common.{
  ◌≢◌, refl, zero, suc, ◌⊎◌, inl, inr, Bool-cases, ℕ, ◌≡◌, ap, Option, none, some, ◌+◌, ◌*◌, arith,
}
use rootenv.Operator.Api.{LabEnvironment}

-- `time.Minute`, in nanoseconds
abbrev pub minute : ℕ
minute = 60000000000

abbrev pub second : ℕ
second = 1000000000

-- `time.Duration(ttl) * time.Minute`
abbrev pub time_to_live : ℤ → ℤ
time_to_live ttl = wrap64 (scale minute ttl)

abbrev pub or_expiry : Option ℤ → ℤ → ℤ
or_expiry none t = t
or_expiry (some t) _ = t

unfoldable pub expiry : LabEnvironment → ℤ
expiry env = or_expiry env.status.expires_at (env.created_at +ℤ time_to_live env.spec.ttl)

-- `time.Until`, but a second where the time is out.
abbrev pub at_least_now : ℤ → ℤ
at_least_now (pos n) = pos n
at_least_now (negsuc n) = pos second

unfoldable pub remaining : ℤ → ℤ → ℤ
remaining t later = at_least_now (saturate (t -ℤ later))

scale-pos : (n : ℕ) → scale minute (pos n) ≡ pos (n * minute)
scale-pos n = ground arith

wait-bounds :
    (d : ℤ) → (pos 0 ≤ℤ at_least_now (saturate d)) × (pos 0 ≤ℤ d → at_least_now (saturate d) ≤ℤ d)
wait-bounds d = ground arith

-ℤ_parts :
    (a b : ℤ)
    → pos_part (a -ℤ b) + neg_part a + pos_part b ≡ neg_part (a -ℤ b) + pos_part a + neg_part b
-ℤ_parts a b = ground arith

zero_parts : {d : ℤ} → d ≡ pos 0 → (pos_part d ≡ 0) × (neg_part d ≡ 0)
zero_parts e = (ap pos_part e, ap neg_part e)

positive : (d : ℤ) → d ≢ pos 0 → pos 1 ≤ℤ at_least_now (saturate d)
positive (pos zero) h = absurd (h refl)
positive (pos (suc n)) h = ground arith
positive (negsuc n) h = ground arith

pub remaining-positive : (t later : ℤ) → t ≢ later → pos 1 ≤ℤ remaining t later
unfolding remaining
remaining-positive t later h =
    positive (t -ℤ later)
      (λ e. h (eq_of_parts t later (omega (arith, -ℤ_parts t later, zero_parts e))))

-- The wait that a reconciliation asks for is not negative, and does not pass the time of expiry
-- while that is to come.
pub remaining-bounds :
    (t later : ℤ) → (pos 0 ≤ℤ remaining t later) × (later ≤ℤ t → later +ℤ remaining t later ≤ℤ t)
unfolding remaining
remaining-bounds t later =
    let w = at_least_now (saturate (t -ℤ later)) in
    let (nonneg, below) = wait-bounds (t -ℤ later) in
    (
      nonneg,
      λ h.
          omega
            (arith, +ℤ_parts later w, -ℤ_parts t later, below (omega (arith, -ℤ_parts t later)), h),
    )

-- A time that is above zero is not that of `ctrl.Result{}`.
pub remaining-nonzero : (t later : ℤ) → t ≢ later → remaining t later ≢ pos 0
remaining-nonzero t later h e = absurd (omega (arith, remaining-positive t later h, zero_parts e))

-- The wait does not pass the time of expiry, unless that has been reached.
pub remaining-within : (t later : ℤ) → (t ≤ℤ later) ⊎ (later +ℤ remaining t later ≤ℤ t)
remaining-within t later = elim (Bool-cases (leb_ℤ later t)) [
  | inl e ↦ inr ((remaining-bounds t later).1 (ground (arith, e)))
  | inr e ↦ inl (ground (arith, e))
]
