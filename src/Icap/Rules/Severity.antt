-- ===== src/Icap/Rules/Severity.antt =====
-- The severity of a result is the highest of its matches.
use ai_scan_interceptor.Base.{
  ◌≤◌, ◌≡◌, ◌⊎◌, inl, inr, refl, Bool, true, ◌||◌, List, [], ◌∷◌, arith, leb, Bytes, All, any, ◌∙◌,
  same, same_refl, Bool-cases,
}
use ai_scan_interceptor.Icap.Rules.{
  RuleMatch, severity_order, highest_severity, compute_severity_from, compute_severity,
}

highest-le :
    (a b : Bytes)
    → (severity_order a ≤ severity_order (highest_severity a b))
      × (severity_order b ≤ severity_order (highest_severity a b))
unfolding highest_severity
highest-le a b = elim (Bool-cases (leb (severity_order b) (severity_order a))) [
  | inl first ↦ rw first (omega arith, ground arith)
  | inr second ↦ rw second (ground arith, omega arith)
]

from-le :
    (sev : Bytes) (ms : List RuleMatch)
    → severity_order sev ≤ severity_order (compute_severity_from sev ms)
unfolding compute_severity_from
from-le sev [] = omega arith
from-le sev (m ∷ ms) =
    omega (arith, highest-le sev m.severity, from-le (highest_severity sev m.severity) ms)

from-All :
    (sev : Bytes) (ms : List RuleMatch)
    → All (λ m. severity_order m.severity ≤ severity_order (compute_severity_from sev ms)) ms
unfolding compute_severity_from
from-All sev [] = tt
from-All sev (m ∷ ms) = (
  omega (arith, highest-le sev m.severity, from-le (highest_severity sev m.severity) ms),
  from-All (highest_severity sev m.severity) ms,
)

-- No match is more severe than the severity of the whole.
pub compute_severity-All :
    (ms : List RuleMatch)
    → All (λ m. severity_order m.severity ≤ severity_order (compute_severity ms)) ms
unfolding compute_severity
compute_severity-All ms = from-All [] ms

highest-either : (a b : Bytes) → (highest_severity a b ≡ a) ⊎ (highest_severity a b ≡ b)
unfolding highest_severity
highest-either a b = elim (Bool-cases (leb (severity_order b) (severity_order a))) [
  | inl first ↦ inl (rw first refl)
  | inr second ↦ inr (rw second refl)
]

or-right : (a b : Bool) → b ≡ true → (a || b) ≡ true
or-right a b e = ground arith

or-left : (a b : Bool) → a ≡ true → (a || b) ≡ true
or-left a b e = ground arith

from-attained :
    (sev : Bytes) (ms : List RuleMatch)
    → (compute_severity_from sev ms ≡ sev)
      ⊎ (any (λ m. same m.severity (compute_severity_from sev ms)) ms ≡ true)
unfolding compute_severity_from
from-attained sev [] = inl refl
from-attained sev (m ∷ ms) =
    let sev' = highest_severity sev m.severity in
    let out = compute_severity_from sev' ms in
    elim (from-attained sev' ms) [
      | inl e ↦ elim (highest-either sev m.severity) [
        | inl w ↦ inl (e ∙ w)
        | inr w ↦ inr (
            or-left (same m.severity out) (any (λ x. same x.severity out) ms)
              (rw (e ∙ w) (same_refl m.severity)))
      ]
      | inr h ↦ inr (or-right (same m.severity out) (any (λ x. same x.severity out) ms) h)
    ]

-- The severity of the whole is that of some match, or the empty text.
pub compute_severity-attained :
    (ms : List RuleMatch)
    → (compute_severity ms ≡ []) ⊎ (any (λ m. same m.severity (compute_severity ms)) ms ≡ true)
unfolding compute_severity
compute_severity-attained ms = from-attained [] ms
