-- ===== src/MarketReality/Reasons.antt =====
-- The list of rejection reasons of src/quantpilot_core/market_reality/validation.py.
use quant_pilot_ai_next.Base.{
  ◌≡◌, refl, ap, Bool, false, List, [], ◌∷◌, ◌++◌, ◌||◌, arith, ◌==◌, any, any-append, Bool-cases,
  inl, inr,
}
use quant_pilot_ai_next.MarketReality.Contracts.{
  SandboxRejectionReason, SandboxValidationIssue, reason_index,
}
use quant_pilot_ai_next.MarketReality.Scenario.{seen, collect_reasons, rejection_reasons}

-- some issue has the reason
abbrev pub has_reason : SandboxRejectionReason → List SandboxValidationIssue → Bool
has_reason reason issues = any (λ i. reason_index i.rejection_reason == reason_index reason) issues

-- no reason stands twice
abbrev pub IsDistinct : List SandboxRejectionReason → Type 0
IsDistinct [] = Unit
IsDistinct (r ∷ rs) = (seen r rs ≡ false) × IsDistinct rs

seen-append :
    (r : SandboxRejectionReason) (xs ys : List SandboxRejectionReason)
    → seen r (xs ++ ys) ≡ (seen r xs || seen r ys)
unfolding seen
seen-append r xs ys = any-append _ xs ys

IsDistinct-append :
    (xs : List SandboxRejectionReason) (r : SandboxRejectionReason)
    → seen r xs ≡ false
    → IsDistinct xs
    → IsDistinct (xs ++ r ∷ [])
unfolding seen
IsDistinct-append [] r h d = (refl, tt)
IsDistinct-append (x ∷ xs) r h d =
    (ground (arith, seen-append x xs (r ∷ [])), IsDistinct-append xs r (ground arith) d.1)

seen_same :
    (r t : SandboxRejectionReason) (xs : List SandboxRejectionReason)
    → reason_index r ≡ reason_index t
    → seen r xs ≡ seen t xs
unfolding seen
seen_same r t xs e = ap (λ n. any (λ x. reason_index x == n) xs) e

seen_one : (r t : SandboxRejectionReason) → seen r (t ∷ []) ≡ (reason_index t == reason_index r)
unfolding seen
seen_one r t = ground arith

seen-collect_reasons :
    (r : SandboxRejectionReason) (acc : List SandboxRejectionReason)
    (issues : List SandboxValidationIssue)
    → seen r (collect_reasons acc issues) ≡ (seen r acc || has_reason r issues)
unfolding collect_reasons
seen-collect_reasons r acc [] = ground arith
seen-collect_reasons r acc (i ∷ issues) = elim (Bool-cases (seen i.rejection_reason acc)) [
  | inl old ↦
      rw old
        (ground (arith, old, seen-collect_reasons r acc issues, seen_same i.rejection_reason r acc))
  | inr new ↦ rw new (
      ground (
        arith,
        seen-collect_reasons r (acc ++ i.rejection_reason ∷ []) issues,
        seen-append r acc (i.rejection_reason ∷ []),
        seen_one r i.rejection_reason,
      ))
]

IsDistinct-collect_reasons :
    (acc : List SandboxRejectionReason) (issues : List SandboxValidationIssue)
    → IsDistinct acc
    → IsDistinct (collect_reasons acc issues)
unfolding collect_reasons
IsDistinct-collect_reasons acc [] d = d
IsDistinct-collect_reasons acc (i ∷ issues) d = elim (Bool-cases (seen i.rejection_reason acc)) [
  | inl old ↦ rw old (IsDistinct-collect_reasons acc issues d)
  | inr new ↦ rw new (
      IsDistinct-collect_reasons (acc ++ i.rejection_reason ∷ []) issues
        (IsDistinct-append acc i.rejection_reason new d))
]

-- The reasons listed are exactly those of the issues, and none is listed twice.
pub rejection_reasons_lem :
    (issues : List SandboxValidationIssue)
    → ((r : SandboxRejectionReason) → seen r (rejection_reasons issues) ≡ has_reason r issues)
      × IsDistinct (rejection_reasons issues)
unfolding rejection_reasons
rejection_reasons_lem issues =
    (λ r. seen-collect_reasons r [] issues, IsDistinct-collect_reasons [] issues tt)
