-- ===== src/RiskFlags/Unique.antt =====
-- `_unique` of the gates (src/quantpilot_core/ai_action_paper_bridge/bridge.py and
-- paper_ledger_dry_run/dry_run.py) keeps every text, once.
use quant_pilot_ai_next.Base.{
  String, ◌≡◌, refl, true, false, not, ◌&&◌, List, [], ◌∷◌, arith, All, Bool-cases, inl, inr,
}
use quant_pilot_ai_next.Text.{◌==◌, contains, Distinct, eq_iff, eq_refl}
use quant_pilot_ai_next.RiskFlags.{unique, unique_from}

eq_swap : (s t : String) → t == s ≡ false → s == t ≡ false
eq_swap s t h = ground (arith, eq_iff s t, eq_refl s)

absent-All : (s : String) (xs : List String) → contains s xs ≡ false → All (λ y. s == y ≡ false) xs
absent-All s [] h = tt
absent-All s (x ∷ xs) h = (eq_swap s x (ground arith), absent-All s xs (ground arith))

contains_same : (s t : String) (xs : List String) → s == t ≡ true → contains s xs ≡ contains t xs
contains_same s t xs h = rw ((eq_iff s t).0 h) refl

contains-unique_from :
    (s : String) (seen values : List String)
    → contains s (unique_from seen values) ≡ (contains s values && not (contains s seen))
unfolding unique_from
contains-unique_from s seen [] = refl
contains-unique_from s seen (value ∷ values) = ground (
  arith,
  contains-unique_from s seen values,
  contains-unique_from s (value ∷ seen) values,
  contains_same value s seen,
)

unique_from-Distinct : (seen values : List String) → Distinct (unique_from seen values)
unfolding unique_from
unique_from-Distinct seen [] = tt
unique_from-Distinct seen (value ∷ values) = elim (Bool-cases (contains value seen)) [
  | inl old ↦ rw old (unique_from-Distinct seen values)
  | inr new ↦ rw new (
    absent-All value (unique_from (value ∷ seen) values)
        (ground (arith, contains-unique_from value (value ∷ seen) values, eq_refl value)),
    unique_from-Distinct (value ∷ seen) values,
  )
]

pub contains-unique :
    (s : String) (values : List String) → contains s (unique values) ≡ contains s values
unfolding unique
contains-unique s values = ground (arith, contains-unique_from s [] values)

pub unique-Distinct : (values : List String) → Distinct (unique values)
unfolding unique
unique-Distinct values = unique_from-Distinct [] values
