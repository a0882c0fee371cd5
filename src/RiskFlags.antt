-- ===== src/RiskFlags.antt =====
-- A risk flag, its severities, and the helpers on lists of flags. The gates declare them alike:
-- src/quantpilot_core/account_profile_preflight, ai_action_paper_bridge, paper_ledger_dry_run and
-- multi_day_paper_replay.
pub mod Unique
use Prim.Native.String
use quant_pilot_ai_next.Base.{
  String, ◌≡◌, Bool, false, List, [], ◌∷◌, ◌++◌, map, arith, any, any-append, if◌then◌else◌,
}
use quant_pilot_ai_next.Text.{◌==◌, contains}

pub record RiskFlag : Type 0 where
  pub code : String
  pub severity : String
  pub message : String

abbrev pub critical : String → String → RiskFlag
critical code message = record { code = code; severity = "critical"; message = message }

abbrev pub high : String → String → RiskFlag
high code message = record { code = code; severity = "high"; message = message }

abbrev pub medium : String → String → RiskFlag
medium code message = record { code = code; severity = "medium"; message = message }

abbrev pub is_critical : RiskFlag → Bool
is_critical flag = flag.severity == "critical"

-- `_has_critical`
abbrev pub has_critical : List RiskFlag → Bool
has_critical flags = any is_critical flags

-- the flags whose severity is critical
unfoldable pub criticals : List RiskFlag → List RiskFlag
criticals [] = []
criticals (flag ∷ flags) =
    let rest = criticals flags in if is_critical flag then flag ∷ rest else rest

-- the flags of the account's preflight that a run starts with
unfoldable pub account_warnings : String → List RiskFlag → List RiskFlag
unfolding criticals
account_warnings message flags =
    map
      (λ (flag : RiskFlag).
        medium (String.◌++◌ "account_preflight:" flag.code) (String.◌++◌ message flag.message))
      (criticals flags)

-- `_unique`, from the values seen so far
unfoldable pub unique_from : List String → List String → List String
unique_from seen [] = []
unique_from seen (value ∷ values) =
    let rest = unique_from seen values in
    let added = unique_from (value ∷ seen) values in
    if contains value seen then rest else value ∷ added

unfoldable pub unique : List String → List String
unfolding unique_from
unique values = unique_from [] values

pub has_critical-append :
    (xs ys : List RiskFlag)
    → has_critical (xs ++ ys) ≡ false
    → (has_critical xs ≡ false) × (has_critical ys ≡ false)
has_critical-append xs ys h = ground (arith, any-append is_critical xs ys)
