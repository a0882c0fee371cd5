-- ===== src/LegacyEngine.antt =====
-- src/quantpilot_core/config/legacy_engine.py: the paper engines run only where they are asked for.
-- The value of the environment variable USE_LEGACY_ENGINE, or `none` where it is not set, is a parameter.
use quant_pilot_ai_next.Base.{
  String, Bool, Option, none, some, List, [], ◌∷◌, not, Call, runtime_error, raise_if,
}
use quant_pilot_ai_next.Text.Strip.{strips_lower_in}

abbrev pub legacy_engine_disabled_reason : String
legacy_engine_disabled_reason =
    "legacy paper engine disabled; use vectorbt_integration/provider_vectorbt_replay or explicitly set USE_LEGACY_ENGINE=true for reference compatibility"

abbrev pub true_values : List String
true_values = "1" ∷ "true" ∷ "yes" ∷ "on" ∷ []

-- the variable, or the empty text
abbrev pub variable_or_empty : Option String → String
variable_or_empty none = ""
variable_or_empty (some value) = value

unfoldable pub use_legacy_engine_default : Option String → Bool
unfolding strips_lower_in
use_legacy_engine_default variable = strips_lower_in (variable_or_empty variable) true_values

unfoldable pub legacy_engine_enabled : Option String → Option Bool → Bool
unfolding use_legacy_engine_default
legacy_engine_enabled variable none = use_legacy_engine_default variable
legacy_engine_enabled variable (some explicit) = explicit

unfoldable pub require_legacy_engine : Option String → Option Bool → Call (Unit {0})
unfolding legacy_engine_enabled
require_legacy_engine variable explicit =
    raise_if (not (legacy_engine_enabled variable explicit))
      (runtime_error legacy_engine_disabled_reason)
