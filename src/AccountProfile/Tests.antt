-- ===== src/AccountProfile/Tests.antt =====
-- The preflight of src/quantpilot_core/account_profile_preflight on a sample account.
use quant_pilot_ai_next.AccountProfile.Contracts.{AccountPosition}
use quant_pilot_ai_next.AccountProfile.Passed.{
  run_account_profile_preflight-IsSound, normalize_sellable_quantities_bounds,
}
use quant_pilot_ai_next.AccountProfile.Samples.{sample_profile}
use quant_pilot_ai_next.AccountProfile.Laws.{IsSound}
use quant_pilot_ai_next.Dict.{get_or, dict_of}
use quant_pilot_ai_next.AccountProfile.Preflight.{run_account_profile_preflight}
use quant_pilot_ai_next.AccountProfile.Limits.{normalize_sellable_quantities, symbol_of}
use quant_pilot_ai_next.Base.{◌≡◌, refl, false, true, ◌∷◌, []}
use quant_pilot_ai_next.Int.{ℤ, pos, ◌+ℤ◌, ◌≤ℤ◌, max_ℤ}
use quant_pilot_ai_next.Float.{fixed}

normalize_sellable_quantities_bounds_example :
    let sellable = get_or (pos 0) "600000" (normalize_sellable_quantities sample_profile) in
    let quantity = get_or (pos 0) "600000" (
      dict_of symbol_of
        (λ (position : AccountPosition ℤ). position.quantity)
        sample_profile.positions) in
    (pos 0 ≤ℤ sellable) × (sellable ≤ℤ max_ℤ (pos 0) quantity)
normalize_sellable_quantities_bounds_example =
    normalize_sellable_quantities_bounds sample_profile "600000"

sellable_sample : normalize_sellable_quantities sample_profile ≡ ("600000", pos 200) ∷ []
unfolding normalize_sellable_quantities
sellable_sample = refl

passes : (run_account_profile_preflight sample_profile false false).ok ≡ true
unfolding run_account_profile_preflight ◌+ℤ◌
passes = refl

run_account_profile_preflight-IsSound_example : IsSound sample_profile false false
run_account_profile_preflight-IsSound_example =
    run_account_profile_preflight-IsSound sample_profile false false passes
