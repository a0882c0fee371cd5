-- ===== src/DryRun/Tests.antt =====
-- The dry run of src/quantpilot_core/paper_ledger_dry_run on a sample account and sample instructions.
use quant_pilot_ai_next.DryRun.Steps.{validate-IsValid}
use quant_pilot_ai_next.DryRun.Decision.{rejected_ids, dry_run_decides}
use quant_pilot_ai_next.Text.{Distinct, contains}
use quant_pilot_ai_next.RiskFlags.{unique}
use quant_pilot_ai_next.DryRun.Flaws.{dry_run_oversells}
use quant_pilot_ai_next.DryRun.Simulate.{sellable_now, simulate}
use quant_pilot_ai_next.AccountProfile.Limits.{normalize_sellable_quantities}
use quant_pilot_ai_next.DryRun.Once.{id_of_result, id_of_instruction, dry_run-Distinct}
use quant_pilot_ai_next.AccountProfile.Samples.{sample_profile}
use quant_pilot_ai_next.DryRun.Samples.{first_sale, purchase, second_sale}
use quant_pilot_ai_next.ActionBridge.Contracts.{PaperLedgerCandidateInstruction}
use quant_pilot_ai_next.DryRun.Laws.{
  NoShort, dry_run-NoShort, cash_after, position_change, dry_run_accounts,
}
use quant_pilot_ai_next.DryRun.Preflight.{validate_dry_run_instruction}
use quant_pilot_ai_next.Dict.{get_or, lookup, dict_of}
use quant_pilot_ai_next.DryRun.Run.{
  dry_run, is_rejected, initial_positions, is_simulated, decide, run_from, step, run_round, start,
  result_of, record_result, duplicate_result,
}
use quant_pilot_ai_next.DryRun.Order.{FailFast, dry_run-FailFast, simulated_ids}
use quant_pilot_ai_next.Base.{
  ◌≡◌, refl, true, false, [], ◌∷◌, arith, All, not, any, ◌||◌, ◌&&◌, map, if◌then◌else◌, List,
  is_empty, String,
}
use quant_pilot_ai_next.Int.{ℤ, pos, ◌≤ℤ◌, ◌+ℤ◌, ◌-ℤ◌}
use quant_pilot_ai_next.Float.{fixed}
use quant_pilot_ai_next.DryRun.Contracts.{accepted, partial, blocked}

abbrev orders : List (PaperLedgerCandidateInstruction ℤ)
orders = purchase ∷ first_sale ∷ purchase ∷ second_sale ∷ []

-- the second purchase is a duplicate, the others are simulated
ran :
    let result = dry_run orders sample_profile false false in
    (result.decision ≡ partial)
    × (get_or (pos 0) "600000" result.simulated_positions_after ≡ pos 100)
    × (result.blocked_instruction_ids ≡ "p1" ∷ [])
unfolding dry_run ◌+ℤ◌ get_or decide run_from step run_round start result_of simulate record_result
    duplicate_result unique
ran = (refl, refl, refl)

dry_run_accounts_example :
    let result = dry_run orders sample_profile false false in
    (result.simulated_cash_after
      ≡ cash_after sample_profile.cash.available_cash result.instruction_results)
    × ((symbol : String)
        → get_or (pos 0) symbol result.simulated_positions_after
          ≡ get_or (pos 0) symbol (initial_positions sample_profile)
            +ℤ position_change symbol result.instruction_results)
dry_run_accounts_example = dry_run_accounts orders sample_profile false false

starts_long : NoShort (initial_positions sample_profile)
unfolding get_or lookup dict_of
starts_long symbol = ground arith

dry_run-NoShort_example :
    NoShort (dry_run orders sample_profile false false).simulated_positions_after
dry_run-NoShort_example = dry_run-NoShort orders sample_profile false false starts_long

dry_run-FailFast_example :
    FailFast (dry_run orders sample_profile false true).instruction_results
    × All
        (λ r. is_simulated r || is_rejected r ≡ true)
        (dry_run orders sample_profile false false).instruction_results
dry_run-FailFast_example = dry_run-FailFast sample_profile false orders

dry_run-Distinct_example :
    let results = (dry_run orders sample_profile false false).instruction_results in
    (map id_of_result results ≡ map id_of_instruction orders) × Distinct (simulated_ids results)
dry_run-Distinct_example = dry_run-Distinct sample_profile false false orders

dry_run_decides_example :
    let result = dry_run orders sample_profile false false in
    let results = result.instruction_results in
    (result.ok ≡ not (any is_rejected results))
    × (result.decision ≡ (
        if not (any is_rejected results)
        then accepted
        else if not false && any is_simulated results
        then partial
        else blocked))
    × (result.blocked_instruction_ids ≡ unique (rejected_ids results))
    × Distinct result.blocked_instruction_ids
    × ((id : String)
        → contains id result.blocked_instruction_ids ≡ contains id (rejected_ids results))
dry_run_decides_example = dry_run_decides sample_profile false false orders

fits :
    (first_sale.quantity
      ≤ℤ sellable_now first_sale sample_profile (initial_positions sample_profile))
    × (second_sale.quantity
        ≤ℤ sellable_now second_sale sample_profile (initial_positions sample_profile))
    × (first_sale.quantity +ℤ second_sale.quantity
        ≤ℤ get_or (pos 0) "600000" (initial_positions sample_profile))
unfolding get_or lookup normalize_sellable_quantities ◌+ℤ◌
fits = (ground arith, ground arith, ground arith)

valid :
    (is_empty (validate_dry_run_instruction first_sale false) ≡ true)
    × (is_empty (validate_dry_run_instruction second_sale false) ≡ true)
unfolding validate_dry_run_instruction ◌-ℤ◌ ◌+ℤ◌
valid = (refl, refl)

-- 300 shares are sold where 200 may be
dry_run_oversells_example :
    let result = dry_run (first_sale ∷ second_sale ∷ []) sample_profile false false in
    (result.ok ≡ true)
    × (get_or (pos 0) "600000" result.simulated_positions_after
          +ℤ (first_sale.quantity +ℤ second_sale.quantity)
        ≡ get_or (pos 0) "600000" (initial_positions sample_profile))
dry_run_oversells_example =
    dry_run_oversells sample_profile false false first_sale second_sale refl refl
      (record { valid = validate-IsValid first_sale false valid.0; side = refl; fits = fits.0 })
      (record { valid = validate-IsValid second_sale false valid.1; side = refl; fits = fits.1 })
      fits.2
