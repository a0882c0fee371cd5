-- ===== src/Replay/Tests.antt =====
-- The replay of src/quantpilot_core/multi_day_paper_replay over two sample days.
use quant_pilot_ai_next.AccountProfile.Preflight.{run_account_profile_preflight}
use quant_pilot_ai_next.Replay.Carry.{carry_successful_results_agrees}
use quant_pilot_ai_next.DryRun.Laws.{NoShort}
use quant_pilot_ai_next.RiskFlags.{has_critical, account_warnings}
use quant_pilot_ai_next.Replay.Run.{run_multi_day_paper_replay, blocked_replay}
use quant_pilot_ai_next.AccountProfile.Samples.{sample_profile}
use quant_pilot_ai_next.Text.{Distinct, code_points}
use quant_pilot_ai_next.DryRun.Samples.{second_sale, purchase, first_sale}
use quant_pilot_ai_next.Replay.Laws.{IsChained, run_multi_day_paper_replay-IsChained}
use quant_pilot_ai_next.Dict.{get_or, lookup, dict_of}
use quant_pilot_ai_next.Replay.Inputs.{
  AreOrdered, all_ids, validate_replay_inputs-AreOrdered, run_multi_day_paper_replay_explicit,
}
use quant_pilot_ai_next.Replay.Days.{Carried, build_daily_account_profile, carry_successful_results}
use quant_pilot_ai_next.LegacyEngine.{use_legacy_engine_default, legacy_engine_disabled_reason}
use quant_pilot_ai_next.Replay.Preflight.{
  ParseDate, validate_replay_inputs, days_flags, day_flags, dated_flags, proposal_flags,
  parse_strict_iso_date,
}
use quant_pilot_ai_next.DryRun.Run.{dry_run, initial_positions}
use quant_pilot_ai_next.Replay.Contracts.{PaperReplayResult, PaperReplayDayInput}
use quant_pilot_ai_next.Base.{
  ℕ, ◌*◌, ◌+◌, ◌≡◌, refl, true, false, [], ◌∷◌, arith, none, some, if◌then◌else◌, Returns, raised,
  runtime_error, List, String, returned,
}
use quant_pilot_ai_next.Int.{ℤ, pos, ◌+ℤ◌}
use quant_pilot_ai_next.Float.{fixed}

-- dates compare like the numbers that their characters spell
spelled : ℕ → List ℕ → ℕ
spelled n [] = n
spelled n (c ∷ cs) = spelled (n * 256 + c) cs

abbrev by_spelling : ParseDate
by_spelling value = some (spelled 0 (code_points value))

abbrev first_day : PaperReplayDayInput ℤ
first_day = record { trading_date = "2026-01-05"; instructions = purchase ∷ first_sale ∷ [] }

abbrev second_day : PaperReplayDayInput ℤ
second_day = record { trading_date = "2026-01-06"; instructions = second_sale ∷ [] }

abbrev days : List (PaperReplayDayInput ℤ)
days = first_day ∷ second_day ∷ []

-- the first day's purchase may be sold on the second day
abbrev first_morning : Carried ℤ
first_morning = record {
  cash = pos 1_000_000_000_000;
  positions = ("600000", pos 300) ∷ [];
  sellable_by_symbol = ("600000", pos 200) ∷ [];
  pending_sellable_next_day = [];
}

carry_successful_results_agrees_example :
    let dry =
      dry_run first_day.instructions
        (build_daily_account_profile sample_profile first_morning)
        false
        false in
    let c' = carry_successful_results first_morning dry.instruction_results in
    (c'.cash ≡ dry.simulated_cash_after)
    × ((symbol : String)
        → get_or (pos 0) symbol c'.positions ≡ get_or (pos 0) symbol dry.simulated_positions_after)
carry_successful_results_agrees_example =
    carry_successful_results_agrees sample_profile first_morning first_day.instructions false false

enabled : use_legacy_engine_default (some "true") ≡ true
unfolding use_legacy_engine_default
enabled = refl

disabled : use_legacy_engine_default none ≡ false
unfolding use_legacy_engine_default
disabled = refl

clean : has_critical (validate_replay_inputs by_spelling days sample_profile) ≡ false
unfolding validate_replay_inputs days_flags day_flags dated_flags proposal_flags
    parse_strict_iso_date run_account_profile_preflight account_warnings ◌+ℤ◌ spelled
clean = refl

starts_long : NoShort (initial_positions sample_profile)
unfolding get_or lookup dict_of
starts_long symbol = ground arith

run_multi_day_paper_replay-IsChained_example :
    Returns
      (λ (result : PaperReplayResult ℤ).
        IsChained sample_profile.cash.available_cash
          (initial_positions sample_profile)
          result.day_results
          result.final_cash
          result.final_positions)
      (run_multi_day_paper_replay by_spelling (some "true") days sample_profile false false none)
run_multi_day_paper_replay-IsChained_example =
    run_multi_day_paper_replay-IsChained by_spelling (some "true") days sample_profile false false
      enabled clean starts_long

validate_replay_inputs-AreOrdered_example :
    AreOrdered by_spelling none days × Distinct (all_ids days)
validate_replay_inputs-AreOrdered_example =
    validate_replay_inputs-AreOrdered by_spelling days sample_profile clean

run_multi_day_paper_replay_explicit_example :
    let flags = validate_replay_inputs by_spelling days sample_profile in
    run_multi_day_paper_replay by_spelling none days sample_profile false false (some true) ≡ (
      if has_critical flags
      then returned (blocked_replay days sample_profile flags)
      else raised (runtime_error legacy_engine_disabled_reason))
run_multi_day_paper_replay_explicit_example =
    run_multi_day_paper_replay_explicit by_spelling none first_day (second_day ∷ []) sample_profile
      false false disabled
