-- ===== src/Replay/Run.antt =====
-- `run_multi_day_paper_replay` of src/quantpilot_core/multi_day_paper_replay/replay.py. The dry run of a
-- day is called without `use_legacy_engine`, so that it asks the environment.
use quant_pilot_ai_next.Base.{
  String, Bool, true, false, ◌&&◌, ◌||◌, ◌==◌ as eq_ℕ, Option, none, some, List, [], ◌∷◌, ◌++◌, map,
  is_empty, count_if, if◌then◌else◌, Call, returned, ◌>>=◌, ◌>>◌,
}
use quant_pilot_ai_next.Float.{Float}
use quant_pilot_ai_next.RiskFlags.{RiskFlag, has_critical}
use quant_pilot_ai_next.LegacyEngine.{require_legacy_engine}
use quant_pilot_ai_next.AccountProfile.Contracts.{AccountProfile}
use quant_pilot_ai_next.AccountProfile.Limits.{normalize_sellable_quantities}
use quant_pilot_ai_next.ActionBridge.Contracts.{PaperLedgerCandidateInstruction}
use quant_pilot_ai_next.DryRun.Contracts.{PaperLedgerDryRunResult, PaperLedgerDryRunDecision}
use quant_pilot_ai_next.DryRun.Run.{initial_positions, run_paper_ledger_dry_run}
use quant_pilot_ai_next.Replay.Contracts.{
  PaperReplayDecision, PaperReplayDayStatus, PaperReplayDayInput, PaperReplayDayResult,
  PaperReplayResult,
}
use quant_pilot_ai_next.Replay.Preflight.{ParseDate, validate_replay_inputs}
use quant_pilot_ai_next.Replay.Days.{
  Carried, released, build_daily_account_profile, carry_successful_results, map_dry_run_flags,
}

pub record ReplayState (W : Type 0) : Type 0 where
  pub carried : Carried W
  pub risk_flags : List RiskFlag
  pub blocked_days : List String
  pub skipping : Bool

-- the status of a day, from the decision of its dry run
abbrev pub day_status : PaperLedgerDryRunDecision → PaperReplayDayStatus
day_status PaperLedgerDryRunDecision.accepted = PaperReplayDayStatus.simulated
day_status PaperLedgerDryRunDecision.partial = PaperReplayDayStatus.partial
day_status PaperLedgerDryRunDecision.blocked = PaperReplayDayStatus.blocked

-- `status in {SIMULATED, PARTIAL}`
abbrev pub is_executed : PaperReplayDayStatus → Bool
is_executed PaperReplayDayStatus.simulated = true
is_executed PaperReplayDayStatus.partial = true
is_executed PaperReplayDayStatus.blocked = false
is_executed PaperReplayDayStatus.skipped = false

abbrev pub is_blocked : PaperReplayDayStatus → Bool
is_blocked PaperReplayDayStatus.simulated = false
is_blocked PaperReplayDayStatus.partial = false
is_blocked PaperReplayDayStatus.blocked = true
is_blocked PaperReplayDayStatus.skipped = false

-- whether a day that is not skipped is added to `blocked_days`
abbrev pub is_incomplete : PaperReplayDayStatus → Bool
is_incomplete PaperReplayDayStatus.simulated = false
is_incomplete PaperReplayDayStatus.partial = true
is_incomplete PaperReplayDayStatus.blocked = true
is_incomplete PaperReplayDayStatus.skipped = true

module _ {W : Type 0} ⦃F : Float W⦄ where
  -- the result of a day that is skipped
  unfoldable pub skipped_day : Carried W → PaperReplayDayInput W → PaperReplayDayResult W
  skipped_day c day = record {
    trading_date = day.trading_date;
    status = PaperReplayDayStatus.skipped;
    reason = "skipped_after_fail_fast_block";
    dry_run_result = none;
    cash_start = c.cash;
    cash_end = c.cash;
    positions_start = c.positions;
    positions_end = c.positions;
    blocked_instruction_ids =
        map (λ (instruction : PaperLedgerCandidateInstruction W). instruction.proposal_id)
          day.instructions;
    risk_flags = [];
  }

  -- what the loop does with the dry run of a day
  unfoldable pub replay_day :
      Bool
      → ReplayState W
      → PaperReplayDayInput W
      → PaperLedgerDryRunResult W
      → PaperReplayDayResult W × ReplayState W
  replay_day fail_fast s day dry =
      let status = day_status dry.decision in
      let flags = map_dry_run_flags day.trading_date dry.risk_flags in
      let carried =
        if is_executed status
        then carry_successful_results s.carried dry.instruction_results
        else s.carried in
      (
        record {
          trading_date = day.trading_date;
          status = status;
          reason = dry.reason;
          dry_run_result = some dry;
          cash_start = s.carried.cash;
          cash_end = carried.cash;
          positions_start = s.carried.positions;
          positions_end = carried.positions;
          blocked_instruction_ids = dry.blocked_instruction_ids;
          risk_flags = flags;
        },
        record {
          carried = carried;
          risk_flags = s.risk_flags ++ flags;
          blocked_days =
              if is_incomplete status
              then s.blocked_days ++ day.trading_date ∷ []
              else s.blocked_days;
          skipping = fail_fast && is_blocked status;
        },
      )

  module _ (variable : Option String) (profile : AccountProfile W)
      (allow_odd_lot fail_fast : Bool) where
    -- one round of the loop over the days, after the release of pending purchases
    unfoldable pub replay_round :
        Bool → ReplayState W → PaperReplayDayInput W → Call (PaperReplayDayResult W × ReplayState W)
    replay_round true s day = returned (skipped_day s.carried day, s)
    replay_round false s day =
        run_paper_ledger_dry_run variable day.instructions
          (build_daily_account_profile profile s.carried) allow_odd_lot fail_fast none
        >>= λ dry. returned (replay_day fail_fast s day dry)

    unfoldable pub replay_step :
        ReplayState W → PaperReplayDayInput W → Call (PaperReplayDayResult W × ReplayState W)
    replay_step s day = replay_round s.skipping (record s { carried = released s.carried }) day

    -- the results of the days, and the variables after the loop
    unfoldable pub replay_from :
        ReplayState W
        → List (PaperReplayDayInput W)
        → Call (List (PaperReplayDayResult W) × ReplayState W)
    replay_from s [] = returned ([], s)
    replay_from s (day ∷ days) = replay_step s day >>= λ (result, s').
        replay_from s' days >>= λ (results, s''). returned (result ∷ results, s'')

  unfoldable pub start_replay : AccountProfile W → List RiskFlag → ReplayState W
  start_replay profile input_flags = record {
    carried = record {
      cash = profile.cash.available_cash;
      positions = initial_positions profile;
      sellable_by_symbol = normalize_sellable_quantities profile;
      pending_sellable_next_day = [];
    };
    risk_flags = input_flags;
    blocked_days = [];
    skipping = false;
  }

  -- the result where the inputs have a critical flag
  unfoldable pub blocked_replay :
      List (PaperReplayDayInput W) → AccountProfile W → List RiskFlag → PaperReplayResult W
  blocked_replay days profile input_flags = record {
    ok = false;
    decision = PaperReplayDecision.blocked;
    reason = "replay_input_preflight_failed";
    day_results = [];
    final_cash = profile.cash.available_cash;
    final_positions = initial_positions profile;
    blocked_days = map (λ (day : PaperReplayDayInput W). day.trading_date) days;
    risk_flags = input_flags;
  }

  abbrev pub executed_day : PaperReplayDayResult W → Bool
  executed_day result = is_executed result.status

  -- the result after the loop
  unfoldable pub finish_replay :
      Bool → List (PaperReplayDayResult W) → ReplayState W → PaperReplayResult W
  finish_replay fail_fast results s =
      let ok = is_empty s.blocked_days in
      let stopped = fail_fast || eq_ℕ (count_if executed_day results) 0 in
      record {
        ok = ok;
        decision =
            if ok
            then PaperReplayDecision.completed
            else if stopped
            then PaperReplayDecision.blocked
            else PaperReplayDecision.partial;
        reason = if ok then "ok" else if stopped then "blocked_days" else "partial_replay";
        day_results = results;
        final_cash = s.carried.cash;
        final_positions = s.carried.positions;
        blocked_days = s.blocked_days;
        risk_flags = s.risk_flags;
      }

  -- the loop and the result, for inputs without a critical flag
  unfoldable pub replay_days :
      Option String
      → List (PaperReplayDayInput W)
      → AccountProfile W
      → List RiskFlag
      → Bool
      → Bool
      → Call (PaperReplayResult W)
  replay_days variable days profile input_flags allow_odd_lot fail_fast =
      replay_from variable profile allow_odd_lot fail_fast (start_replay profile input_flags) days
      >>= λ (results, s). returned (finish_replay fail_fast results s)

  unfoldable pub run_multi_day_paper_replay :
      ParseDate
      → Option String
      → List (PaperReplayDayInput W)
      → AccountProfile W
      → Bool
      → Bool
      → Option Bool
      → Call (PaperReplayResult W)
  run_multi_day_paper_replay parse variable days profile allow_odd_lot fail_fast use_legacy_engine =
      let input_flags = validate_replay_inputs parse days profile in
      require_legacy_engine variable use_legacy_engine
      >> (if has_critical input_flags
          then returned (blocked_replay days profile input_flags)
          else replay_days variable days profile input_flags allow_odd_lot fail_fast)
