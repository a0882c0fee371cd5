-- ===== src/DryRun/Run.antt =====
-- `run_paper_ledger_dry_run` of src/quantpilot_core/paper_ledger_dry_run/dry_run.py: the loop over the
-- instructions as steps on the variables that it changes.
use quant_pilot_ai_next.Base.{
  ℕ, String, Bool, true, false, ◌&&◌, ◌||◌, ◌==◌ as eq_ℕ, Option, List, [], ◌∷◌, ◌++◌,
  if◌then◌else◌, count_if, Call, returned, ◌>>◌,
}
use quant_pilot_ai_next.Int.{ℤ, pos, ◌+ℤ◌}
use quant_pilot_ai_next.Text.{contains}
use quant_pilot_ai_next.Dict.{Dict, get_or, insert, dict_of}
use quant_pilot_ai_next.Float.{Float, ◌⊕◌, zero_float, round}
use quant_pilot_ai_next.RiskFlags.{RiskFlag, critical, has_critical, account_warnings, unique}
use quant_pilot_ai_next.LegacyEngine.{require_legacy_engine}
use quant_pilot_ai_next.AccountProfile.Contracts.{AccountProfile, AccountPosition}
use quant_pilot_ai_next.AccountProfile.Limits.{symbol_of}
use quant_pilot_ai_next.AccountProfile.Preflight.{run_account_profile_preflight}
use quant_pilot_ai_next.ActionBridge.Contracts.{PaperLedgerCandidateInstruction}
use quant_pilot_ai_next.DryRun.Contracts.{
  PaperLedgerDryRunDecision, accepted, blocked, partial, simulated, rejected, skipped,
  PaperLedgerDryRunInstructionResult, PaperLedgerDryRunResult,
}
use quant_pilot_ai_next.DryRun.Simulate.{instruction_result, simulate}

pub record DryRunState (W : Type 0) : Type 0 where
  pub current_cash : W
  pub current_positions : Dict ℤ
  pub risk_flags : List RiskFlag
  pub blocked_ids : List String
  pub seen_ids : List String
  pub skipping : Bool

abbrev pub is_simulated : {W : Type 0} → PaperLedgerDryRunInstructionResult W → Bool
is_simulated result = elim result.status [ simulated ↦ true | rejected ↦ false | skipped ↦ false ]

abbrev pub is_rejected : {W : Type 0} → PaperLedgerDryRunInstructionResult W → Bool
is_rejected result = elim result.status [ simulated ↦ false | rejected ↦ true | skipped ↦ false ]

abbrev pub quantity_of : {W : Type 0} → AccountPosition W → ℤ
quantity_of position = position.quantity

-- `{position.symbol: position.quantity for position in account_profile.positions}`
abbrev pub initial_positions : {W : Type 0} → AccountProfile W → Dict ℤ
initial_positions profile = dict_of symbol_of quantity_of profile.positions

-- `positions[symbol] = positions.get(symbol, 0) + delta`
abbrev pub add_position : String → ℤ → Dict ℤ → Dict ℤ
add_position symbol delta positions =
    insert symbol (get_or (pos 0) symbol positions +ℤ delta) positions

-- the decision, from the numbers of rejected and of simulated instructions
unfoldable pub decide : Bool → ℕ → ℕ → Bool × PaperLedgerDryRunDecision × String
decide fail_fast rejected_count simulated_count =
    if eq_ℕ rejected_count 0
    then (true, accepted, "ok")
    else if fail_fast || eq_ℕ simulated_count 0
    then (false, blocked, "critical_risk_flags")
    else (false, partial, "partial_simulation")

module _ {W : Type 0} ⦃F : Float W⦄ where
  -- `_skipped_result`
  unfoldable pub skipped_result :
      PaperLedgerCandidateInstruction W → PaperLedgerDryRunInstructionResult W
  unfolding instruction_result
  skipped_result instruction =
      instruction_result instruction skipped "skipped_after_fail_fast_block" zero_float (pos 0) []

  -- the result of an instruction whose proposal was seen before
  unfoldable pub duplicate_result :
      PaperLedgerCandidateInstruction W → PaperLedgerDryRunInstructionResult W
  unfolding instruction_result
  duplicate_result instruction =
      instruction_result instruction rejected "duplicate_proposal_id" zero_float (pos 0)
        (critical "duplicate_proposal_id" "Duplicate proposal ID is not allowed." ∷ [])

  -- `seen_ids.add(instruction.proposal_id)`, where it is not there
  abbrev pub seen_state : DryRunState W → PaperLedgerCandidateInstruction W → DryRunState W
  seen_state s instruction =
      let id = instruction.proposal_id in
      record s { seen_ids = if contains id s.seen_ids then s.seen_ids else id ∷ s.seen_ids }

  module _ (profile : AccountProfile W) (allow_odd_lot fail_fast : Bool) where
    -- the result of an instruction that is not skipped
    unfoldable pub result_of :
        DryRunState W → PaperLedgerCandidateInstruction W → PaperLedgerDryRunInstructionResult W
    result_of s instruction =
        if contains instruction.proposal_id s.seen_ids
        then duplicate_result instruction
        else simulate instruction profile s.current_cash s.current_positions allow_odd_lot

    -- what the loop does with the result
    unfoldable pub record_result :
        DryRunState W → PaperLedgerDryRunInstructionResult W → DryRunState W
    record_result s result =
        let flags = s.risk_flags ++ result.risk_flags in
        if is_rejected result
        then record s {
          risk_flags = flags;
          blocked_ids = s.blocked_ids ++ result.proposal_id ∷ [];
          skipping = fail_fast && has_critical result.risk_flags;
        }
        else record s {
          risk_flags = flags;
          current_cash = round (s.current_cash ⊕ result.estimated_cash_delta) 4;
          current_positions =
              add_position result.symbol result.estimated_position_delta s.current_positions;
        }

    -- one round of the loop, by the test whether it skips
    unfoldable pub run_round :
        Bool
        → DryRunState W
        → PaperLedgerCandidateInstruction W
        → PaperLedgerDryRunInstructionResult W × DryRunState W
    run_round true s instruction = (skipped_result instruction, s)
    run_round false s instruction =
        let result = result_of s instruction in
        (result, record_result (seen_state s instruction) result)

    unfoldable pub step :
        DryRunState W
        → PaperLedgerCandidateInstruction W
        → PaperLedgerDryRunInstructionResult W × DryRunState W
    step s instruction = run_round s.skipping s instruction

    -- the results of the instructions, and the variables after the loop
    unfoldable pub run_from :
        DryRunState W
        → List (PaperLedgerCandidateInstruction W)
        → List (PaperLedgerDryRunInstructionResult W) × DryRunState W
    run_from s [] = ([], s)
    run_from s (instruction ∷ instructions) =
        let (result, s') = step s instruction in
        let (results, s'') = run_from s' instructions in (result ∷ results, s'')

  unfoldable pub start : AccountProfile W → DryRunState W
  unfolding run_account_profile_preflight account_warnings dict_of
  start profile = record {
    current_cash = profile.cash.available_cash;
    current_positions = initial_positions profile;
    risk_flags =
        account_warnings "Account preflight warning for paper dry-run: "
          (run_account_profile_preflight profile false false).risk_flags;
    blocked_ids = [];
    seen_ids = [];
    skipping = false;
  }

  -- `run_paper_ledger_dry_run` behind `require_legacy_engine`
  unfoldable pub dry_run :
      List (PaperLedgerCandidateInstruction W)
      → AccountProfile W
      → Bool
      → Bool
      → PaperLedgerDryRunResult W
  dry_run instructions profile allow_odd_lot fail_fast =
      let (results, s) = run_from profile allow_odd_lot fail_fast (start profile) instructions in
      let (ok, decision, reason) =
        decide fail_fast (count_if is_rejected results) (count_if is_simulated results) in
      record {
        ok = ok;
        decision = decision;
        reason = reason;
        instruction_results = results;
        simulated_cash_after = s.current_cash;
        simulated_positions_after = s.current_positions;
        blocked_instruction_ids = unique s.blocked_ids;
        risk_flags = s.risk_flags;
      }

  unfoldable pub run_paper_ledger_dry_run :
      Option String
      → List (PaperLedgerCandidateInstruction W)
      → AccountProfile W
      → Bool
      → Bool
      → Option Bool
      → Call (PaperLedgerDryRunResult W)
  run_paper_ledger_dry_run variable instructions profile allow_odd_lot fail_fast use_legacy_engine =
      require_legacy_engine variable use_legacy_engine
      >> returned (dry_run instructions profile allow_odd_lot fail_fast)
