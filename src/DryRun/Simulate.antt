-- ===== src/DryRun/Simulate.antt =====
-- `simulate_instruction` of src/quantpilot_core/paper_ledger_dry_run/dry_run.py, its costs and results.
use quant_pilot_ai_next.Base.{
  String, Bool, not, Option, List, [], map, if◌then◌else◌, only_if, is_empty, Call, returned, ◌>>◌,
}
use quant_pilot_ai_next.Int.{ℤ, pos, ◌-ℤ◌, ltb_ℤ, min_ℤ}
use quant_pilot_ai_next.Text.{◌==◌, join}
use quant_pilot_ai_next.Dict.{Dict, get_or}
use quant_pilot_ai_next.Float.{Float, ◌⊕◌, ◌⊖◌, ◌⊗◌, ◌⊘◌, lt, le, zero_float, round, max}
use quant_pilot_ai_next.RiskFlags.{RiskFlag, critical}
use quant_pilot_ai_next.LegacyEngine.{require_legacy_engine}
use quant_pilot_ai_next.AccountProfile.Contracts.{AccountProfile, BrokerFeeProfile}
use quant_pilot_ai_next.AccountProfile.Limits.{normalize_sellable_quantities}
use quant_pilot_ai_next.ActionBridge.Contracts.{
  buy_side, sell_side, PaperLedgerCandidateInstruction,
}
use quant_pilot_ai_next.DryRun.Contracts.{
  PaperLedgerDryRunInstructionStatus, simulated, rejected, PaperLedgerDryRunInstructionResult,
}
use quant_pilot_ai_next.DryRun.Preflight.{is_trade, validate_dry_run_instruction}

module _ {W : Type 0} ⦃F : Float W⦄ where
  -- the costs of a trade of a positive notional
  abbrev pub trade_cost : String → W → BrokerFeeProfile W → W
  trade_cost side notional fee =
      let commission = max (notional ⊗ fee.commission_rate) fee.min_commission in
      let stamp_tax = if side == sell_side then notional ⊗ fee.stamp_tax_rate else zero_float in
      let transfer_fee = notional ⊗ fee.transfer_fee_rate in
      let slippage = notional ⊗ fee.slippage_bps ⊘ F.of_int (pos 10_000) in
      round (commission ⊕ stamp_tax ⊕ transfer_fee ⊕ slippage) 4

  -- `_estimate_instruction_cost`; `estimate_trade_cost` of ai_action_paper_bridge/preflight.py is the
  -- same text, on the side and the notional of a proposal
  unfoldable pub estimate_cost : String → W → BrokerFeeProfile W → W
  estimate_cost side notional fee =
      if not (is_trade side)
      then zero_float
      else if le notional zero_float
      then zero_float
      else trade_cost side notional fee

  -- `_instruction_result`
  unfoldable pub instruction_result :
      PaperLedgerCandidateInstruction W
      → PaperLedgerDryRunInstructionStatus
      → String
      → W
      → ℤ
      → List RiskFlag
      → PaperLedgerDryRunInstructionResult W
  instruction_result instruction status reason cash_delta position_delta flags = record {
    proposal_id = instruction.proposal_id;
    symbol = instruction.symbol;
    side = instruction.side;
    quantity = instruction.quantity;
    estimated_price = instruction.estimated_price;
    estimated_notional = instruction.estimated_notional;
    status = status;
    reason = reason;
    estimated_cash_delta = round cash_delta 4;
    estimated_position_delta = position_delta;
    risk_flags = flags;
    evidence_refs = instruction.evidence_refs;
  }

  -- `-round(estimated_notional + fee, 4)` and `round(estimated_notional - fee, 4)`
  abbrev pub buy_delta : PaperLedgerCandidateInstruction W → W → W
  buy_delta instruction fee = F.neg (round (instruction.estimated_notional ⊕ fee) 4)

  abbrev pub sell_delta : PaperLedgerCandidateInstruction W → W → W
  sell_delta instruction fee = round (instruction.estimated_notional ⊖ fee) 4

  -- the shares that may be sold: those of the profile, as far as the position has them
  abbrev pub sellable_now : PaperLedgerCandidateInstruction W → AccountProfile W → Dict ℤ → ℤ
  sellable_now instruction profile positions =
      min_ℤ (get_or (pos 0) instruction.symbol (normalize_sellable_quantities profile))
        (get_or (pos 0) instruction.symbol positions)

  -- the tests of a valid instruction against cash and shares
  unfoldable pub account_flags :
      PaperLedgerCandidateInstruction W → AccountProfile W → W → W → Dict ℤ → List RiskFlag
  unfolding get_or normalize_sellable_quantities
  account_flags instruction profile fee cash positions =
      if instruction.side == buy_side
      then only_if (lt (cash ⊕ buy_delta instruction fee) zero_float)
          (critical "buy_cash_insufficient" "BUY dry-run would make cash negative.")
      else if instruction.side == sell_side
      then only_if (ltb_ℤ (sellable_now instruction profile positions) instruction.quantity)
          (critical "sellable_quantity_insufficient" "SELL dry-run exceeds sellable quantity.")
      else []

  -- the flags of `simulate_instruction`: those of the account only where the instruction has none
  unfoldable pub simulation_flags :
      PaperLedgerCandidateInstruction W → AccountProfile W → W → Dict ℤ → Bool → List RiskFlag
  unfolding validate_dry_run_instruction account_flags estimate_cost
  simulation_flags instruction profile cash positions allow_odd_lot =
      let flags = validate_dry_run_instruction instruction allow_odd_lot in
      let fee = estimate_cost instruction.side instruction.estimated_notional profile.broker_fee in
      if is_empty flags then account_flags instruction profile fee cash positions else flags

  -- the result, from the flags
  unfoldable pub simulated_result :
      PaperLedgerCandidateInstruction W
      → AccountProfile W
      → List RiskFlag
      → PaperLedgerDryRunInstructionResult W
  unfolding instruction_result estimate_cost ◌-ℤ◌
  simulated_result instruction profile flags =
      let fee = estimate_cost instruction.side instruction.estimated_notional profile.broker_fee in
      if not (is_empty flags)
      then instruction_result instruction rejected
          (join ";" (map (λ (flag : RiskFlag). flag.code) flags)) zero_float (pos 0) flags
      else if instruction.side == buy_side
      then instruction_result instruction simulated "simulated_buy" (buy_delta instruction fee)
          instruction.quantity []
      else instruction_result instruction simulated "simulated_sell" (sell_delta instruction fee)
          (pos 0 -ℤ instruction.quantity) []

  -- `simulate_instruction` behind `require_legacy_engine`
  unfoldable pub simulate :
      PaperLedgerCandidateInstruction W
      → AccountProfile W
      → W
      → Dict ℤ
      → Bool
      → PaperLedgerDryRunInstructionResult W
  unfolding simulation_flags simulated_result
  simulate instruction profile cash positions allow_odd_lot =
      simulated_result instruction profile
        (simulation_flags instruction profile cash positions allow_odd_lot)

  unfoldable pub simulate_instruction :
      Option String
      → PaperLedgerCandidateInstruction W
      → AccountProfile W
      → W
      → Dict ℤ
      → Bool
      → Option Bool
      → Call (PaperLedgerDryRunInstructionResult W)
  unfolding require_legacy_engine simulate
  simulate_instruction variable instruction profile cash positions allow_odd_lot use_legacy_engine =
      require_legacy_engine variable use_legacy_engine
      >> returned (simulate instruction profile cash positions allow_odd_lot)
