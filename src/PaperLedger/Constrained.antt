-- ===== src/PaperLedger/Constrained.antt =====
-- `run_a_share_constrained_paper_order` of src/quantpilot_core/paper_ledger/a_share_constraints.py.
use quant_pilot_ai_next.Base.{
  String, Bool, Option, none, some, List, [], ◌∷◌, ◌++◌, not, if◌then◌else◌, only_if, is_empty,
  Call, returned, ◌>>=◌,
}
use quant_pilot_ai_next.Int.{ℤ, ◌+ℤ◌, ◌-ℤ◌, ltb_ℤ}
use quant_pilot_ai_next.Dict.{Dict}
use quant_pilot_ai_next.Float.{Float, ◌⊕◌, ◌⊖◌, lt}
use quant_pilot_ai_next.PaperLedger.Contracts.{
  PaperOrderSide, buy, sell, PaperOrderStatus, PaperLedgerStatus, PaperLedgerAccount,
  PaperLedgerOrderIntent, PaperLedgerResult, validate_order_shape, rejected_paper_result,
  account_with_position, position_of,
}
use quant_pilot_ai_next.PaperLedger.Costs.{
  AShareCostModel, AShareConstraintResult, default_cost_model, round_money,
  validate_a_share_board_lot, apply_a_share_slippage, calculate_a_share_order_cost,
  validate_t_plus_one_sell,
}

module _ {W : Type 0} ⦃F : Float W⦄ where
  -- the `PaperLedgerResult` at the end of the function
  unfoldable pub accepted_result :
      PaperLedgerAccount W
      → PaperLedgerOrderIntent W
      → W
      → W
      → ℤ
      → ℤ
      → List String
      → PaperLedgerResult W
  unfolding account_with_position
  accepted_result account intent fill_price cash_after position_before position_after warnings =
      record {
        status = PaperLedgerStatus.ready;
        order_status = PaperOrderStatus.accepted;
        symbol = intent.symbol;
        side = intent.side;
        requested_quantity = intent.quantity;
        filled_quantity = intent.quantity;
        fill_price = some fill_price;
        cash_before = account.cash;
        cash_after = cash_after;
        position_before = position_before;
        position_after = position_after;
        account_after = account_with_position account intent.symbol cash_after position_after;
        reasons = [];
        warnings = warnings;
        suggested_next_action = "Record the constrained paper result and continue sandbox review.";
      }

  -- the two branches on the side, from the costs on
  unfoldable pub settle :
      PaperOrderSide
      → PaperLedgerAccount W
      → PaperLedgerOrderIntent W
      → Bool
      → Option (Dict ℤ)
      → W
      → AShareConstraintResult W
      → PaperLedgerResult W
  unfolding accepted_result rejected_paper_result validate_t_plus_one_sell round_money position_of
  settle buy account intent gate_passed sellable_positions adjusted_price cost =
      let before = position_of account intent.symbol in
      if lt account.cash cost.total_cost
      then rejected_paper_result PaperLedgerStatus.insufficient_cash account intent before
          ("insufficient_cash_after_costs" ∷ []) "Reduce quantity, lower price, or add paper cash."
      else accepted_result account intent adjusted_price
          (round_money (account.cash ⊖ cost.total_cost)) before (before +ℤ intent.quantity)
          (only_if (not gate_passed) "sample_quality_gate_not_passed" ++ cost.warnings)
  settle sell account intent gate_passed sellable_positions adjusted_price cost =
      let before = position_of account intent.symbol in
      let sellable : AShareConstraintResult W =
        validate_t_plus_one_sell intent.symbol intent.quantity sellable_positions in
      if ltb_ℤ before intent.quantity
      then rejected_paper_result PaperLedgerStatus.rejected account intent before
          ("insufficient_position" ∷ []) "Reduce sell quantity or establish paper position first."
      else if not sellable.accepted
      then rejected_paper_result PaperLedgerStatus.rejected account intent before sellable.reasons
          "Wait until the position is sellable under T+1 rules."
      else accepted_result account intent adjusted_price
          (round_money (account.cash ⊕ cost.total_proceeds)) before (before -ℤ intent.quantity)
          (only_if (not gate_passed) "sample_quality_gate_not_passed" ++ cost.warnings)

  unfoldable pub model_or_default : Option (AShareCostModel W) → AShareCostModel W
  unfolding default_cost_model
  model_or_default none = default_cost_model
  model_or_default (some model) = model

  -- slippage, costs and the two branches, for an order that passed the shape and lot checks
  unfoldable pub execute_order :
      PaperLedgerAccount W
      → PaperLedgerOrderIntent W
      → Bool
      → Option (Dict ℤ)
      → AShareCostModel W
      → Call (PaperLedgerResult W)
  unfolding apply_a_share_slippage
  execute_order account intent gate_passed sellable_positions model = do
    adjusted_price ← apply_a_share_slippage intent.side intent.limit_price model.slippage_rate
    cost ← calculate_a_share_order_cost intent.side intent.quantity adjusted_price model
    returned (settle intent.side account intent gate_passed sellable_positions adjusted_price cost)

  unfoldable pub run_a_share_constrained_paper_order :
      PaperLedgerAccount W
      → PaperLedgerOrderIntent W
      → Bool
      → Option (Dict ℤ)
      → Option (AShareCostModel W)
      → Call (PaperLedgerResult W)
  unfolding model_or_default execute_order
  run_a_share_constrained_paper_order account intent gate_passed sellable_positions cost_model =
      let before = position_of account intent.symbol in
      let invalid_reasons = validate_order_shape account intent in
      let lot : AShareConstraintResult W = validate_a_share_board_lot intent.quantity in
      let rest =
        execute_order account intent gate_passed sellable_positions (model_or_default cost_model) in
      if not (is_empty invalid_reasons)
      then returned (
          rejected_paper_result PaperLedgerStatus.invalid_order account intent before
            invalid_reasons "Fix account cash and order intent before A-share paper execution.")
      else if not lot.accepted
      then returned (
          rejected_paper_result PaperLedgerStatus.invalid_order account intent before lot.reasons
            "Use a positive 100-share board-lot quantity.")
      else rest
