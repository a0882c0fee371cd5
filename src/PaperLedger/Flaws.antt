-- ===== src/PaperLedger/Flaws.antt =====
-- Two places where src/quantpilot_core/paper_ledger/a_share_constraints.py accepts an order that its
-- own cost calculation refuses or that it cannot pay for.
use quant_pilot_ai_next.Base.{◌≡◌, refl, Bool, true, false, Option, arith, Returns, ◌&&◌, not}
use quant_pilot_ai_next.Int.{ℤ}
use quant_pilot_ai_next.Dict.{Dict}
use quant_pilot_ai_next.Float.{Float, ◌⊖◌, lt, le, zero_float}
use quant_pilot_ai_next.PaperLedger.Contracts.{
  PaperOrderSide, buy, sell, PaperOrderStatus, PaperLedgerAccount, PaperLedgerOrderIntent,
  PaperLedgerResult,
}
use quant_pilot_ai_next.PaperLedger.Costs.{
  AShareCostModel, AShareConstraintResult, round_money, slipped, apply_a_share_slippage,
  calculate_a_share_order_cost, order_cost, validate_a_share_board_lot,
}
use quant_pilot_ai_next.PaperLedger.Constrained.{
  settle, execute_order, run_a_share_constrained_paper_order, model_or_default,
}
use quant_pilot_ai_next.PaperLedger.Accepted.{IsWellShaped, IsWellShaped-shape, cost_of}

module _ {W : Type 0} ⦃F : Float W⦄ where
  -- A refused cost has no amounts.
  refused_cost :
      (side : PaperOrderSide) (quantity : ℤ) (price : W) (model : AShareCostModel W)
      → le price zero_float ≡ true
      → ((order_cost side quantity price model).accepted ≡ false)
        × ((order_cost side quantity price model).total_cost ≡ zero_float)
        × ((order_cost side quantity price model).total_proceeds ≡ zero_float)
  unfolding order_cost
  refused_cost side quantity price model h = ground arith

  not_multiplied :
      (quantity : ℤ) (price : W)
      → le price zero_float ≡ true
      → ((validate_a_share_board_lot {W = W} quantity).accepted
          && (not (le price zero_float) && not (F.fits quantity)))
        ≡ false
  not_multiplied quantity price low = ground arith

  -- what a fill that costs nothing leaves behind
  abbrev pub IsFree :
      PaperLedgerAccount W
      → PaperLedgerOrderIntent W
      → AShareConstraintResult W
      → PaperLedgerResult W
      → Type 0
  IsFree account intent cost r =
      (cost.accepted ≡ false)
      × (r.order_status ≡ PaperOrderStatus.accepted)
      × (r.filled_quantity ≡ intent.quantity)
      × (r.account_after.cash ≡ round_money (account.cash ⊖ zero_float))

  settle-IsFree :
      (side : PaperOrderSide) (account : PaperLedgerAccount W) (intent : PaperLedgerOrderIntent W)
      (gate_passed : Bool) (sellable : Option (Dict ℤ)) (price : W)
      (cost : AShareConstraintResult W)
      → side ≡ buy
      → cost.accepted ≡ false
      → cost.total_cost ≡ zero_float
      → lt account.cash zero_float ≡ false
      → IsFree account intent cost (settle side account intent gate_passed sellable price cost)
  unfolding settle
  settle-IsFree buy account intent gate_passed sellable price cost e h z funds =
      rw (z, funds) (h, refl, refl, refl)
  settle-IsFree sell account intent gate_passed sellable price cost e h z funds = cc

  execute_order-IsFree :
      (account : PaperLedgerAccount W) (intent : PaperLedgerOrderIntent W) (gate_passed : Bool)
      (sellable : Option (Dict ℤ)) (model : AShareCostModel W)
      → le intent.limit_price zero_float ≡ false
      → lt model.slippage_rate zero_float ≡ false
      → intent.side ≡ buy
      → lt account.cash zero_float ≡ false
      → le (slipped intent.side intent.limit_price model.slippage_rate) zero_float ≡ true
      → Returns
          (IsFree account intent (cost_of intent model))
          (execute_order account intent gate_passed sellable model)
  unfolding execute_order apply_a_share_slippage calculate_a_share_order_cost
  execute_order-IsFree account intent gate_passed sellable model fine good side funds low =
      let (h, z, _) = refused_cost intent.side intent.quantity _ model low in
      let unmultiplied = not_multiplied intent.quantity _ low in
      rw (fine, good, calculate_a_share_order_cost, unmultiplied)
        (settle-IsFree intent.side account intent gate_passed sellable _ (cost_of intent model) side
          h z funds)

  -- With a slippage rate that is not negative, a well-shaped buy whose slipped price rounds to zero is
  -- refused by the cost calculation, and is filled all the same, for nothing, whether the quality gate
  -- passed or not: the cash after it is the cash less zero, rounded to four places.
  pub run_a_share_constrained_paper_order-IsFree :
      (account : PaperLedgerAccount W) (intent : PaperLedgerOrderIntent W) (gate_passed : Bool)
      (sellable : Option (Dict ℤ)) (cost_model : Option (AShareCostModel W))
      → lt (model_or_default cost_model).slippage_rate zero_float ≡ false
      → IsWellShaped account intent
      → intent.side ≡ buy
      → le
          (slipped intent.side intent.limit_price (model_or_default cost_model).slippage_rate)
          zero_float
        ≡ true
      → Returns
          (IsFree account intent (cost_of intent (model_or_default cost_model)))
          (run_a_share_constrained_paper_order account intent gate_passed sellable cost_model)
  unfolding run_a_share_constrained_paper_order
  run_a_share_constrained_paper_order-IsFree account intent gate_passed sellable cost_model good
        shaped side low =
      let (shape, lot) = IsWellShaped-shape account intent shaped in
      rw (shape, lot)
        (execute_order-IsFree account intent gate_passed sellable (model_or_default cost_model)
          shaped.3 good side shaped.0 low)
