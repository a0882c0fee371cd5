-- ===== src/PaperLedger/Accepted.antt =====
-- When `run_a_share_constrained_paper_order` of src/quantpilot_core/paper_ledger accepts an order,
-- and what an accepted order does to the cash.
use quant_pilot_ai_next.Base.{
  ◌≡◌, refl, Bool, true, false, Option, arith, ◌%◌, is_empty, Bool-cases, inl, inr, ◌↔◌,
  ReturnsUnless, overflow_error, ReturnsUnless-map,
}
use quant_pilot_ai_next.Int.{ℤ, pos, pos_part, ◌≤ℤ◌, ◌+ℤ◌}
use quant_pilot_ai_next.Text.{is_blank, eq_refl}
use quant_pilot_ai_next.PaperLedger.Laws.{position_of-account_with_position, charged}
use quant_pilot_ai_next.Dict.{Dict}
use quant_pilot_ai_next.Float.{Float, IsIeee, ◌⊖◌, lt, le, zero_float}
use quant_pilot_ai_next.PaperLedger.Contracts.{
  PaperOrderSide, buy, sell, PaperOrderStatus, PaperLedgerAccount, PaperLedgerOrderIntent,
  PaperLedgerResult, validate_order_shape, position_of, rejected_paper_result,
}
use quant_pilot_ai_next.PaperLedger.Costs.{
  AShareCostModel, AShareConstraintResult, round_money, sellable_of, validate_a_share_board_lot,
  apply_a_share_slippage, slipped, order_cost,
}
use quant_pilot_ai_next.PaperLedger.Constrained.{
  settle, execute_order, run_a_share_constrained_paper_order, model_or_default,
}

module _ {W : Type 0} ⦃F : Float W⦄ where
  -- An order of shape and size that may be executed.
  abbrev pub IsWellShaped : PaperLedgerAccount W → PaperLedgerOrderIntent W → Type 0
  IsWellShaped account intent =
      (lt account.cash zero_float ≡ false)
      × (is_blank intent.symbol ≡ false)
      × (pos 1 ≤ℤ intent.quantity)
      × (le intent.limit_price zero_float ≡ false)
      × (pos_part intent.quantity % 100 ≡ 0)

  -- The money for a buy after its costs, the shares and the sellable shares for a sell.
  abbrev pub IsCovered :
      PaperOrderSide
      → PaperLedgerAccount W
      → PaperLedgerOrderIntent W
      → Option (Dict ℤ)
      → W
      → Type 0
  IsCovered buy account intent sellable total_cost = lt account.cash total_cost ≡ false
  IsCovered sell account intent sellable total_cost =
      (intent.quantity ≤ℤ position_of account intent.symbol)
      × (intent.quantity ≤ℤ sellable_of sellable intent.symbol)

  settle-IsCovered :
      (side : PaperOrderSide) (account : PaperLedgerAccount W) (intent : PaperLedgerOrderIntent W)
      (gate_passed : Bool) (sellable : Option (Dict ℤ)) (price : W)
      (cost : AShareConstraintResult W)
      → ((settle side account intent gate_passed sellable price cost).order_status
          ≡ PaperOrderStatus.accepted)
        ↔ IsCovered side account intent sellable cost.total_cost
  unfolding settle
  settle-IsCovered buy account intent gate_passed sellable price cost =
      (λ h. ground arith, λ h. ground arith)
  settle-IsCovered sell account intent gate_passed sellable price cost =
      (λ h. ground arith, λ h. ground arith)

  shape-IsWellShaped :
      (account : PaperLedgerAccount W) (intent : PaperLedgerOrderIntent W)
      → is_empty (validate_order_shape account intent) ≡ true
      → (validate_a_share_board_lot {W = W} intent.quantity).accepted ≡ true
      → IsWellShaped account intent
  unfolding validate_order_shape validate_a_share_board_lot
  shape-IsWellShaped account intent h k = ground arith

  pub IsWellShaped-shape :
      (account : PaperLedgerAccount W) (intent : PaperLedgerOrderIntent W)
      → IsWellShaped account intent
      → (is_empty (validate_order_shape account intent) ≡ true)
        × ((validate_a_share_board_lot {W = W} intent.quantity).accepted ≡ true)
  unfolding validate_order_shape validate_a_share_board_lot
  IsWellShaped-shape account intent h = ground arith

  -- what a buy takes from the cash, and what a sell brings
  abbrev pub cost_of : PaperLedgerOrderIntent W → AShareCostModel W → AShareConstraintResult W
  cost_of intent model =
      order_cost intent.side intent.quantity
        (slipped intent.side intent.limit_price model.slippage_rate) model

  execute_order-IsCovered :
      (account : PaperLedgerAccount W) (intent : PaperLedgerOrderIntent W) (gate_passed : Bool)
      (sellable : Option (Dict ℤ)) (model : AShareCostModel W)
      → le intent.limit_price zero_float ≡ false
      → lt model.slippage_rate zero_float ≡ false
      → ReturnsUnless
          (F.fits intent.quantity ≡ false)
          overflow_error
          (λ r.
            (r.order_status ≡ PaperOrderStatus.accepted)
            ↔ IsCovered intent.side account intent sellable (cost_of intent model).total_cost)
          (execute_order account intent gate_passed sellable model)
  unfolding execute_order apply_a_share_slippage
  execute_order-IsCovered account intent gate_passed sellable model fine good =
      let price = slipped intent.side intent.limit_price model.slippage_rate in
      rw (fine, good)
        (charged intent.side intent.quantity price model
          (settle intent.side account intent gate_passed sellable price) _
          (settle-IsCovered intent.side account intent gate_passed sellable price
            (cost_of intent model)))

  -- With a slippage rate that is not negative every order is answered, except that a quantity too large
  -- for a double may raise OverflowError. Whether the sample's quality gate passed or not, the order is
  -- accepted exactly when the cash is not negative, the symbol is not blank, the quantity is a positive
  -- multiple of 100, the limit price is positive, and the order is covered: a buy by the cash after
  -- costs, a sell by the position and by the sellable shares under T+1.
  pub run_a_share_constrained_paper_order_accepts :
      (account : PaperLedgerAccount W) (intent : PaperLedgerOrderIntent W) (gate_passed : Bool)
      (sellable : Option (Dict ℤ)) (cost_model : Option (AShareCostModel W))
      → lt (model_or_default cost_model).slippage_rate zero_float ≡ false
      → ReturnsUnless
          (F.fits intent.quantity ≡ false)
          overflow_error
          (λ r. (r.order_status ≡ PaperOrderStatus.accepted) ↔ (
            IsWellShaped account intent
            × IsCovered intent.side account intent sellable
                (cost_of intent (model_or_default cost_model)).total_cost))
          (run_a_share_constrained_paper_order account intent gate_passed sellable cost_model)
  unfolding run_a_share_constrained_paper_order rejected_paper_result
  run_a_share_constrained_paper_order_accepts account intent gate_passed sellable cost_model good =
      elim (Bool-cases (is_empty (validate_order_shape account intent))) [
        | inr bad ↦ rw bad (λ e. cc, λ h. cc (bad, (IsWellShaped-shape account intent h.0).0))
        | inl shaped ↦
            rw shaped
              (elim (Bool-cases (validate_a_share_board_lot {W = W} intent.quantity).accepted) [
                | inr odd ↦
                    rw odd (λ e. cc, λ h. cc (odd, (IsWellShaped-shape account intent h.0).1))
                | inl lots ↦ rw lots (
                    ReturnsUnless-map _ _ _ _
                      (execute_order account intent gate_passed sellable
                        (model_or_default cost_model))
                      (execute_order-IsCovered account intent gate_passed sellable
                        (model_or_default cost_model)
                        (shape-IsWellShaped account intent shaped lots).3 good)
                      λ r h.
                        (λ e. (shape-IsWellShaped account intent shaped lots, h.0 e), λ k. h.1 k.1))
              ])
      ]

  -- what a filled buy leaves behind
  abbrev pub IsBought :
      PaperLedgerAccount W → PaperLedgerOrderIntent W → W → PaperLedgerResult W → Type 0
  IsBought account intent total_cost r =
      (r.account_after.cash ≡ round_money (account.cash ⊖ total_cost))
      × (lt r.account_after.cash zero_float ≡ false)
      × (position_of r.account_after intent.symbol
          ≡ position_of account intent.symbol +ℤ intent.quantity)

  settle-buys :
      IsIeee W
      → (side : PaperOrderSide) (account : PaperLedgerAccount W) (intent : PaperLedgerOrderIntent W)
        (gate_passed : Bool) (sellable : Option (Dict ℤ)) (price : W)
        (cost : AShareConstraintResult W)
      → side ≡ buy
      → lt account.cash cost.total_cost ≡ false
      → IsBought account intent cost.total_cost
          (settle side account intent gate_passed sellable price cost)
  unfolding settle
  settle-buys ieee buy account intent gate_passed sellable price cost e funds = rw funds (
    refl,
    ieee.round_not_neg _ 4 (ieee.sub_not_neg account.cash cost.total_cost funds),
    simp (position_of-account_with_position, eq_refl),
  )
  settle-buys ieee sell account intent gate_passed sellable price cost e funds = cc

  execute_order-buys :
      IsIeee W
      → (account : PaperLedgerAccount W) (intent : PaperLedgerOrderIntent W) (gate_passed : Bool)
        (sellable : Option (Dict ℤ)) (model : AShareCostModel W)
      → le intent.limit_price zero_float ≡ false
      → lt model.slippage_rate zero_float ≡ false
      → intent.side ≡ buy
      → lt account.cash (cost_of intent model).total_cost ≡ false
      → ReturnsUnless
          (F.fits intent.quantity ≡ false)
          overflow_error
          (IsBought account intent (cost_of intent model).total_cost)
          (execute_order account intent gate_passed sellable model)
  unfolding execute_order apply_a_share_slippage
  execute_order-buys ieee account intent gate_passed sellable model fine good side funds =
      let price = slipped intent.side intent.limit_price model.slippage_rate in
      rw (fine, good)
        (charged intent.side intent.quantity price model
          (settle intent.side account intent gate_passed sellable price) _
          (settle-buys ieee intent.side account intent gate_passed sellable price
            (cost_of intent model) side funds))

  -- With a slippage rate that is not negative, a well-shaped buy that the cash covers is filled, whether
  -- the quality gate passed or not, except that a quantity too large for a double may raise
  -- OverflowError: the cash that is left is the cash less the cost, rounded to four places, and not
  -- negative, and the account holds the ordered shares more.
  pub run_a_share_constrained_paper_order_buys :
      IsIeee W
      → (account : PaperLedgerAccount W) (intent : PaperLedgerOrderIntent W) (gate_passed : Bool)
        (sellable : Option (Dict ℤ)) (cost_model : Option (AShareCostModel W))
      → lt (model_or_default cost_model).slippage_rate zero_float ≡ false
      → IsWellShaped account intent
      → intent.side ≡ buy
      → lt account.cash (cost_of intent (model_or_default cost_model)).total_cost ≡ false
      → ReturnsUnless
          (F.fits intent.quantity ≡ false)
          overflow_error
          (IsBought account intent (cost_of intent (model_or_default cost_model)).total_cost)
          (run_a_share_constrained_paper_order account intent gate_passed sellable cost_model)
  unfolding run_a_share_constrained_paper_order
  run_a_share_constrained_paper_order_buys ieee account intent gate_passed sellable cost_model good
        shaped side funds =
      rw
        ((IsWellShaped-shape account intent shaped).0, (IsWellShaped-shape account intent shaped).1)
        (execute_order-buys ieee account intent gate_passed sellable (model_or_default cost_model)
          shaped.3 good side funds)
