-- ===== src/PaperLedger/Costs.antt =====
-- src/quantpilot_core/paper_ledger/a_share_constraints.py: the board lot, slippage, the cost of an
-- order, and T+1.
use quant_pilot_ai_next.Base.{
  String, Bool, true, false, Option, none, some, List, [], ◌∷◌, ◌%◌, not, if◌then◌else◌, Call,
  returned, value_error, raise_if, ◌>>◌, ◌&&◌, overflow_error,
}
use quant_pilot_ai_next.Base.{◌==◌}
use quant_pilot_ai_next.Int.{ℤ, pos, pos_part, leb_ℤ, ltb_ℤ}
use quant_pilot_ai_next.Dict.{Dict, get_or}
use quant_pilot_ai_next.Float.{Float, ◌⊕◌, ◌⊖◌, ◌⊗◌, lt, le, zero_float, round, max}
use quant_pilot_ai_next.PaperLedger.Contracts.{PaperOrderSide, buy, sell}

pub data AShareConstraintStatus : Type 0 where
  passed rejected : AShareConstraintStatus

pub record AShareCostModel (W : Type 0) : Type 0 where
  pub commission_rate : W
  pub min_commission : W
  pub stamp_tax_rate : W
  pub slippage_rate : W

pub record AShareConstraintResult (W : Type 0) : Type 0 where
  pub status : AShareConstraintStatus
  pub accepted : Bool
  pub adjusted_price : W
  pub gross_amount : W
  pub commission : W
  pub stamp_tax : W
  pub total_cost : W
  pub total_proceeds : W
  pub reasons : List String
  pub warnings : List String

-- `sellable_positions or {}`: no dictionary and an empty one are read alike.
unfoldable pub sellable_of : Option (Dict ℤ) → String → ℤ
unfolding get_or
sellable_of none symbol = pos 0
sellable_of (some sellable) symbol = get_or (pos 0) symbol sellable

module _ {W : Type 0} ⦃F : Float W⦄ where
  -- `AShareCostModel()`, with the defaults of its fields
  unfoldable pub default_cost_model : AShareCostModel W
  default_cost_model = record {
    commission_rate = F.lit 3 4;
    min_commission = F.lit 50 1;
    stamp_tax_rate = F.lit 5 4;
    slippage_rate = F.lit 5 4;
  }

  -- `_round_money`
  unfoldable pub round_money : W → W
  round_money value = round value 4

  unfoldable pub constraint_passed : AShareConstraintResult W
  constraint_passed = record {
    status = passed;
    accepted = true;
    adjusted_price = zero_float;
    gross_amount = zero_float;
    commission = zero_float;
    stamp_tax = zero_float;
    total_cost = zero_float;
    total_proceeds = zero_float;
    reasons = [];
    warnings = [];
  }

  unfoldable pub constraint_rejected : String → AShareConstraintResult W
  constraint_rejected reason = record {
    status = rejected;
    accepted = false;
    adjusted_price = zero_float;
    gross_amount = zero_float;
    commission = zero_float;
    stamp_tax = zero_float;
    total_cost = zero_float;
    total_proceeds = zero_float;
    reasons = reason ∷ [];
    warnings = [];
  }

  -- The second test is reached with a positive quantity, where `%` is that of the naturals.
  unfoldable pub validate_a_share_board_lot : ℤ → AShareConstraintResult W
  unfolding constraint_passed constraint_rejected
  validate_a_share_board_lot quantity =
      if leb_ℤ quantity (pos 0)
      then constraint_rejected "quantity_must_be_positive"
      else if not (pos_part quantity % 100 == 0)
      then constraint_rejected "quantity_must_be_100_share_lot"
      else constraint_passed

  -- the two branches of `apply_a_share_slippage`
  unfoldable pub slipped : PaperOrderSide → W → W → W
  unfolding round_money
  slipped buy limit_price slippage_rate =
      round_money (limit_price ⊗ (F.of_int (pos 1) ⊕ slippage_rate))
  slipped sell limit_price slippage_rate =
      round_money (limit_price ⊗ (F.of_int (pos 1) ⊖ slippage_rate))

  unfoldable pub apply_a_share_slippage : PaperOrderSide → W → W → Call W
  unfolding slipped
  apply_a_share_slippage side limit_price slippage_rate = do
    raise_if (le limit_price zero_float) (value_error "limit_price must be positive")
    raise_if (lt slippage_rate zero_float) (value_error "slippage_rate must be non-negative")
    returned (slipped side limit_price slippage_rate)

  unfoldable pub gross_of : ℤ → W → W
  unfolding round_money
  gross_of quantity adjusted_price = round_money (F.of_int quantity ⊗ adjusted_price)

  unfoldable pub commission_of : AShareCostModel W → W → W
  unfolding round_money
  commission_of model gross = round_money (max (gross ⊗ model.commission_rate) model.min_commission)

  unfoldable pub stamp_tax_of : AShareCostModel W → W → W
  unfolding round_money
  stamp_tax_of model gross = round_money (gross ⊗ model.stamp_tax_rate)

  costed : PaperOrderSide → W → W → W → W → AShareConstraintResult W
  unfolding round_money
  costed buy adjusted_price gross commission stamp_tax = record {
    status = passed;
    accepted = true;
    adjusted_price = adjusted_price;
    gross_amount = gross;
    commission = commission;
    stamp_tax = zero_float;
    total_cost = round_money (gross ⊕ commission);
    total_proceeds = zero_float;
    reasons = [];
    warnings = "simplified_a_share_cost_model" ∷ [];
  }
  costed sell adjusted_price gross commission stamp_tax = record {
    status = passed;
    accepted = true;
    adjusted_price = adjusted_price;
    gross_amount = gross;
    commission = commission;
    stamp_tax = stamp_tax;
    total_cost = zero_float;
    total_proceeds = round_money (gross ⊖ commission ⊖ stamp_tax);
    reasons = [];
    warnings = "simplified_a_share_cost_model" ∷ [];
  }

  -- the result of `calculate_a_share_order_cost` where it returns
  unfoldable pub order_cost : PaperOrderSide → ℤ → W → AShareCostModel W → AShareConstraintResult W
  unfolding validate_a_share_board_lot costed gross_of commission_of stamp_tax_of
  order_cost side quantity adjusted_price model =
      let lot = validate_a_share_board_lot quantity in
      if not lot.accepted
      then lot
      else if le adjusted_price zero_float
      then constraint_rejected "adjusted_price_must_be_positive"
      else (let gross = gross_of quantity adjusted_price in
          costed side adjusted_price gross (commission_of model gross) (stamp_tax_of model gross))

  -- `quantity * adjusted_price` is computed after the two tests.
  unfoldable pub calculate_a_share_order_cost :
      PaperOrderSide → ℤ → W → AShareCostModel W → Call (AShareConstraintResult W)
  unfolding validate_a_share_board_lot order_cost
  calculate_a_share_order_cost side quantity adjusted_price model =
      let lot : AShareConstraintResult W = validate_a_share_board_lot quantity in
      raise_if (lot.accepted && (not (le adjusted_price zero_float) && not (F.fits quantity)))
        overflow_error
      >> returned (order_cost side quantity adjusted_price model)

  unfoldable pub validate_t_plus_one_sell : String → ℤ → Option (Dict ℤ) → AShareConstraintResult W
  unfolding sellable_of constraint_passed constraint_rejected
  validate_t_plus_one_sell symbol quantity sellable_positions =
      if ltb_ℤ (sellable_of sellable_positions symbol) quantity
      then constraint_rejected "t_plus_one_sellable_quantity_insufficient"
      else constraint_passed
