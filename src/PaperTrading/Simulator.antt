-- ===== src/PaperTrading/Simulator.antt =====
-- The loop of `PaperFillSimulator.simulate` in src/quantpilot_core/paper_trading/simulator.py, which
-- fills or refuses the intents in order.

use quant_pilot_ai_next.Base.{
  String, Option, none, some, List, [], ◌∷◌, Bool, false, ◌&&◌, ◌||◌, not, if◌then◌else◌, is_none,
  Call, is_empty, ◌>>◌, raise_if, returned, value_error,
}
use quant_pilot_ai_next.Int.{ℤ, pos, ◌+ℤ◌, ◌-ℤ◌, leb_ℤ, ltb_ℤ}
use quant_pilot_ai_next.Dict.{Dict, insert, get_or, lookup, remove}
use quant_pilot_ai_next.Float.{Float, ◌⊕◌, round, lt, zero_float}
use quant_pilot_ai_next.PaperTrading.Contracts.{
  OrderIntentSide, buy, sell, hold, PaperFillCostAssumptions, OrderIntent, PaperTrade, PaperAccount,
  RejectedPaperFill, PaperFillSimulationResult,
}
use quant_pilot_ai_next.PaperTrading.Intents.{
  build_trade, is_buy, is_sell, reasons_for, rejected_fill, shares_or_zero, side_of,
}

-- what becomes of an intent
pub data FillOutcome (W : Type 0) : Type 0 where
  filled : PaperTrade W → FillOutcome W
  refused : RejectedPaperFill W → FillOutcome W

-- the variables of `simulate`: `available_cash` is `None` without an account
pub record SimulatorState (W : Type 0) : Type 0 where
  pub available_cash : Option W
  pub positions : Dict ℤ

-- `filled_trades`
unfoldable pub fills_of : {W : Type 0} → List (FillOutcome W) → List (PaperTrade W)
fills_of [] = []
fills_of (filled trade ∷ outcomes) = trade ∷ fills_of outcomes
fills_of (refused rejection ∷ outcomes) = fills_of outcomes

-- `rejected_fills`
unfoldable pub rejections_of : {W : Type 0} → List (FillOutcome W) → List (RejectedPaperFill W)
rejections_of [] = []
rejections_of (filled trade ∷ outcomes) = rejections_of outcomes
rejections_of (refused rejection ∷ outcomes) = rejection ∷ rejections_of outcomes

-- the positions after a fill; a position that is sold out is removed
unfoldable pub moved_positions : OrderIntentSide → String → ℤ → Dict ℤ → Dict ℤ
unfolding insert get_or remove
moved_positions buy symbol quantity positions =
    insert symbol (get_or (pos 0) symbol positions +ℤ quantity) positions
moved_positions sell symbol quantity positions =
    let left = get_or (pos 0) symbol positions -ℤ quantity in
    if leb_ℤ left (pos 0)
    then remove symbol (insert symbol left positions)
    else insert symbol left positions
moved_positions hold symbol quantity positions = positions

module _ {W : Type 0} ⦃F : Float W⦄ where
  -- `available_cash is not None and abs(trade.cash_impact) > available_cash`
  abbrev pub short_of_cash : Option W → W → Bool
  short_of_cash none impact = false
  short_of_cash (some cash) impact = lt cash (F.abs impact)

  -- `available_cash` after a fill
  abbrev pub cash_with : Option W → W → Option W
  cash_with none impact = none
  cash_with (some cash) impact = some (round (cash ⊕ impact) 6)

  -- the variables after a fill
  unfoldable pub filled_state : SimulatorState W → OrderIntentSide → PaperTrade W → SimulatorState W
  unfolding moved_positions
  filled_state s side trade = record {
    available_cash = cash_with s.available_cash trade.cash_impact;
    positions = moved_positions side trade.symbol trade.quantity s.positions;
  }

  -- a trade against the cash and the positions of the account
  unfoldable pub settle_trade :
      SimulatorState W
      → OrderIntent W
      → OrderIntentSide
      → PaperTrade W
      → FillOutcome W × SimulatorState W
  settle_trade s intent side trade =
      if is_buy side && short_of_cash s.available_cash trade.cash_impact
      then (refused (rejected_fill intent ("insufficient_cash" ∷ [])), s)
      else if is_sell side
          && (not (is_none s.available_cash)
              && ltb_ℤ (get_or (pos 0) intent.symbol s.positions) trade.quantity)
      then (refused (rejected_fill intent ("insufficient_position" ∷ [])), s)
      else (filled trade, filled_state s side trade)

  module _ (assumptions : PaperFillCostAssumptions W) (prices : Dict W) where
    -- an intent without reasons to reject it; a side and a price are there then
    unfoldable pub fill_intent :
        SimulatorState W
        → OrderIntent W
        → Option OrderIntentSide
        → Option W
        → FillOutcome W × SimulatorState W
    fill_intent s intent none price = (refused (rejected_fill intent ("invalid_side" ∷ [])), s)
    fill_intent s intent (some side) none =
        (refused (rejected_fill intent ("price_missing_or_non_positive" ∷ [])), s)
    fill_intent s intent (some side) (some price) =
        settle_trade s intent side
          (build_trade assumptions intent side (shares_or_zero intent.target_shares) price)

    -- one round of the loop
    unfoldable pub simulate_intent :
        SimulatorState W → OrderIntent W → FillOutcome W × SimulatorState W
    unfolding side_of reasons_for
    simulate_intent s intent =
        let side = side_of intent.side in
        let reasons = reasons_for side intent prices s.positions assumptions.lot_size in
        if not (is_empty reasons)
        then (refused (rejected_fill intent reasons), s)
        else fill_intent s intent side (lookup intent.symbol prices)

    unfoldable pub simulate_from : SimulatorState W → List (OrderIntent W) → List (FillOutcome W)
    simulate_from s [] = []
    simulate_from s (intent ∷ intents) =
        let (outcome, s') = simulate_intent s intent in outcome ∷ simulate_from s' intents

  unfoldable pub start_fills : Option (PaperAccount W) → SimulatorState W
  start_fills none = record { available_cash = none; positions = [] }
  start_fills (some account) = record {
    available_cash = some account.cash;
    positions = account.positions;
  }

  -- `PaperFillSimulator.simulate` on the intents of a proposal
  unfoldable pub simulate_fills :
      PaperFillCostAssumptions W
      → List (OrderIntent W)
      → Dict W
      → Option (PaperAccount W)
      → PaperFillSimulationResult W
  unfolding fills_of rejections_of
  simulate_fills assumptions intents prices account =
      let outcomes = simulate_from assumptions prices (start_fills account) intents in
      record {
        filled_trades = fills_of outcomes;
        rejected_fills = rejections_of outcomes;
        warnings = "advisory_only_no_broker_live_execution" ∷ [];
        live_execution_claim = false;
        broker_execution_reference = none;
      }

  -- `_validate_assumptions`
  unfoldable pub validate_assumptions : PaperFillCostAssumptions W → Call (Unit {0})
  validate_assumptions assumptions =
      raise_if
        (lt assumptions.fee_rate zero_float
          || (lt assumptions.min_fee zero_float || lt assumptions.stamp_tax_rate zero_float))
        (value_error "cost assumptions must be non-negative")
      >> raise_if (lt assumptions.slippage_bps zero_float)
          (value_error "slippage_bps must be non-negative")
      >> raise_if (leb_ℤ assumptions.lot_size (pos 0)) (value_error "lot_size must be positive")

  -- the constructor and `simulate`
  unfoldable pub run_fill_simulator :
      PaperFillCostAssumptions W
      → List (OrderIntent W)
      → Dict W
      → Option (PaperAccount W)
      → Call (PaperFillSimulationResult W)
  unfolding validate_assumptions
  run_fill_simulator assumptions intents prices account =
      validate_assumptions assumptions
      >> returned (simulate_fills assumptions intents prices account)
