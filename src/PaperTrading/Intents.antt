-- ===== src/PaperTrading/Intents.antt =====
-- The side of an intent, the reasons to reject it, and the trade that is built from it:
-- src/quantpilot_core/paper_trading/simulator.py, with the latest prices as a mapping.
use quant_pilot_ai_next.Text.Strip.{same_codes}
use quant_pilot_ai_next.RiskFlags.{unique}
use quant_pilot_ai_next.Base.{
  String, Option, none, some, List, [], ◌∷◌, ◌++◌, Bool, true, false, ◌&&◌, not, if◌then◌else◌,
  is_empty, only_if,
}
use quant_pilot_ai_next.Text.{lower_codes, is_blank, code_points}
use quant_pilot_ai_next.Int.{ℤ, pos, mod_ℤ, eq_ℤ, leb_ℤ, ltb_ℤ}
use quant_pilot_ai_next.Dict.{Dict, get_or, lookup}
use quant_pilot_ai_next.Float.{Float, ◌⊕◌, ◌⊖◌, ◌⊗◌, ◌⊘◌, round, le, max, zero_float}
use quant_pilot_ai_next.PaperTrading.Contracts.{
  OrderIntentSide, buy, sell, hold, PaperFillCostAssumptions, OrderIntent, PaperTrade,
  RejectedPaperFill, side_value,
}

-- `OrderIntentSide(str(side).lower())`, or nothing where it raises `ValueError`
unfoldable pub side_of : String → Option OrderIntentSide
unfolding lower_codes same_codes
side_of side =
    let codes = lower_codes (code_points side) in
    if same_codes codes (code_points "buy")
    then some buy
    else if same_codes codes (code_points "sell")
    then some sell
    else if same_codes codes (code_points "hold")
    then some hold
    else none

abbrev pub is_buy : OrderIntentSide → Bool
is_buy buy = true
is_buy sell = false
is_buy hold = false

abbrev pub is_sell : OrderIntentSide → Bool
is_sell buy = false
is_sell sell = true
is_sell hold = false

-- `target_shares or 0`
abbrev pub shares_or_zero : Option ℤ → ℤ
shares_or_zero none = pos 0
shares_or_zero (some shares) = shares

-- `quantity % lot_size != 0`; the constructor refuses a lot size of zero
abbrev pub is_off_lot : ℤ → ℤ → Bool
is_off_lot quantity lot_size = elim (mod_ℤ quantity lot_size) [
  | none ↦ true
  | some r ↦ not (eq_ℤ r (pos 0))
]

-- the reason that is drawn from the quantity
unfoldable pub quantity_reasons : Option ℤ → ℤ → List String
unfolding mod_ℤ
quantity_reasons none lot_size = "quantity_must_be_positive" ∷ []
quantity_reasons (some quantity) lot_size =
    if leb_ℤ quantity (pos 0)
    then "quantity_must_be_positive" ∷ []
    else only_if (is_off_lot quantity lot_size) "quantity_must_be_100_share_lot"

module _ {W : Type 0} ⦃F : Float W⦄ where
  -- `price is None or price <= 0`
  abbrev pub bad_price : Option W → Bool
  bad_price none = true
  bad_price (some price) = le price zero_float

  -- the reasons of a buy or a sale
  unfoldable pub trade_reasons : OrderIntentSide → OrderIntent W → Dict W → Dict ℤ → ℤ → List String
  unfolding is_blank quantity_reasons lookup get_or
  trade_reasons side intent prices positions lot_size =
      only_if (is_blank intent.symbol) "symbol_missing"
      ++ (quantity_reasons intent.target_shares lot_size
          ++ (only_if (bad_price (lookup intent.symbol prices)) "price_missing_or_non_positive"
              ++ only_if
                  (is_sell side
                    && (not (is_empty positions)
                        && ltb_ℤ (get_or (pos 0) intent.symbol positions)
                            (shares_or_zero intent.target_shares)))
                  "insufficient_position"))

  -- `_rejection_reasons`, from the side
  unfoldable pub reasons_for :
      Option OrderIntentSide → OrderIntent W → Dict W → Dict ℤ → ℤ → List String
  unfolding unique
  reasons_for none intent prices positions lot_size = "invalid_side" ∷ []
  reasons_for (some hold) intent prices positions lot_size = "hold_intent_no_fill" ∷ []
  reasons_for (some buy) intent prices positions lot_size =
      unique (trade_reasons buy intent prices positions lot_size)
  reasons_for (some sell) intent prices positions lot_size =
      unique (trade_reasons sell intent prices positions lot_size)

  -- `_fill_price`
  unfoldable pub fill_price_of : OrderIntentSide → W → W → W
  fill_price_of side reference_price slippage_bps =
      let adjustment = slippage_bps ⊘ F.of_int (pos 10_000) in
      if is_buy side
      then round (reference_price ⊗ (F.of_int (pos 1) ⊕ adjustment)) 6
      else round (reference_price ⊗ (F.of_int (pos 1) ⊖ adjustment)) 6

  -- `_build_trade`
  unfoldable pub build_trade :
      PaperFillCostAssumptions W → OrderIntent W → OrderIntentSide → ℤ → W → PaperTrade W
  unfolding fill_price_of
  build_trade assumptions intent side quantity reference_price =
      let fill_price = fill_price_of side reference_price assumptions.slippage_bps in
      let gross = round (F.of_int quantity ⊗ fill_price) 6 in
      let fee = round (max (gross ⊗ assumptions.fee_rate) assumptions.min_fee) 6 in
      let stamp_tax =
        if is_sell side then round (gross ⊗ assumptions.stamp_tax_rate) 6 else zero_float in
      let slippage_cost = round (F.abs (F.of_int quantity ⊗ (fill_price ⊖ reference_price))) 6 in
      record {
        symbol = intent.symbol;
        side = side_value side;
        quantity = quantity;
        reference_price = reference_price;
        fill_price = fill_price;
        gross_notional = gross;
        fee = fee;
        slippage_cost = slippage_cost;
        total_cost = round (fee ⊕ stamp_tax ⊕ slippage_cost) 6;
        cash_impact = round (if is_buy side then F.neg gross ⊖ fee else gross ⊖ fee ⊖ stamp_tax) 6;
        realized_pnl = zero_float;
        reason = intent.reason;
        source_agent = intent.source_agent;
        strategy_id = intent.strategy_id;
        run_label = intent.run_label;
      }

  -- `_rejected`
  unfoldable pub rejected_fill : OrderIntent W → List String → RejectedPaperFill W
  rejected_fill intent reasons = record {
    symbol = intent.symbol;
    side = intent.side;
    requested_quantity = intent.target_shares;
    reasons = reasons;
    intent = intent;
  }
