-- ===== src/PaperTrading/Contracts.antt =====
-- src/quantpilot_core/paper_trading/contracts.py and order_intent/contracts.py, as far as the simulator
-- uses them. A side is a text, which an enum member is too; the metadata of a trade are its two ids.
use quant_pilot_ai_next.Base.{String, Option, List, Bool}
use quant_pilot_ai_next.Int.{ℤ}
use quant_pilot_ai_next.Dict.{Dict}

pub data OrderIntentSide : Type 0 where
  buy sell hold : OrderIntentSide

abbrev pub side_value : OrderIntentSide → String
side_value buy = "buy"
side_value sell = "sell"
side_value hold = "hold"

pub record OrderIntent (W : Type 0) : Type 0 where
  pub symbol : String
  pub side : String
  pub target_weight : Option W
  pub target_shares : Option ℤ
  pub reason : String
  pub source_agent : String
  pub confidence : W
  pub strategy_id : Option String
  pub run_label : Option String

pub record PaperTrade (W : Type 0) : Type 0 where
  pub symbol : String
  pub side : String
  pub quantity : ℤ
  pub reference_price : W
  pub fill_price : W
  pub gross_notional : W
  pub fee : W
  pub slippage_cost : W
  pub total_cost : W
  pub cash_impact : W
  pub realized_pnl : W
  pub reason : String
  pub source_agent : String
  pub strategy_id : Option String
  pub run_label : Option String

pub record RejectedPaperFill (W : Type 0) : Type 0 where
  pub symbol : String
  pub side : String
  pub requested_quantity : Option ℤ
  pub reasons : List String
  pub intent : OrderIntent W

pub record PaperAccount (W : Type 0) : Type 0 where
  pub cash : W
  pub positions : Dict ℤ
  pub average_costs : Dict W
  pub realized_pnl_by_symbol : Dict W
  pub realized_pnl : W
  pub unrealized_pnl : W
  pub trade_log : List (PaperTrade W)

pub record PaperFillCostAssumptions (W : Type 0) : Type 0 where
  pub fee_rate : W
  pub min_fee : W
  pub stamp_tax_rate : W
  pub slippage_bps : W
  pub lot_size : ℤ
  pub transfer_fee_rate : W
  pub exchange_fee_rate : W
  pub stamp_tax_applies_to_buy : Bool
  pub stamp_tax_applies_to_etf : Bool

pub record PaperFillSimulationResult (W : Type 0) : Type 0 where
  pub filled_trades : List (PaperTrade W)
  pub rejected_fills : List (RejectedPaperFill W)
  pub warnings : List String
  pub live_execution_claim : Bool
  pub broker_execution_reference : Option String
