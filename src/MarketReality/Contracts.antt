-- ===== src/MarketReality/Contracts.antt =====
-- src/quantpilot_core/market_reality/contracts.py, field by field, and the helper `_issue`
-- of validation.py.
use quant_pilot_ai_next.Base.{ℕ, String, Bool, Option, List, [], ◌∷◌}
use quant_pilot_ai_next.Int.{ℤ}

abbrev pub mature_external_boundary_names : List String
mature_external_boundary_names =
    "RQAlpha" ∷ "vectorbt" ∷ "Backtrader" ∷ "Hikyuu" ∷ "Qlib" ∷ "exchange_calendars" ∷ "empyrical"
    ∷ "quantstats" ∷ []

pub data OrderSide : Type 0 where
  buy sell : OrderSide

pub data SandboxRejectionReason : Type 0 where
  no_reason invalid_lot_size suspended_instrument : SandboxRejectionReason
  st_or_delisting_risk price_limit_violation t_plus_one_violation : SandboxRejectionReason
  cash_constraint_missing insufficient_cash capital_constraint_violation : SandboxRejectionReason
  account_permission_blocked cost_model_missing slippage_model_missing : SandboxRejectionReason
  provider_failure_assumption_missing data_latency_assumption_missing : SandboxRejectionReason
  live_execution_forbidden adapter_boundary_missing : SandboxRejectionReason

pub data ValidationSeverity : Type 0 where
  error warning info : ValidationSeverity

pub record ExecutionConstraint (W : Type 0) : Type 0 where
  pub t_plus_one_required : Bool
  pub t_zero_eligible : Bool
  pub lot_size : ℤ
  pub lot_size_required : Bool
  pub price_limit_up : Option W
  pub price_limit_down : Option W
  pub same_day_sell_forbidden : Bool
  pub partial_fill_allowed : Bool
  pub rejected_order_model_required : Bool

pub record TradingCalendarAssumption : Type 0 where
  pub calendar_name : String
  pub trading_day : String
  pub is_trading_day : Bool
  pub session_label : String
  pub source : String
  pub external_adapter_boundary : String

pub record CostModel (W : Type 0) : Type 0 where
  pub commission_rate : W
  pub stamp_duty_rate : W
  pub transfer_fee_rate : W
  pub minimum_commission : W
  pub currency : String
  pub external_adapter_boundary : String

pub record SlippageModel (W : Type 0) : Type 0 where
  pub model_name : String
  pub slippage_bps : W
  pub liquidity_participation_limit : W
  pub external_adapter_boundary : String

pub record DataLatencyAssumption : Type 0 where
  pub provider_name : String
  pub max_latency_seconds : ℤ
  pub timestamp_source : String
  pub timestamp_audit_required : Bool
  pub latency_policy : String

pub record ProviderFailureAssumption : Type 0 where
  pub provider_name : String
  pub failure_mode : String
  pub fallback_policy : String
  pub failure_handling_required : Bool

pub record AccountConstraint (W : Type 0) : Type 0 where
  pub account_id : String
  pub available_cash : Option W
  pub cash_constraint_explicit : Bool
  pub allowed_markets : List String
  pub can_trade_a_shares : Bool
  pub can_trade_t_zero_instruments : Bool
  pub permission_notes : String

pub record CapitalConstraint (W : Type 0) : Type 0 where
  pub max_order_notional : W
  pub max_position_notional : W
  pub max_cash_usage_ratio : W
  pub min_cash_reserve : W
  pub capital_mode : String

pub record InstrumentTradingProfile (W : Type 0) : Type 0 where
  pub symbol : String
  pub market : String
  pub board : String
  pub is_suspended : Bool
  pub st_flag_explicit : Bool
  pub is_st : Bool
  pub delisting_risk_explicit : Bool
  pub has_delisting_risk : Bool
  pub price_limit_up : Option W
  pub price_limit_down : Option W
  pub t_zero_eligible : Bool
  pub lot_size : ℤ
  pub external_adapter_boundary : String

pub record OrderDraft (W : Type 0) : Type 0 where
  pub draft_id : String
  pub symbol : String
  pub side : OrderSide
  pub quantity : ℤ
  pub limit_price : W
  pub trade_date : String
  pub created_at : String
  pub scenario_id : String
  pub is_live_order : Bool
  pub broker_instruction_id : Option String
  pub sandbox_instruction : String
  pub external_adapter_boundary : String

pub record FillSimulation (W : Type 0) : Type 0 where
  pub requested_quantity : ℤ
  pub filled_quantity : ℤ
  pub average_fill_price : Option W
  pub partial_fill : Bool
  pub rejected : Bool
  pub rejection_reason : SandboxRejectionReason
  pub notes : String

pub record SandboxScenario (W : Type 0) : Type 0 where
  pub scenario_id : String
  pub description : String
  pub instrument : InstrumentTradingProfile W
  pub execution_constraint : ExecutionConstraint W
  pub calendar : TradingCalendarAssumption
  pub cost_model : CostModel W
  pub slippage_model : SlippageModel W
  pub account_constraint : AccountConstraint W
  pub capital_constraint : CapitalConstraint W
  pub data_latency : Option DataLatencyAssumption
  pub provider_failure : Option ProviderFailureAssumption
  pub external_adapter_boundaries : List String
  pub timestamp_audit_required : Bool
  pub no_live_execution : Bool

pub record SandboxResult (W : Type 0) : Type 0 where
  pub scenario_id : String
  pub order_draft : OrderDraft W
  pub fill_simulation : FillSimulation W
  pub accepted_for_sandbox : Bool
  pub rejection_reasons : List SandboxRejectionReason
  pub live_execution_claim : Bool
  pub broker_execution_reference : Option String
  pub audit_timestamp : String
  pub external_adapter_boundary : String

pub record SandboxValidationIssue : Type 0 where
  pub code : String
  pub severity : ValidationSeverity
  pub message : String
  pub rejection_reason : SandboxRejectionReason

-- `_issue`
abbrev pub issue : String → String → SandboxRejectionReason → SandboxValidationIssue
issue code message reason = record {
  code = code;
  severity = error;
  message = message;
  rejection_reason = reason;
}

-- the position of a reason in the enum, by which two reasons are compared
abbrev pub reason_index : SandboxRejectionReason → ℕ
reason_index no_reason = 0
reason_index invalid_lot_size = 1
reason_index suspended_instrument = 2
reason_index st_or_delisting_risk = 3
reason_index price_limit_violation = 4
reason_index t_plus_one_violation = 5
reason_index cash_constraint_missing = 6
reason_index insufficient_cash = 7
reason_index capital_constraint_violation = 8
reason_index account_permission_blocked = 9
reason_index cost_model_missing = 10
reason_index slippage_model_missing = 11
reason_index provider_failure_assumption_missing = 12
reason_index data_latency_assumption_missing = 13
reason_index live_execution_forbidden = 14
reason_index adapter_boundary_missing = 15
