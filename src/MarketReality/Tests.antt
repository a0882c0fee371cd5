-- ===== src/MarketReality/Tests.antt =====
-- A sandbox scenario and a draft for src/quantpilot_core/market_reality, in units of 10^-8.
use quant_pilot_ai_next.Base.{
  ◌≡◌, refl, ◌≢◌, true, false, none, some, List, [], ◌∷◌, returned, raised, zero_division_error,
}
use quant_pilot_ai_next.Int.{ℤ, pos, mod_ℤ, ◌-ℤ◌}
use quant_pilot_ai_next.Float.{fixed}
use quant_pilot_ai_next.MarketReality.Contracts.{
  OrderSide, SandboxRejectionReason, st_or_delisting_risk, invalid_lot_size, issue,
  ExecutionConstraint, OrderDraft, SandboxScenario, SandboxValidationIssue,
}
use quant_pilot_ai_next.MarketReality.Scenario.{
  has_external_adapter_boundary, validate_instrument_profile, validate_account_constraint,
  validate_capital_constraint, validate_cost_model, validate_slippage_model, validate_execution,
  validate_assumptions, validate_sandbox_scenario, seen, rejection_reasons,
}
use quant_pilot_ai_next.MarketReality.Draft.{
  contains_forbidden_live_terms, validate_cash, validate_price, validate_boundary,
  validate_order_draft,
}
use quant_pilot_ai_next.MarketReality.Laws.{
  IsSafeDraft, validate_order_draft-IsSafeDraft, validate_order_draft_zero_lot,
}
use quant_pilot_ai_next.MarketReality.Reasons.{has_reason, IsDistinct, rejection_reasons_lem}

abbrev lots_of : ℤ → ExecutionConstraint ℤ
lots_of lot_size = record {
  t_plus_one_required = true;
  t_zero_eligible = false;
  lot_size = lot_size;
  lot_size_required = true;
  price_limit_up = some (pos 1_100_000_000);
  price_limit_down = some (pos 900_000_000);
  same_day_sell_forbidden = true;
  partial_fill_allowed = true;
  rejected_order_model_required = true;
}

abbrev scenario_of : ℤ → SandboxScenario ℤ
scenario_of lot_size = record {
  scenario_id = "s1";
  description = "one draft";
  instrument = record {
    symbol = "600000";
    market = "SSE";
    board = "main";
    is_suspended = false;
    st_flag_explicit = true;
    is_st = false;
    delisting_risk_explicit = true;
    has_delisting_risk = false;
    price_limit_up = some (pos 1_100_000_000);
    price_limit_down = some (pos 900_000_000);
    t_zero_eligible = false;
    lot_size = pos 100;
    external_adapter_boundary = "RQAlpha";
  };
  execution_constraint = lots_of lot_size;
  calendar = record {
    calendar_name = "XSHG";
    trading_day = "2026-08-14";
    is_trading_day = true;
    session_label = "day";
    source = "fixture";
    external_adapter_boundary = "exchange_calendars";
  };
  cost_model = record {
    commission_rate = pos 30_000;
    stamp_duty_rate = pos 50_000;
    transfer_fee_rate = pos 1000;
    minimum_commission = pos 500_000_000;
    currency = "CNY";
    external_adapter_boundary = "RQAlpha";
  };
  slippage_model = record {
    model_name = "fixed";
    slippage_bps = pos 500_000_000;
    liquidity_participation_limit = pos 10_000_000;
    external_adapter_boundary = "RQAlpha";
  };
  account_constraint = record {
    account_id = "a1";
    available_cash = some (pos 10_000_000_000_000);
    cash_constraint_explicit = true;
    allowed_markets = "SZSE" ∷ "SSE" ∷ [];
    can_trade_a_shares = true;
    can_trade_t_zero_instruments = false;
    permission_notes = "";
  };
  capital_constraint = record {
    max_order_notional = pos 1_000_000_000_000;
    max_position_notional = pos 1_000_000_000_000;
    max_cash_usage_ratio = pos 50_000_000;
    min_cash_reserve = pos 0;
    capital_mode = "small";
  };
  data_latency = some (record {
    provider_name = "p";
    max_latency_seconds = pos 60;
    timestamp_source = "p";
    timestamp_audit_required = true;
    latency_policy = "warn";
  });
  provider_failure = some (record {
    provider_name = "p";
    failure_mode = "timeout";
    fallback_policy = "none";
    failure_handling_required = true;
  });
  external_adapter_boundaries = "RQAlpha adapter" ∷ [];
  timestamp_audit_required = true;
  no_live_execution = true;
}

abbrev draft : OrderDraft ℤ
draft = record {
  draft_id = "d1";
  symbol = "600000";
  side = OrderSide.buy;
  quantity = pos 200;
  limit_price = pos 1_000_000_000;
  trade_date = "2026-08-14";
  created_at = "2026-08-14T10:00:00";
  scenario_id = "s1";
  is_live_order = false;
  broker_instruction_id = none;
  sandbox_instruction = "Sandbox check only";
  external_adapter_boundary = "RQAlpha";
}

draft_clean : validate_order_draft draft (scenario_of (pos 100)) ≡ returned []
unfolding validate_order_draft mod_ℤ validate_sandbox_scenario validate_instrument_profile
    validate_account_constraint validate_capital_constraint validate_cost_model
    validate_slippage_model validate_execution validate_assumptions has_external_adapter_boundary
    validate_cash ◌-ℤ◌ validate_price validate_boundary contains_forbidden_live_terms
draft_clean = refl

validate_order_draft-IsSafeDraft_example : IsSafeDraft draft (scenario_of (pos 100))
validate_order_draft-IsSafeDraft_example =
    validate_order_draft-IsSafeDraft draft (scenario_of (pos 100)) draft_clean

validate_order_draft_zero_lot_example :
    (validate_order_draft draft (scenario_of (pos 0)) ≡ raised zero_division_error)
    × (validate_sandbox_scenario (scenario_of (pos 0)) ≢ [])
validate_order_draft_zero_lot_example =
    validate_order_draft_zero_lot draft (scenario_of (pos 0)) refl refl

abbrev issues : List SandboxValidationIssue
issues =
    issue "risk_flags_missing" "" st_or_delisting_risk
    ∷ issue "lot_size_missing" "" invalid_lot_size
    ∷ issue "quantity_not_lot_size" "" invalid_lot_size
    ∷ []

rejection_reasons_lem_example :
    ((r : SandboxRejectionReason) → seen r (rejection_reasons issues) ≡ has_reason r issues)
    × IsDistinct (rejection_reasons issues)
rejection_reasons_lem_example = rejection_reasons_lem issues
