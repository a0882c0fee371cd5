-- ===== src/AccountProfile/Contracts.antt =====
-- src/quantpilot_core/account_profile_preflight/contracts.py. The profile's fields are plain texts,
-- which the code compares with the values of the enums.
use quant_pilot_ai_next.Base.{String, Bool, Option, List}
use quant_pilot_ai_next.Int.{ℤ}
use quant_pilot_ai_next.Dict.{Dict}
use quant_pilot_ai_next.RiskFlags.{RiskFlag}

pub data AccountStatus : Type 0 where
  active read_only suspended kill_switched : AccountStatus

abbrev pub account_status_value : AccountStatus → String
account_status_value active = "active"
account_status_value read_only = "read_only"
account_status_value suspended = "suspended"
account_status_value kill_switched = "kill_switched"

-- `TradePermission.BUY.value` and so on, as far as the code names them
abbrev pub permission_buy : String
permission_buy = "buy"

abbrev pub permission_sell : String
permission_sell = "sell"

abbrev pub permission_query_only : String
permission_query_only = "query_only"

-- `BrokerCapability.A_SHARE_CASH_EQUITY.value`
abbrev pub a_share_cash_equity : String
a_share_cash_equity = "a_share_cash_equity"

pub record AccountCashProfile (W : Type 0) : Type 0 where
  pub currency : String
  pub available_cash : W
  pub frozen_cash : W
  pub total_equity : W

pub record AccountPosition (W : Type 0) : Type 0 where
  pub symbol : String
  pub quantity : ℤ
  pub sellable_quantity : ℤ
  pub avg_cost : W
  pub market_value : W
  pub industry : Option String

pub record BrokerFeeProfile (W : Type 0) : Type 0 where
  pub commission_rate : W
  pub min_commission : W
  pub stamp_tax_rate : W
  pub transfer_fee_rate : W
  pub slippage_bps : W

pub record BrokerCapabilityProfile : Type 0 where
  pub broker_name : String
  pub market : String
  pub capabilities : List String
  pub permissions : List String

pub record AccountRiskLimits (W : Type 0) : Type 0 where
  pub max_single_symbol_weight : W
  pub max_industry_weight : W
  pub max_total_position_weight : W
  pub max_daily_turnover : Option W
  pub max_order_value : Option W

pub record AccountProfile (W : Type 0) : Type 0 where
  pub account_id : String
  pub status : String
  pub cash : AccountCashProfile W
  pub positions : List (AccountPosition W)
  pub broker_fee : BrokerFeeProfile W
  pub broker_capability : BrokerCapabilityProfile
  pub risk_limits : AccountRiskLimits W
  pub evidence_refs : List String

pub record AccountProfilePreflightResult (W : Type 0) : Type 0 where
  pub ok : Bool
  pub reason : String
  pub account_id : String
  pub risk_flags : List RiskFlag
  pub normalized_sellable_by_symbol : Dict ℤ
  pub normalized_position_weight_by_symbol : Dict W
  pub normalized_industry_weight : Dict W
