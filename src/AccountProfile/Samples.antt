-- ===== src/AccountProfile/Samples.antt =====
-- An account in fixed-point money, in units of 10^-8, for the tests of
-- src/quantpilot_core/account_profile_preflight and of the gates that take a profile.
use quant_pilot_ai_next.Base.{none, some, [], ◌∷◌}
use quant_pilot_ai_next.Int.{ℤ, pos}
use quant_pilot_ai_next.AccountProfile.Contracts.{AccountPosition, AccountProfile}

abbrev pub holding : AccountPosition ℤ
holding = record {
  symbol = "600000";
  quantity = pos 300;
  sellable_quantity = pos 200;
  avg_cost = pos 1_000_000_000;
  market_value = pos 300_000_000_000;
  industry = some "bank";
}

abbrev pub sample_profile : AccountProfile ℤ
sample_profile = record {
  account_id = "paper-1";
  status = "active";
  cash = record {
    currency = "CNY";
    available_cash = pos 1_000_000_000_000;
    frozen_cash = pos 0;
    total_equity = pos 2_000_000_000_000;
  };
  positions = holding ∷ [];
  broker_fee = record {
    commission_rate = pos 30_000;
    min_commission = pos 500_000_000;
    stamp_tax_rate = pos 50_000;
    transfer_fee_rate = pos 1_000;
    slippage_bps = pos 500_000_000;
  };
  broker_capability = record {
    broker_name = "paper";
    market = "cn_a";
    capabilities = "a_share_cash_equity" ∷ [];
    permissions = "buy" ∷ "sell" ∷ [];
  };
  risk_limits = record {
    max_single_symbol_weight = pos 50_000_000;
    max_industry_weight = pos 50_000_000;
    max_total_position_weight = pos 100_000_000;
    max_daily_turnover = none;
    max_order_value = some (pos 500_000_000_000);
  };
  evidence_refs = "e1" ∷ [];
}
