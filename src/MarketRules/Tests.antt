-- ===== src/MarketRules/Tests.antt =====
-- Order intents under the A-share rules, in fixed-point prices in units of 10^-8.
use quant_pilot_ai_next.Base.{
  ◌≡◌, refl, false, true, none, some, [], ◌∷◌, arith, raised, Returns, zero_division_error, ◌↔◌,
  List, returned, ◌⊎◌,
}
use quant_pilot_ai_next.Int.{ℤ, pos, ◌≤ℤ◌, mod_ℤ, ◌+ℤ◌, ◌-ℤ◌}
use quant_pilot_ai_next.Float.{fixed}
use quant_pilot_ai_next.MarketRules.Types.{
  buy, BoardType, RiskFlag, OrderIntent, Profile, RuleViolation,
}
use quant_pilot_ai_next.MarketRules.AShare.{lot_increment, validate_order_intent}
use quant_pilot_ai_next.MarketRules.Laws.{
  IsErrorFree, IsCompliant, validate_order_intent-IsCompliant, validate_order_intent_raises,
}
use quant_pilot_ai_next.MarketRules.Compliant.{validate_order_intent-IsErrorFree}

abbrev profile : Profile ℤ
profile = record {
  lot_rules = record {
    buy_lot_size = some (pos 100);
    buy_lot_increment = none;
    odd_lot_sell_policy = none;
  };
  t_plus_enabled = true;
  sell_same_day_acquired_forbidden = true;
  price_limit_rules = record {
    enabled = true;
    special_cases_deferred = "ipo" ∷ [];
    risk_flag_limits = ("st", some (pos 5_000_000)) ∷ [];
    board_limits = ("main", some (pos 10_000_000)) ∷ [];
  };
  block_if_suspended = true;
  liquidity_enabled = false;
  max_participation_rate = none;
  fee_manual_review_required = false;
  slippage_manual_review_required = false;
}

abbrev no_lots : Profile ℤ
no_lots = record profile {
  lot_rules = record {
    buy_lot_size = some (pos 0);
    buy_lot_increment = none;
    odd_lot_sell_policy = none;
  };
}

abbrev purchase : OrderIntent ℤ
purchase = record {
  symbol = "600000";
  trade_date = "2026-01-05";
  side = buy;
  quantity = pos 200;
  price = pos 1_050_000_000;
  previous_close = pos 1_000_000_000;
  board = BoardType.main;
  risk_flag = RiskFlag.normal;
  is_suspended = false;
  acquired_today_quantity = pos 0;
  available_volume = none;
}

validate_order_intent-IsCompliant_example : IsCompliant purchase profile
unfolding validate_order_intent mod_ℤ ◌+ℤ◌ ◌-ℤ◌
validate_order_intent-IsCompliant_example =
    validate_order_intent-IsCompliant purchase profile _ refl refl

validate_order_intent-IsErrorFree_example :
    Returns IsErrorFree (validate_order_intent purchase profile)
validate_order_intent-IsErrorFree_example =
    validate_order_intent-IsErrorFree purchase profile validate_order_intent-IsCompliant_example

validate_order_intent_raises_example :
    ((validate_order_intent purchase no_lots ≡ raised zero_division_error) ↔ (
      (purchase.side ≡ buy)
      × (pos 1 ≤ℤ purchase.quantity)
      × (lot_increment no_lots.lot_rules ≡ pos 0)))
    × (((violations : List RuleViolation) × (validate_order_intent purchase no_lots
            ≡ returned violations))
        ⊎ (validate_order_intent purchase no_lots ≡ raised zero_division_error))
validate_order_intent_raises_example = validate_order_intent_raises purchase no_lots

-- a lot size of zero is the increment too
no_lots_raises : validate_order_intent purchase no_lots ≡ raised zero_division_error
no_lots_raises = validate_order_intent_raises_example.0.1 (refl, ground arith, refl)
