-- ===== src/MarketRules/Types.antt =====
-- src/quantpilot_core/market_rules/types.py, and the profile as a_share.py reads it: the JSON
-- sections with the keys that are looked up. A missing section is one without keys, a missing key is
-- `none`, and a key that is tested by `is True` is a `Bool`.
use quant_pilot_ai_next.Base.{String, Bool, true, false, Option, List}
use quant_pilot_ai_next.Int.{ℤ}
use quant_pilot_ai_next.Dict.{Dict}

pub data MarketSide : Type 0 where
  buy sell : MarketSide

pub data BoardType : Type 0 where
  main star chinext bse unknown : BoardType

pub data RiskFlag : Type 0 where
  normal st delisting unknown : RiskFlag

pub data RuleSeverity : Type 0 where
  info warning error : RuleSeverity

pub record OrderIntent (W : Type 0) : Type 0 where
  pub symbol : String
  pub trade_date : String
  pub side : MarketSide
  pub quantity : ℤ
  pub price : W
  pub previous_close : W
  pub board : BoardType
  pub risk_flag : RiskFlag
  pub is_suspended : Bool
  pub acquired_today_quantity : ℤ
  pub available_volume : Option W

pub record RuleViolation : Type 0 where
  pub code : String
  pub severity : RuleSeverity
  pub message : String
  pub rule_name : String

pub record LotRules : Type 0 where
  pub buy_lot_size : Option ℤ
  pub buy_lot_increment : Option ℤ
  pub odd_lot_sell_policy : Option String

pub record PriceLimitRules (W : Type 0) : Type 0 where
  pub enabled : Bool
  pub special_cases_deferred : List String
  pub risk_flag_limits : Dict (Option W)
  pub board_limits : Dict (Option W)

pub record Profile (W : Type 0) : Type 0 where
  pub lot_rules : LotRules
  -- `enabled` and `sell_same_day_acquired_forbidden` of the section `t_plus_rules`
  pub t_plus_enabled : Bool
  pub sell_same_day_acquired_forbidden : Bool
  pub price_limit_rules : PriceLimitRules W
  pub block_if_suspended : Bool
  -- `enabled` and `max_participation_rate` of `liquidity_rules`
  pub liquidity_enabled : Bool
  pub max_participation_rate : Option W
  -- `manual_review_required` of `fee_rules` and of `slippage_rules`
  pub fee_manual_review_required : Bool
  pub slippage_manual_review_required : Bool

-- `risk_flag.value` and `board.value`
abbrev pub risk_value : RiskFlag → String
risk_value RiskFlag.normal = "normal"
risk_value RiskFlag.st = "st"
risk_value RiskFlag.delisting = "delisting"
risk_value RiskFlag.unknown = "unknown"

abbrev pub board_value : BoardType → String
board_value BoardType.main = "main"
board_value BoardType.star = "star"
board_value BoardType.chinext = "chinext"
board_value BoardType.bse = "bse"
board_value BoardType.unknown = "unknown"

abbrev pub is_error : RuleViolation → Bool
is_error violation = elim violation.severity [ error ↦ true | _ ↦ false ]
