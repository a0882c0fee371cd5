-- ===== src/MarketRules/AShare.antt =====
-- src/quantpilot_core/market_rules/a_share.py. The remainder by a lot increment of zero raises.
use Prim.Native.String
use quant_pilot_ai_next.Base.{
  String, Bool, true, false, Option, none, some, List, [], ◌∷◌, ◌++◌, ◌&&◌, not, if◌then◌else◌,
  only_if, Call, returned, raised, zero_division_error, ◌>>=◌,
}
use quant_pilot_ai_next.Int.{ℤ, pos, ltb_ℤ, leb_ℤ, eq_ℤ, mod_ℤ}
use quant_pilot_ai_next.Text.{◌==◌, join}
use quant_pilot_ai_next.Dict.{lookup}
use quant_pilot_ai_next.Float.{Float, ◌⊕◌, ◌⊖◌, ◌⊗◌, lt, le, zero_float}
use quant_pilot_ai_next.MarketRules.Types.{
  MarketSide, buy, sell, RuleSeverity, info, warning, error, OrderIntent, RuleViolation, LotRules,
  PriceLimitRules, Profile, risk_value, board_value,
}

-- `_violation`
abbrev pub violation : String → RuleSeverity → String → String → RuleViolation
violation code severity message rule_name = record {
  code = code;
  severity = severity;
  message = message;
  rule_name = rule_name;
}

abbrev pub or_default {ℓ} : {A : Type ℓ} → A → Option A → A
or_default x none = x
or_default x (some y) = y

-- `buy_lot_size`, and `buy_lot_increment`, which is the lot size unless it is given
abbrev pub lot_size : LotRules → ℤ
lot_size rules = or_default (pos 100) rules.buy_lot_size

abbrev pub lot_increment : LotRules → ℤ
lot_increment rules = or_default (lot_size rules) rules.buy_lot_increment

-- the two tests of a buy, with the remainder of the quantity
abbrev pub lot_violations : ℤ → ℤ → ℤ → List RuleViolation
lot_violations quantity size rest =
    only_if (ltb_ℤ quantity size) (
      violation "buy_quantity_below_lot_size" error "Buy quantity is below configured lot size."
        "lot_rules")
    ++ only_if (not (eq_ℤ rest (pos 0))) (
        violation "buy_quantity_not_lot_increment" error
          "Buy quantity does not follow configured lot increment." "lot_rules")

abbrev pub is_deferred : Option String → Bool
is_deferred none = false
is_deferred (some policy) = policy == "deferred"

-- what `_validate_quantity` does with a positive quantity
unfoldable pub validate_lot : MarketSide → ℤ → LotRules → Call (List RuleViolation)
validate_lot buy quantity rules = elim (mod_ℤ quantity (lot_increment rules)) [
  | none ↦ raised zero_division_error
  | some rest ↦ returned (lot_violations quantity (lot_size rules) rest)
]
validate_lot sell quantity rules = returned (
    only_if (is_deferred rules.odd_lot_sell_policy) (
      violation "odd_lot_sell_policy_deferred" warning
        "Odd-lot sell behavior is deferred in the active profile." "lot_rules"))

abbrev pub is_sell : MarketSide → Bool
is_sell buy = false
is_sell sell = true

module _ {W : Type 0} ⦃F : Float W⦄ where
  -- FLOAT_TOLERANCE, 1e-8
  abbrev pub float_tolerance : W
  float_tolerance = F.lit 1 8

  unfoldable pub validate_quantity : OrderIntent W → Profile W → Call (List RuleViolation)
  unfolding validate_lot
  validate_quantity intent profile =
      if leb_ℤ intent.quantity (pos 0)
      then returned
          (violation "quantity_non_positive" error "Quantity must be positive." "lot_rules" ∷ [])
      else validate_lot intent.side intent.quantity profile.lot_rules

  unfoldable pub validate_t_plus : OrderIntent W → Profile W → List RuleViolation
  validate_t_plus intent profile =
      only_if
        (profile.t_plus_enabled
          && (profile.sell_same_day_acquired_forbidden
              && (is_sell intent.side && ltb_ℤ (pos 0) intent.acquired_today_quantity)))
        (violation "t_plus_same_day_sell_forbidden" error
          "Intent includes same-day acquired quantity that should not be sellable under configured T+1 rule."
          "t_plus_rules")

  unfoldable pub validate_price_sanity : OrderIntent W → Profile W → List RuleViolation
  validate_price_sanity intent profile =
      only_if (le intent.price zero_float)
        (violation "price_non_positive" error "Price must be positive." "price_sanity")
      ++ only_if (profile.price_limit_rules.enabled && le intent.previous_close zero_float) (
          violation "previous_close_non_positive" error
            "Previous close must be positive when price-limit check is enabled." "price_sanity")

  -- `_resolve_price_limit`: a limit of the risk flag before one of the board
  unfoldable pub resolve_price_limit : OrderIntent W → PriceLimitRules W → Option W
  unfolding lookup
  resolve_price_limit intent rules =
      elim (lookup (risk_value intent.risk_flag) rules.risk_flag_limits) [
        | some (some limit) ↦ some limit
        | _ ↦ or_default none (lookup (board_value intent.board) rules.board_limits)
      ]

  -- the bounds that a limit puts on the price
  abbrev pub above_limit : OrderIntent W → W → Bool
  above_limit intent limit =
      lt (intent.previous_close ⊗ (F.of_int (pos 1) ⊕ limit) ⊕ float_tolerance) intent.price

  abbrev pub below_limit : OrderIntent W → W → Bool
  below_limit intent limit =
      lt intent.price (intent.previous_close ⊗ (F.of_int (pos 1) ⊖ limit) ⊖ float_tolerance)

  unfoldable pub limit_violations : OrderIntent W → Option W → List RuleViolation
  limit_violations intent none =
      violation "price_limit_unknown" warning
        "No configured price-limit percentage for board/risk flag." "price_limit_rules"
      ∷ []
  limit_violations intent (some limit) =
      only_if (above_limit intent limit) (
        violation "price_above_limit" error "Price is above configured upper limit."
          "price_limit_rules")
      ++ only_if (below_limit intent limit) (
          violation "price_below_limit" error "Price is below configured lower limit."
            "price_limit_rules")

  unfoldable pub validate_price_limit : OrderIntent W → Profile W → List RuleViolation
  unfolding limit_violations resolve_price_limit join
  validate_price_limit intent profile =
      let rules = profile.price_limit_rules in
      if not rules.enabled
      then []
      else violation "price_limit_special_cases_deferred" warning
          (String.◌++◌ "Special price-limit cases are deferred: "
            (join ", " rules.special_cases_deferred))
          "price_limit_rules"
        ∷ limit_violations intent (resolve_price_limit intent rules)

  unfoldable pub validate_suspension : OrderIntent W → Profile W → List RuleViolation
  validate_suspension intent profile = only_if (profile.block_if_suspended && intent.is_suspended) (
      violation "symbol_suspended" error "Intent is blocked because symbol is marked suspended."
        "suspension_rules")

  abbrev pub liquidity_violations : OrderIntent W → W → Option W → List RuleViolation
  liquidity_violations intent rate none = []
  liquidity_violations intent rate (some volume) =
      only_if (lt (volume ⊗ rate ⊕ float_tolerance) (F.of_int intent.quantity)) (
        violation "liquidity_participation_exceeded" warning
          "Quantity exceeds configured placeholder max participation rate." "liquidity_rules")

  unfoldable pub validate_liquidity : OrderIntent W → Profile W → List RuleViolation
  validate_liquidity intent profile =
      if not profile.liquidity_enabled
      then []
      else liquidity_violations intent
          (or_default (F.of_int (pos 1)) profile.max_participation_rate) intent.available_volume

  unfoldable pub validate_cost_placeholders : Profile W → List RuleViolation
  validate_cost_placeholders profile =
      only_if profile.fee_manual_review_required (
        violation "fee_rules_incomplete" info
          "Fee and stamp-duty rules are placeholders and require manual review." "fee_rules")
      ++ only_if profile.slippage_manual_review_required (
          violation "slippage_rules_incomplete" info
            "Slippage rules are placeholders and require manual review." "slippage_rules")

  -- what follows the quantity test, which alone can raise
  unfoldable pub later_violations : OrderIntent W → Profile W → List RuleViolation
  unfolding validate_t_plus validate_price_sanity validate_price_limit validate_suspension
      validate_liquidity validate_cost_placeholders
  later_violations intent profile =
      validate_t_plus intent profile
      ++ (validate_price_sanity intent profile
          ++ (validate_price_limit intent profile
              ++ (validate_suspension intent profile
                  ++ (validate_liquidity intent profile ++ validate_cost_placeholders profile))))

  unfoldable pub validate_order_intent : OrderIntent W → Profile W → Call (List RuleViolation)
  unfolding validate_quantity later_violations
  validate_order_intent intent profile = validate_quantity intent profile >>= λ quantity.
      returned (quantity ++ later_violations intent profile)
