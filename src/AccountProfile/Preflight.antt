-- ===== src/AccountProfile/Preflight.antt =====
-- src/quantpilot_core/account_profile_preflight/preflight.py. The names of positions in a message and
-- the message itself follow the source; a code that holds an index is written with `str`.
use Prim.Native.String
use quant_pilot_ai_next.Base.{
  ℕ, suc, String, Bool, false, not, ◌&&◌, ◌||◌, Option, none, some, List, [], ◌∷◌, ◌++◌, map,
  if◌then◌else◌, only_if, any, is_empty,
}
use quant_pilot_ai_next.Int.{pos, ltb_ℤ}
use quant_pilot_ai_next.Text.{◌==◌, is_blank, join, contains}
use quant_pilot_ai_next.Text.Strip.{strip, strips_lower_in, decimal}
use quant_pilot_ai_next.Dict.{Dict}
use quant_pilot_ai_next.Float.{Float, ◌⊕◌, ◌⊘◌, lt, le, zero_float, sum_from}
use quant_pilot_ai_next.RiskFlags.{RiskFlag, critical, medium, has_critical}
use quant_pilot_ai_next.AccountProfile.Contracts.{
  active, read_only, suspended, kill_switched, account_status_value, permission_buy,
  permission_sell, permission_query_only, a_share_cash_equity, AccountPosition, AccountProfile,
  AccountCashProfile, BrokerFeeProfile, AccountRiskLimits, AccountProfilePreflightResult,
}
use quant_pilot_ai_next.AccountProfile.Limits.{
  normalize_sellable_quantities, compute_position_weights, compute_industry_weights,
}

-- `_has_evidence`
abbrev pub has_evidence : List String → Bool
has_evidence refs = any (λ ref. not (is_blank ref)) refs

abbrev pub account_statuses : List String
account_statuses = map account_status_value (active ∷ read_only ∷ suspended ∷ kill_switched ∷ [])

-- `_is_a_share_market`; the names with `-` are those that `replace("-", "_")` makes one of the four
unfoldable pub is_a_share_market : String → Bool
unfolding strips_lower_in
is_a_share_market market = strips_lower_in market (
    "a_share" ∷ "a-share" ∷ "ashare" ∷ "cn_a_share" ∷ "cn-a_share" ∷ "cn_a-share" ∷ "cn-a-share"
    ∷ "china_a_share" ∷ "china-a_share" ∷ "china_a-share" ∷ "china-a-share" ∷ [])

-- `f"position[{index}]:{what}"`
abbrev position_code : ℕ → String → String
position_code index what =
    String.◌++◌ "position[" (String.◌++◌ (decimal index) (String.◌++◌ "]:" what))

-- the flag on the symbol of a position, which is stripped
unfoldable pub symbol_flags : ℕ → List String → String → List RiskFlag
unfolding decimal
symbol_flags index seen symbol =
    if symbol == ""
    then critical (position_code index "symbol_missing") "Position symbol must be non-empty." ∷ []
    else only_if (contains symbol seen) (
        critical "duplicate_position_symbol"
          (String.◌++◌ "Duplicate position: " (String.◌++◌ symbol ".")))

-- the symbols seen after a position
abbrev pub seen_after : List String → String → List String
seen_after seen symbol = if symbol == "" || contains symbol seen then seen else symbol ∷ seen

abbrev pub has_trade_permission : List String → Bool
has_trade_permission permissions =
    contains permission_buy permissions || contains permission_sell permissions

module _ {W : Type 0} ⦃F : Float W⦄ where
  unfoldable pub validate_identity : AccountProfile W → List RiskFlag
  unfolding is_blank
  validate_identity profile =
      only_if (is_blank profile.account_id)
        (critical "account_id_missing" "Account ID must be non-empty.")
      ++ (only_if (not (has_evidence profile.evidence_refs))
            (medium "evidence_refs_missing" "Account profile evidence is missing.")
          ++ (only_if (is_blank profile.broker_capability.broker_name)
                (critical "broker_name_missing" "Broker name must be non-empty.")
              ++ (only_if (is_blank profile.broker_capability.market)
                    (critical "market_missing" "Broker market must be non-empty.")
                  ++ only_if (not (contains profile.status account_statuses))
                      (critical "account_status_invalid" "Account status is unsupported."))))

  unfoldable pub validate_cash : AccountCashProfile W → Bool → List RiskFlag
  unfolding is_blank
  validate_cash cash allow_cash_equity_mismatch =
      only_if (is_blank cash.currency)
        (critical "currency_missing" "Cash currency must be non-empty.")
      ++ (only_if (lt cash.available_cash zero_float)
            (critical "available_cash_negative" "Available cash must be non-negative.")
          ++ (only_if (lt cash.frozen_cash zero_float)
                (critical "frozen_cash_negative" "Frozen cash must be non-negative.")
              ++ (only_if (le cash.total_equity zero_float)
                    (critical "total_equity_not_positive" "Total equity must be positive.")
                  ++ only_if
                      (lt cash.total_equity (cash.available_cash ⊕ cash.frozen_cash)
                        && not allow_cash_equity_mismatch)
                      (critical "cash_equity_mismatch"
                        "Available cash plus frozen cash must not exceed total equity."))))

  -- the flags on the numbers of a position
  unfoldable pub position_flags : ℕ → AccountPosition W → List RiskFlag
  unfolding decimal
  position_flags index position =
      only_if (ltb_ℤ position.quantity (pos 0))
        (critical (position_code index "quantity_negative") "Quantity must be non-negative.")
      ++ (only_if (ltb_ℤ position.sellable_quantity (pos 0)) (
            critical (position_code index "sellable_quantity_negative")
              "Sellable quantity must be non-negative.")
          ++ (only_if (ltb_ℤ position.quantity position.sellable_quantity) (
                critical (position_code index "sellable_exceeds_quantity")
                  "Sellable quantity must not exceed quantity.")
              ++ (only_if (lt position.avg_cost zero_float) (
                    critical (position_code index "avg_cost_negative")
                      "Average cost must be non-negative.")
                  ++ only_if (lt position.market_value zero_float) (
                      critical (position_code index "market_value_negative")
                        "Market value must be non-negative."))))

  -- the loop of `_validate_positions`, from an index and the symbols seen
  unfoldable pub validate_positions_from :
      ℕ → List String → List (AccountPosition W) → List RiskFlag
  unfolding symbol_flags position_flags strip
  validate_positions_from index seen [] = []
  validate_positions_from index seen (position ∷ positions) =
      symbol_flags index seen (strip position.symbol)
      ++ (position_flags index position
          ++ validate_positions_from (suc index) (seen_after seen (strip position.symbol))
              positions)

  unfoldable pub validate_positions : List (AccountPosition W) → List RiskFlag
  unfolding validate_positions_from
  validate_positions positions = validate_positions_from 0 [] positions

  -- `low <= x <= high`
  abbrev pub within : W → W → W → Bool
  within low high x = le low x && le x high

  unfoldable pub validate_fees : BrokerFeeProfile W → List RiskFlag
  validate_fees fee =
      only_if (not (within zero_float (F.lit 1 2) fee.commission_rate))
        (critical "commission_rate_invalid" "Commission rate must be in [0, 0.01].")
      ++ (only_if (lt fee.min_commission zero_float)
            (critical "min_commission_negative" "Minimum commission must be non-negative.")
          ++ (only_if (not (within zero_float (F.lit 1 2) fee.stamp_tax_rate))
                (critical "stamp_tax_rate_invalid" "Stamp tax rate must be in [0, 0.01].")
              ++ (only_if (not (within zero_float (F.lit 1 2) fee.transfer_fee_rate))
                    (critical "transfer_fee_rate_invalid" "Transfer fee rate must be in [0, 0.01].")
                  ++ only_if (not (within zero_float (F.of_int (pos 100)) fee.slippage_bps))
                      (critical "slippage_bps_invalid" "Slippage bps must be in [0, 100]."))))

  unfoldable pub validate_capabilities_and_permissions : AccountProfile W → Bool → List RiskFlag
  unfolding is_a_share_market
  validate_capabilities_and_permissions profile allow_query_only_with_trade =
      let broker = profile.broker_capability in
      let trades = has_trade_permission broker.permissions in
      only_if (is_empty broker.capabilities)
        (critical "capabilities_empty" "Broker capabilities must not be empty.")
      ++ (only_if (is_empty broker.permissions)
            (critical "permissions_empty" "Broker permissions must not be empty.")
          ++ (only_if
                (contains permission_query_only broker.permissions
                  && (trades && not allow_query_only_with_trade))
                (critical "query_only_combined_with_trade"
                  "QUERY_ONLY cannot be combined with BUY or SELL by default.")
              ++ (only_if
                    (contains profile.status
                        (map account_status_value (read_only ∷ suspended ∷ kill_switched ∷ []))
                      && trades)
                    (critical (String.◌++◌ profile.status "_trade_permission_active")
                      "Non-active account status must not have BUY or SELL permission.")
                  ++ only_if
                      (is_a_share_market broker.market
                        && not (contains a_share_cash_equity broker.capabilities))
                      (critical "a_share_cash_equity_capability_missing"
                        "A-share market profile requires A_SHARE_CASH_EQUITY capability."))))

  -- `0 < weight <= 1`
  abbrev pub is_weight : W → Bool
  is_weight weight = lt zero_float weight && le weight (F.of_int (pos 1))

  -- `value is not None and value <= 0`
  abbrev pub not_positive : Option W → Bool
  not_positive none = false
  not_positive (some value) = le value zero_float

  unfoldable pub validate_risk_limits : AccountRiskLimits W → List RiskFlag
  validate_risk_limits limits =
      only_if (not (is_weight limits.max_single_symbol_weight))
        (critical "max_single_symbol_weight_invalid" "Max single-symbol weight must be in (0, 1].")
      ++ (only_if (not (is_weight limits.max_industry_weight))
            (critical "max_industry_weight_invalid" "Max industry weight must be in (0, 1].")
          ++ (only_if (not (is_weight limits.max_total_position_weight)) (
                critical "max_total_position_weight_invalid"
                  "Max total position weight must be in (0, 1].")
              ++ (only_if (not_positive limits.max_order_value)
                    (critical "max_order_value_invalid" "Max order value must be positive.")
                  ++ only_if (not_positive limits.max_daily_turnover) (
                      critical "max_daily_turnover_invalid"
                        "Max daily turnover must be positive."))))

  -- the flags on the weights of a dictionary that exceed a limit
  unfoldable pub weight_flags : W → String → String → Dict W → List RiskFlag
  weight_flags limit code message [] = []
  weight_flags limit code message ((name, weight) ∷ weights) =
      only_if (lt limit weight) (medium code (String.◌++◌ name message))
      ++ weight_flags limit code message weights

  unfoldable pub validate_concentration : AccountProfile W → List RiskFlag
  unfolding weight_flags compute_position_weights compute_industry_weights sum_from
  validate_concentration profile =
      let limits = profile.risk_limits in
      weight_flags limits.max_single_symbol_weight "max_single_symbol_weight_breached"
        " weight exceeds max_single_symbol_weight; treat as sizing guidance."
        (compute_position_weights profile)
      ++ (weight_flags limits.max_industry_weight "max_industry_weight_breached"
            " weight exceeds max_industry_weight; treat as sizing guidance."
            (compute_industry_weights profile)
          ++ only_if
              (lt limits.max_total_position_weight (
                sum_from zero_float (map (λ position. position.market_value) profile.positions)
                ⊘ profile.cash.total_equity))
              (medium "max_total_position_weight_breached"
                "Total position weight exceeds max_total_position_weight; treat as sizing guidance."))

  unfoldable pub validate_account_profile : AccountProfile W → Bool → Bool → List RiskFlag
  unfolding validate_identity validate_cash validate_positions validate_fees
      validate_capabilities_and_permissions validate_risk_limits validate_concentration
  validate_account_profile profile allow_cash_equity_mismatch allow_query_only_with_trade =
      validate_identity profile
      ++ (validate_cash profile.cash allow_cash_equity_mismatch
          ++ (validate_positions profile.positions
              ++ (validate_fees profile.broker_fee
                  ++ (validate_capabilities_and_permissions profile allow_query_only_with_trade
                      ++ (validate_risk_limits profile.risk_limits
                          ++ (if lt zero_float profile.cash.total_equity
                              then validate_concentration profile
                              else []))))))

  -- `run_account_profile_preflight`, from the flags of the validation
  abbrev preflight_result : AccountProfile W → List RiskFlag → AccountProfilePreflightResult W
  preflight_result profile flags =
      let ok = not (has_critical flags) in
      record {
        ok = ok;
        reason = if ok then "ok" else join ";" (map (λ (flag : RiskFlag). flag.code) flags);
        account_id = profile.account_id;
        risk_flags = flags;
        normalized_sellable_by_symbol = normalize_sellable_quantities profile;
        normalized_position_weight_by_symbol = compute_position_weights profile;
        normalized_industry_weight = compute_industry_weights profile;
      }

  unfoldable pub run_account_profile_preflight :
      AccountProfile W → Bool → Bool → AccountProfilePreflightResult W
  unfolding validate_account_profile join normalize_sellable_quantities compute_position_weights
      compute_industry_weights
  run_account_profile_preflight profile allow_cash_equity_mismatch allow_query_only_with_trade =
      preflight_result profile
        (validate_account_profile profile allow_cash_equity_mismatch allow_query_only_with_trade)
