-- ===== src/AccountProfile/Laws.antt =====
-- What it means that the preflight of src/quantpilot_core/account_profile_preflight/preflight.py
-- passes a profile.
use quant_pilot_ai_next.Base.{
  ℕ, suc, String, ◌≡◌, Bool, true, false, List, [], ◌∷◌, arith, All, All-imp,
}
use quant_pilot_ai_next.Int.{pos, ◌≤ℤ◌}
use quant_pilot_ai_next.Text.{◌==◌, is_blank, contains, Distinct}
use quant_pilot_ai_next.Text.Strip.{strip}
use quant_pilot_ai_next.Float.{Float, ◌⊕◌, lt, le, zero_float}
use quant_pilot_ai_next.RiskFlags.{has_critical, has_critical-append}
use quant_pilot_ai_next.AccountProfile.Contracts.{
  permission_query_only, AccountPosition, AccountProfile, AccountCashProfile, BrokerFeeProfile,
  AccountRiskLimits,
}
use quant_pilot_ai_next.AccountProfile.Preflight.{
  account_statuses, symbol_flags, seen_after, position_flags, validate_identity, validate_cash,
  validate_positions_from, within, validate_fees, has_trade_permission, is_weight, not_positive,
  validate_capabilities_and_permissions, validate_risk_limits,
}

abbrev pub stripped_symbols : {W : Type 0} → List (AccountPosition W) → List String
stripped_symbols [] = []
stripped_symbols (position ∷ positions) = strip position.symbol ∷ stripped_symbols positions

seen-after :
    (seen : List String) (symbol other : String)
    → symbol == "" ≡ false
    → contains symbol seen ≡ false
    → contains other (seen_after seen symbol) ≡ false
    → (symbol == other ≡ false) × (contains other seen ≡ false)
seen-after seen symbol other named fresh h = ground arith

symbol-fresh :
    (index : ℕ) (seen : List String) (symbol : String)
    → has_critical (symbol_flags index seen symbol) ≡ false
    → (symbol == "" ≡ false) × (contains symbol seen ≡ false)
unfolding symbol_flags
symbol-fresh index seen symbol h = ground arith

module _ {W : Type 0} ⦃F : Float W⦄ where
  pub record IsSoundPosition (position : AccountPosition W) : Type 0 where
    pub named : strip position.symbol == "" ≡ false
    pub sellable :
        (pos 0 ≤ℤ position.sellable_quantity) × (position.sellable_quantity ≤ℤ position.quantity)
    pub valued :
        (lt position.avg_cost zero_float ≡ false) × (lt position.market_value zero_float ≡ false)

  -- What a profile that passes has: an identity and a known status; cash that is not negative within a
  -- positive equity; sound positions of distinct symbols; fees and limits in their ranges; and no
  -- permission to trade unless the account is active.
  pub record IsSound (profile : AccountProfile W) (allow_mismatch allow_query : Bool) : Type 0 where
    pub identified :
        (is_blank profile.account_id ≡ false)
        × (is_blank profile.broker_capability.broker_name ≡ false)
        × (is_blank profile.broker_capability.market ≡ false)
    pub known_status : contains profile.status account_statuses ≡ true
    pub cash :
        (lt profile.cash.available_cash zero_float ≡ false)
        × (lt profile.cash.frozen_cash zero_float ≡ false)
        × (le profile.cash.total_equity zero_float ≡ false)
    pub funded :
        allow_mismatch ≡ false
        → lt profile.cash.total_equity (profile.cash.available_cash ⊕ profile.cash.frozen_cash)
          ≡ false
    pub positions : All IsSoundPosition profile.positions
    pub distinct : Distinct (stripped_symbols profile.positions)
    pub fees :
        (within zero_float (F.lit 1 2) profile.broker_fee.commission_rate ≡ true)
        × (lt profile.broker_fee.min_commission zero_float ≡ false)
        × (within zero_float (F.lit 1 2) profile.broker_fee.stamp_tax_rate ≡ true)
        × (within zero_float (F.lit 1 2) profile.broker_fee.transfer_fee_rate ≡ true)
        × (within zero_float (F.of_int (pos 100)) profile.broker_fee.slippage_bps ≡ true)
    pub trades_when_active :
        has_trade_permission profile.broker_capability.permissions ≡ true
        → "active" == profile.status ≡ true
    pub query_only :
        allow_query ≡ false
        → contains permission_query_only profile.broker_capability.permissions ≡ true
        → has_trade_permission profile.broker_capability.permissions ≡ false
    pub limits :
        (is_weight profile.risk_limits.max_single_symbol_weight ≡ true)
        × (is_weight profile.risk_limits.max_industry_weight ≡ true)
        × (is_weight profile.risk_limits.max_total_position_weight ≡ true)
        × (not_positive profile.risk_limits.max_order_value ≡ false)
        × (not_positive profile.risk_limits.max_daily_turnover ≡ false)

  pub identity_sound :
      (profile : AccountProfile W)
      → has_critical (validate_identity profile) ≡ false
      → (is_blank profile.account_id ≡ false)
        × (is_blank profile.broker_capability.broker_name ≡ false)
        × (is_blank profile.broker_capability.market ≡ false)
        × (contains profile.status account_statuses ≡ true)
  unfolding validate_identity
  identity_sound profile h = ground arith

  pub cash_sound :
      (cash : AccountCashProfile W) (allow : Bool)
      → has_critical (validate_cash cash allow) ≡ false
      → (lt cash.available_cash zero_float ≡ false)
        × (lt cash.frozen_cash zero_float ≡ false)
        × (le cash.total_equity zero_float ≡ false)
        × (allow ≡ false → lt cash.total_equity (cash.available_cash ⊕ cash.frozen_cash) ≡ false)
  unfolding validate_cash
  cash_sound cash allow h = ground arith

  numbers_sound :
      (index : ℕ) (position : AccountPosition W)
      → has_critical (position_flags index position) ≡ false
      → (pos 0 ≤ℤ position.sellable_quantity)
        × (position.sellable_quantity ≤ℤ position.quantity)
        × (lt position.avg_cost zero_float ≡ false)
        × (lt position.market_value zero_float ≡ false)
  unfolding position_flags
  numbers_sound index position h = ground arith

  pub fees_sound :
      (fee : BrokerFeeProfile W)
      → has_critical (validate_fees fee) ≡ false
      → (within zero_float (F.lit 1 2) fee.commission_rate ≡ true)
        × (lt fee.min_commission zero_float ≡ false)
        × (within zero_float (F.lit 1 2) fee.stamp_tax_rate ≡ true)
        × (within zero_float (F.lit 1 2) fee.transfer_fee_rate ≡ true)
        × (within zero_float (F.of_int (pos 100)) fee.slippage_bps ≡ true)
  unfolding validate_fees
  fees_sound fee h = ground arith

  pub limits_sound :
      (limits : AccountRiskLimits W)
      → has_critical (validate_risk_limits limits) ≡ false
      → (is_weight limits.max_single_symbol_weight ≡ true)
        × (is_weight limits.max_industry_weight ≡ true)
        × (is_weight limits.max_total_position_weight ≡ true)
        × (not_positive limits.max_order_value ≡ false)
        × (not_positive limits.max_daily_turnover ≡ false)
  unfolding validate_risk_limits
  limits_sound limits h = ground arith

  pub permissions_sound :
      (profile : AccountProfile W) (allow : Bool)
      → has_critical (validate_capabilities_and_permissions profile allow) ≡ false
      → contains profile.status account_statuses ≡ true
      → (has_trade_permission profile.broker_capability.permissions ≡ true
          → "active" == profile.status ≡ true)
        × (allow ≡ false
            → contains permission_query_only profile.broker_capability.permissions ≡ true
            → has_trade_permission profile.broker_capability.permissions ≡ false)
  unfolding validate_capabilities_and_permissions
  permissions_sound profile allow h k = (λ trades. ground arith, λ e f. ground arith)

  pub validate_positions_from_sound :
      (index : ℕ) (seen : List String) (positions : List (AccountPosition W))
      → has_critical (validate_positions_from index seen positions) ≡ false
      → All IsSoundPosition positions
        × All (λ symbol. contains symbol seen ≡ false) (stripped_symbols positions)
        × Distinct (stripped_symbols positions)
  unfolding validate_positions_from
  validate_positions_from_sound index seen [] h = (tt, tt, tt)
  validate_positions_from_sound index seen (position ∷ positions) h =
      let symbol = strip position.symbol in
      let (flags_free, after_flags) = has_critical-append (symbol_flags index seen symbol) _ h in
      let (numbers_free, rest_free) =
        has_critical-append (position_flags index position) _ after_flags in
      let (named, fresh) = symbol-fresh index seen symbol flags_free in
      let (low, high, cost, value) = numbers_sound index position numbers_free in
      let (sound, unseen, distinct) =
        validate_positions_from_sound (suc index) (seen_after seen symbol) positions rest_free in
      (
        (record { named = named; sellable = (low, high); valued = (cost, value) }, sound),
        (fresh, All-imp _ _ (λ other e. (seen-after seen symbol other named fresh e).1) _ unseen),
        (
          All-imp _ _ (λ other e. (seen-after seen symbol other named fresh e).0) _ unseen,
          distinct,
        ),
      )
