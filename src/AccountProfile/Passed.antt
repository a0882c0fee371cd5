-- ===== src/AccountProfile/Passed.antt =====
-- A profile that passes `run_account_profile_preflight` is sound, and the sellable quantities that it
-- reports (src/quantpilot_core/account_profile_preflight/limits.py) lie within the positions.
use quant_pilot_ai_next.Base.{String, ◌≡◌, Bool, true, false, [], arith}
use quant_pilot_ai_next.Int.{ℤ, pos, ◌≤ℤ◌, max_ℤ}
use quant_pilot_ai_next.Dict.{get_or, dict_of, dict_of-related}
use quant_pilot_ai_next.Float.{Float}
use quant_pilot_ai_next.RiskFlags.{has_critical, has_critical-append}
use quant_pilot_ai_next.AccountProfile.Contracts.{AccountPosition, AccountProfile}
use quant_pilot_ai_next.AccountProfile.Limits.{
  symbol_of, normalized_sellable, normalize_sellable_quantities,
}
use quant_pilot_ai_next.AccountProfile.Preflight.{
  validate_identity, validate_cash, validate_positions, validate_fees,
  validate_capabilities_and_permissions, validate_risk_limits, validate_account_profile,
  run_account_profile_preflight,
}
use quant_pilot_ai_next.AccountProfile.Laws.{
  IsSound, identity_sound, cash_sound, fees_sound, limits_sound, permissions_sound,
  validate_positions_from_sound,
}

-- the sellable quantity of a symbol lies between zero and the quantity
abbrev IsSellable : ℤ → ℤ → Type 0
IsSellable sellable quantity = (pos 0 ≤ℤ sellable) × (sellable ≤ℤ max_ℤ (pos 0) quantity)

module _ {W : Type 0} where
  normalized-IsSellable :
      (position : AccountPosition W) → IsSellable (normalized_sellable position) position.quantity
  normalized-IsSellable position = ground arith

  -- For every symbol, listed or not, the normalized sellable quantity is not negative, and at most the
  -- quantity of the symbol's last position, or zero where that is negative or there is none.
  pub normalize_sellable_quantities_bounds :
      (profile : AccountProfile W) (symbol : String)
      → let sellable = get_or (pos 0) symbol (normalize_sellable_quantities profile) in
        let quantity = get_or (pos 0) symbol (
          dict_of symbol_of
            (λ (position : AccountPosition W). position.quantity)
            profile.positions) in
        (pos 0 ≤ℤ sellable) × (sellable ≤ℤ max_ℤ (pos 0) quantity)
  unfolding normalize_sellable_quantities
  normalize_sellable_quantities_bounds profile symbol =
      dict_of-related IsSellable symbol_of normalized_sellable
        (λ (position : AccountPosition W). position.quantity) (pos 0) (pos 0) normalized-IsSellable
        (ground arith) profile.positions symbol

module _ {W : Type 0} ⦃F : Float W⦄ where
  validated-IsSound :
      (profile : AccountProfile W) (allow_mismatch allow_query : Bool)
      → has_critical (validate_account_profile profile allow_mismatch allow_query) ≡ false
      → IsSound profile allow_mismatch allow_query
  unfolding validate_account_profile validate_positions
  validated-IsSound profile allow_mismatch allow_query h =
      let (identity, h1) = has_critical-append (validate_identity profile) _ h in
      let (cash, h2) = has_critical-append (validate_cash profile.cash allow_mismatch) _ h1 in
      let (positions, h3) = has_critical-append (validate_positions profile.positions) _ h2 in
      let (fees, h4) = has_critical-append (validate_fees profile.broker_fee) _ h3 in
      let (permissions, h5) =
        has_critical-append (validate_capabilities_and_permissions profile allow_query) _ h4 in
      let (limits, h6) = has_critical-append (validate_risk_limits profile.risk_limits) _ h5 in
      let (account, broker, market, known) = identity_sound profile identity in
      let (available, frozen, equity, funded) = cash_sound profile.cash allow_mismatch cash in
      let (sound, unseen, distinct) =
        validate_positions_from_sound 0 [] profile.positions positions in
      let (active, query) = permissions_sound profile allow_query permissions known in
      record {
        identified = (account, broker, market);
        known_status = known;
        cash = (available, frozen, equity);
        funded = funded;
        positions = sound;
        distinct = distinct;
        fees = fees_sound profile.broker_fee fees;
        trades_when_active = active;
        query_only = query;
        limits = limits_sound profile.risk_limits limits;
      }

  -- A profile that passes is sound: it names an account, a broker and a market and has a known status;
  -- its cash is not negative, its equity positive and, unless a mismatch is allowed, enough for the
  -- cash; its positions have distinct symbols and sellable shares within the position; its fees and
  -- limits lie in their ranges; it may trade only if it is active, and not together with the
  -- permission to query alone, unless that is allowed.
  pub run_account_profile_preflight-IsSound :
      (profile : AccountProfile W) (allow_mismatch allow_query : Bool)
      → (run_account_profile_preflight profile allow_mismatch allow_query).ok ≡ true
      → IsSound profile allow_mismatch allow_query
  unfolding run_account_profile_preflight
  run_account_profile_preflight-IsSound profile allow_mismatch allow_query h =
      validated-IsSound profile allow_mismatch allow_query (ground arith)
