-- ===== src/AccountProfile/Limits.antt =====
-- src/quantpilot_core/account_profile_preflight/limits.py
use quant_pilot_ai_next.Base.{String, Option, none, some, List, [], ◌∷◌, map, if◌then◌else◌}
use quant_pilot_ai_next.Int.{ℤ, pos, min_ℤ, max_ℤ}
use quant_pilot_ai_next.Text.{is_blank}
use quant_pilot_ai_next.Text.Strip.{strip}
use quant_pilot_ai_next.Dict.{Dict, insert, get_or, dict_of}
use quant_pilot_ai_next.Float.{Float, ◌⊕◌, ◌⊘◌, le, zero_float, round}
use quant_pilot_ai_next.AccountProfile.Contracts.{AccountPosition, AccountProfile}

-- `max(0, min(position.sellable_quantity, position.quantity))`
abbrev pub normalized_sellable : {W : Type 0} → AccountPosition W → ℤ
normalized_sellable position = max_ℤ (pos 0) (min_ℤ position.sellable_quantity position.quantity)

abbrev pub symbol_of : {W : Type 0} → AccountPosition W → String
symbol_of position = position.symbol

unfoldable pub normalize_sellable_quantities : {W : Type 0} → AccountProfile W → Dict ℤ
unfolding dict_of
normalize_sellable_quantities profile = dict_of symbol_of normalized_sellable profile.positions

-- `_industry_key`
unfoldable pub industry_key : Option String → String
unfolding is_blank strip
industry_key none = "UNKNOWN"
industry_key (some industry) = if is_blank industry then "UNKNOWN" else strip industry

module _ {W : Type 0} ⦃F : Float W⦄ where
  -- `_round_weight`
  abbrev pub round_weight : W → W
  round_weight value = round value 10

  unfoldable pub compute_position_weights : AccountProfile W → Dict W
  unfolding dict_of
  compute_position_weights profile =
      if le profile.cash.total_equity zero_float
      then dict_of symbol_of (λ position. zero_float) profile.positions
      else dict_of symbol_of
          (λ position. round_weight (position.market_value ⊘ profile.cash.total_equity))
          profile.positions

  -- the loop over the positions, from the weights so far
  unfoldable pub industry_values : Dict W → List (AccountPosition W) → Dict W
  unfolding insert get_or industry_key
  industry_values weights [] = weights
  industry_values weights (position ∷ positions) =
      let key = industry_key position.industry in
      industry_values (insert key (get_or zero_float key weights ⊕ position.market_value) weights)
        positions

  unfoldable pub compute_industry_weights : AccountProfile W → Dict W
  unfolding dict_of industry_key industry_values
  compute_industry_weights profile =
      if le profile.cash.total_equity zero_float
      then dict_of (λ position. industry_key position.industry) (λ position. zero_float)
          profile.positions
      else map
          (λ (industry, market_value).
            (industry, round_weight (market_value ⊘ profile.cash.total_equity)))
          (industry_values [] profile.positions)
