-- ===== src/ModelRouter/Prices.antt =====
-- What a model call costs (src/quantpilot_core/deepseek_multi_agent/runtime_router.py).
use quant_pilot_ai_next.Base.{
  String, Bool, Option, none, some, [], ◌∷◌, ◌&&◌, not, if◌then◌else◌, Call, returned, raised,
  key_error, overflow_error, raise_if, ◌>>◌,
}
use quant_pilot_ai_next.Int.{pos, ◌-ℤ◌, min_ℤ}
use quant_pilot_ai_next.Dict.{Dict, lookup}
use quant_pilot_ai_next.Float.{Float, ◌⊕◌, ◌⊗◌, ◌⊘◌, round}
use quant_pilot_ai_next.ModelRouter.Contracts.{
  deepseek_v4_flash, deepseek_v4_pro, TokenEstimate, ModelPrice,
}

-- the three counts that are multiplied by a price
unfoldable pub counts_fit : (W : Type 0) ⦃F : Float W⦄ → TokenEstimate → Bool
counts_fit W ⦃F⦄ tokens =
    let hit = min_ℤ tokens.cache_hit_input_tokens tokens.input_tokens in
    F.fits hit && (F.fits (tokens.input_tokens -ℤ hit) && F.fits tokens.output_tokens)

module _ {W : Type 0} ⦃F : Float W⦄ where
  -- `DEFAULT_MODEL_PRICES`
  unfoldable pub default_model_prices : Dict (ModelPrice W)
  default_model_prices =
      (
        deepseek_v4_flash,
        record {
          cache_hit_input_per_1m = F.lit 28 4;
          cache_miss_input_per_1m = F.lit 14 2;
          output_per_1m = F.lit 28 2;
          peak_multiplier = F.lit 20 1;
        },
      )
      ∷ (
        deepseek_v4_pro,
        record {
          cache_hit_input_per_1m = F.lit 3625 6;
          cache_miss_input_per_1m = F.lit 435 3;
          output_per_1m = F.lit 87 2;
          peak_multiplier = F.lit 20 1;
        },
      )
      ∷ []

  unfoldable pub call_cost : ModelPrice W → TokenEstimate → Bool → W
  call_cost price tokens is_peak =
      let hit = min_ℤ tokens.cache_hit_input_tokens tokens.input_tokens in
      let miss = tokens.input_tokens -ℤ hit in
      let raw =
        (F.of_int hit ⊗ price.cache_hit_input_per_1m
          ⊕ F.of_int miss ⊗ price.cache_miss_input_per_1m
          ⊕ F.of_int tokens.output_tokens ⊗ price.output_per_1m)
        ⊘ F.of_int (pos 1_000_000) in
      round (raw ⊗ (if is_peak then price.peak_multiplier else F.lit 10 1)) 10

  -- `model_prices or DEFAULT_MODEL_PRICES`: an empty dictionary counts as none.
  prices_or_default : Option (Dict (ModelPrice W)) → Dict (ModelPrice W)
  unfolding default_model_prices
  prices_or_default (some (entry ∷ prices)) = entry ∷ prices
  prices_or_default _ = default_model_prices

  unfoldable pub estimate_model_call_cost_usd :
      String → TokenEstimate → Bool → Option (Dict (ModelPrice W)) → Call W
  unfolding prices_or_default lookup call_cost counts_fit
  estimate_model_call_cost_usd model tokens is_peak model_prices =
      elim (lookup model (prices_or_default model_prices)) [
        | none ↦ raised (key_error model)
        | some price ↦
            raise_if (not (counts_fit W tokens)) overflow_error
            >> returned (call_cost price tokens is_peak)
      ]
