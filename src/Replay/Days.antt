-- ===== src/Replay/Days.antt =====
-- The helpers of src/quantpilot_core/multi_day_paper_replay/replay.py: the profile of a day, what a day
-- carries over, and the release of pending purchases.
use Prim.Native.String
use quant_pilot_ai_next.Base.{
  ℕ, String, Bool, true, false, none, some, List, [], ◌∷◌, map, ltb, ◌==◌ as eq_ℕ, if◌then◌else◌,
}
use quant_pilot_ai_next.Int.{ℤ, pos, ◌-ℤ◌, max_ℤ}
use quant_pilot_ai_next.Text.{◌==◌, code_points}
use quant_pilot_ai_next.Dict.{Dict, lookup, insert, get_or, dict_of}
use quant_pilot_ai_next.Float.{Float, ◌⊕◌, zero_float, round, max}
use quant_pilot_ai_next.RiskFlags.{RiskFlag}
use quant_pilot_ai_next.AccountProfile.Contracts.{AccountProfile, AccountPosition}
use quant_pilot_ai_next.AccountProfile.Limits.{symbol_of}
use quant_pilot_ai_next.ActionBridge.Contracts.{buy_side, sell_side}
use quant_pilot_ai_next.DryRun.Contracts.{PaperLedgerDryRunInstructionResult}
use quant_pilot_ai_next.DryRun.Run.{is_simulated, add_position}

-- Python's order of texts, by code points
text_leb : List ℕ → List ℕ → Bool
text_leb [] ds = true
text_leb (c ∷ cs) [] = false
text_leb (c ∷ cs) (d ∷ ds) = if ltb c d then true else if eq_ℕ c d then text_leb cs ds else false

unfoldable pub insert_sorted : String → List String → List String
unfolding text_leb
insert_sorted s [] = s ∷ []
insert_sorted s (t ∷ ts) =
    let rest = insert_sorted s ts in
    if text_leb (code_points s) (code_points t) then s ∷ t ∷ ts else t ∷ rest

-- `sorted(texts)`
unfoldable pub sorted : List String → List String
unfolding insert_sorted
sorted [] = []
sorted (s ∷ ss) = insert_sorted s (sorted ss)

-- the keys of a dictionary
abbrev pub keys : Dict ℤ → List String
keys [] = []
keys ((k, v) ∷ d) = k ∷ keys d

-- what a replay carries from day to day
pub record Carried (W : Type 0) : Type 0 where
  pub cash : W
  pub positions : Dict ℤ
  pub sellable_by_symbol : Dict ℤ
  pub pending_sellable_next_day : Dict ℤ

-- the loop of `_release_pending_buys`
unfoldable pub release_pending_buys : Dict ℤ → Dict ℤ → Dict ℤ
release_pending_buys sellable [] = sellable
release_pending_buys sellable ((symbol, quantity) ∷ pending) =
    release_pending_buys (add_position symbol quantity sellable) pending

-- `_release_pending_buys`, which clears the pending purchases too
abbrev pub released : {W : Type 0} → Carried W → Carried W
released c = record c {
  sellable_by_symbol = release_pending_buys c.sellable_by_symbol c.pending_sellable_next_day;
  pending_sellable_next_day = [];
}

module _ {W : Type 0} ⦃F : Float W⦄ where
  -- the position of a day: the account's position of the symbol with new quantities, or a new one
  unfoldable pub daily_position :
      Dict (AccountPosition W) → Dict ℤ → Dict ℤ → String → AccountPosition W
  unfolding lookup get_or
  daily_position existing positions sellable symbol = elim (lookup symbol existing) [
    | none ↦ record {
      symbol = symbol;
      quantity = get_or (pos 0) symbol positions;
      sellable_quantity = get_or (pos 0) symbol sellable;
      avg_cost = zero_float;
      market_value = zero_float;
      industry = none;
    }
    | some position ↦ record position {
      quantity = get_or (pos 0) symbol positions;
      sellable_quantity = get_or (pos 0) symbol sellable;
    }
  ]

  -- `_build_daily_account_profile`
  unfoldable pub build_daily_account_profile : AccountProfile W → Carried W → AccountProfile W
  build_daily_account_profile profile c =
      let existing = dict_of symbol_of (λ position. position) profile.positions in
      record profile {
        cash = record {
          currency = profile.cash.currency;
          available_cash = c.cash;
          frozen_cash = profile.cash.frozen_cash;
          total_equity = max profile.cash.total_equity c.cash;
        };
        positions =
            map (daily_position existing c.positions c.sellable_by_symbol)
              (sorted (keys c.positions));
      }

  -- what one simulated result changes
  unfoldable pub carry_one : Carried W → PaperLedgerDryRunInstructionResult W → Carried W
  carry_one c r = record c {
    cash = round (c.cash ⊕ r.estimated_cash_delta) 4;
    positions = add_position r.symbol r.estimated_position_delta c.positions;
    sellable_by_symbol =
        if r.side == buy_side
        then c.sellable_by_symbol
        else if r.side == sell_side
        then insert r.symbol
            (max_ℤ (pos 0) (get_or (pos 0) r.symbol c.sellable_by_symbol -ℤ r.quantity))
            c.sellable_by_symbol
        else c.sellable_by_symbol;
    pending_sellable_next_day =
        if r.side == buy_side
        then add_position r.symbol r.quantity c.pending_sellable_next_day
        else c.pending_sellable_next_day;
  }

  -- `_carry_successful_results`
  unfoldable pub carry_successful_results :
      Carried W → List (PaperLedgerDryRunInstructionResult W) → Carried W
  carry_successful_results c [] = c
  carry_successful_results c (r ∷ rs) =
      carry_successful_results (if is_simulated r then carry_one c r else c) rs

-- `_map_dry_run_flags`
unfoldable pub map_dry_run_flags : String → List RiskFlag → List RiskFlag
map_dry_run_flags trading_date flags =
    map
      (λ (flag : RiskFlag). record {
        code = String.◌++◌ trading_date (String.◌++◌ ":" flag.code);
        severity = flag.severity;
        message = flag.message;
      })
      flags
