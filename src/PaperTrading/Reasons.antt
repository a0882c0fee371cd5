-- ===== src/PaperTrading/Reasons.antt =====
-- What an intent has that src/quantpilot_core/paper_trading/simulator.py has no reason to reject.

use quant_pilot_ai_next.Dict.{Dict, lookup}
use quant_pilot_ai_next.RiskFlags.{unique, unique_from}
use quant_pilot_ai_next.PaperTrading.Intents.{
  is_off_lot, is_buy, is_sell, reasons_for, quantity_reasons, trade_reasons, shares_or_zero,
  bad_price,
}
use quant_pilot_ai_next.Base.{
  ◌≡◌, refl, ap, true, false, [], ◌∷◌, ◌++◌, arith, ◌||◌, none, some, String, List, is_empty,
  Option, only_if,
}
use quant_pilot_ai_next.Text.{is_blank}
use quant_pilot_ai_next.Int.{ℤ, pos, ◌≤ℤ◌}
use quant_pilot_ai_next.Float.{Float, le, zero_float}
use quant_pilot_ai_next.PaperTrading.Contracts.{OrderIntentSide, buy, sell, hold, OrderIntent}

unique-empty : (xs : List String) → is_empty (unique xs) ≡ true → xs ≡ []
unfolding unique unique_from
unique-empty [] h = refl
unique-empty (x ∷ xs) h = absurd (ground arith)

empty-append :
    {A : Type 0} (xs ys : List A)
    → is_empty (xs ++ ys) ≡ true
    → (is_empty xs ≡ true) × (is_empty ys ≡ true)
empty-append [] ys h = (refl, h)
empty-append (x ∷ xs) ys h = absurd (ground arith)

good_quantity :
    (shares : Option ℤ) (lot_size : ℤ)
    → is_empty (quantity_reasons shares lot_size) ≡ true
    → (pos 1 ≤ℤ shares_or_zero shares) × (is_off_lot (shares_or_zero shares) lot_size ≡ false)
unfolding quantity_reasons
good_quantity none lot_size h = absurd (ground arith)
good_quantity (some shares) lot_size h = (ground arith, ground arith)

module _ {W : Type 0} ⦃F : Float W⦄ where
  good_price :
      (price : Option W)
      → bad_price price ≡ false
      → (x : W) × (price ≡ some x) × (le x zero_float ≡ false)
  good_price none h = absurd (ground arith)
  good_price (some x) h = (x, refl, h)

  -- what an intent without reasons has
  pub record IsFillable (side : Option OrderIntentSide) (intent : OrderIntent W) (prices : Dict W)
      (lot_size : ℤ) : Type 0 where
    pub direction : OrderIntentSide
    pub directed : side ≡ some direction
    pub trades : is_buy direction || is_sell direction ≡ true
    pub positive : pos 1 ≤ℤ shares_or_zero intent.target_shares
    pub whole_lot : is_off_lot (shares_or_zero intent.target_shares) lot_size ≡ false
    pub price : W
    pub found : lookup intent.symbol prices ≡ some price
    pub priced : le price zero_float ≡ false

  trade_reasons-IsFillable :
      (side : OrderIntentSide) (intent : OrderIntent W) (prices : Dict W) (positions : Dict ℤ)
      (lot_size : ℤ)
      → is_buy side || is_sell side ≡ true
      → is_empty (unique (trade_reasons side intent prices positions lot_size)) ≡ true
      → IsFillable (some side) intent prices lot_size
  unfolding trade_reasons
  trade_reasons-IsFillable side intent prices positions lot_size trades h =
      let none_at_all =
        ap is_empty (unique-empty (trade_reasons side intent prices positions lot_size) h) in
      let (named, rest) =
        empty-append (only_if (is_blank intent.symbol) "symbol_missing") _ none_at_all in
      let (quantity, rest) = empty-append (quantity_reasons intent.target_shares lot_size) _ rest in
      let (positive, whole_lot) = good_quantity intent.target_shares lot_size quantity in
      let (price, found, priced) = good_price (lookup intent.symbol prices) (ground arith) in
      record {
        direction = side;
        directed = refl;
        trades = trades;
        positive = positive;
        whole_lot = whole_lot;
        price = price;
        found = found;
        priced = priced;
      }

  pub reasons_for-IsFillable :
      (side : Option OrderIntentSide) (intent : OrderIntent W) (prices : Dict W)
      (positions : Dict ℤ) (lot_size : ℤ)
      → is_empty (reasons_for side intent prices positions lot_size) ≡ true
      → IsFillable side intent prices lot_size
  unfolding reasons_for
  reasons_for-IsFillable none intent prices positions lot_size h = absurd (ground arith)
  reasons_for-IsFillable (some hold) intent prices positions lot_size h = absurd (ground arith)
  reasons_for-IsFillable (some buy) intent prices positions lot_size h =
      trade_reasons-IsFillable buy intent prices positions lot_size refl h
  reasons_for-IsFillable (some sell) intent prices positions lot_size h =
      trade_reasons-IsFillable sell intent prices positions lot_size refl h
