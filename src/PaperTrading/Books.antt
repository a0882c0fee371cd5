-- ===== src/PaperTrading/Books.antt =====
-- The loop of `_apply_trades` in src/quantpilot_core/paper_trading/loop.py, which books the fills on the
-- account; sorting the dictionaries and valuing the account after it are left out.
use quant_pilot_ai_next.PaperTrading.Simulator.{moved_positions}
use quant_pilot_ai_next.Base.{
  List, [], ◌∷◌, ◌++◌, Call, returned, raised, zero_division_error, ◌>>=◌, if◌then◌else◌,
}
use quant_pilot_ai_next.Text.{◌==◌}
use quant_pilot_ai_next.Int.{ℤ, pos, ◌+ℤ◌, ◌-ℤ◌, eq_ℤ, leb_ℤ}
use quant_pilot_ai_next.Dict.{Dict, get_or, insert, remove}
use quant_pilot_ai_next.Float.{Float, ◌⊕◌, ◌⊖◌, ◌⊗◌, ◌⊘◌, round, zero_float}
use quant_pilot_ai_next.PaperTrading.Contracts.{PaperTrade, PaperAccount, sell}

-- the variables of the loop
pub record Books (W : Type 0) : Type 0 where
  pub cash : W
  pub positions : Dict ℤ
  pub average_costs : Dict W
  pub realized_by_symbol : Dict W
  pub realized_pnl : W
  pub trade_log : List (PaperTrade W)

abbrev pub start_books : {W : Type 0} → PaperAccount W → Books W
start_books account = record {
  cash = account.cash;
  positions = account.positions;
  average_costs = account.average_costs;
  realized_by_symbol = account.realized_pnl_by_symbol;
  realized_pnl = account.realized_pnl;
  trade_log = account.trade_log;
}

module _ {W : Type 0} ⦃F : Float W⦄ where
  -- the average cost after a purchase: the cost basis over the quantity, which may be zero
  unfoldable pub book_buy : Books W → PaperTrade W → Call (Books W)
  unfolding insert get_or
  book_buy s trade =
      let old_quantity = get_or (pos 0) trade.symbol s.positions in
      let old_basis =
        round (F.of_int old_quantity ⊗ get_or zero_float trade.symbol s.average_costs) 6 in
      let added_basis = round (trade.gross_notional ⊕ trade.fee) 6 in
      let quantity = old_quantity +ℤ trade.quantity in
      if eq_ℤ quantity (pos 0)
      then raised zero_division_error
      else returned (record s {
        cash = round (s.cash ⊕ trade.cash_impact) 6;
        positions = insert trade.symbol quantity s.positions;
        average_costs =
            insert trade.symbol ((old_basis ⊕ added_basis) ⊘ F.of_int quantity) s.average_costs;
        trade_log = s.trade_log ++ record trade { realized_pnl = zero_float } ∷ [];
      })

  -- the profit that a sale realizes
  unfoldable pub realized_delta : Books W → PaperTrade W → W
  unfolding get_or
  realized_delta s trade =
      let removed_basis =
        round (get_or zero_float trade.symbol s.average_costs ⊗ F.of_int trade.quantity) 6 in
      let stamp_tax = trade.total_cost ⊖ trade.fee ⊖ trade.slippage_cost in
      round (round (trade.gross_notional ⊖ trade.fee ⊖ stamp_tax) 6 ⊖ removed_basis) 6

  unfoldable pub book_sale : Books W → PaperTrade W → Books W
  unfolding insert get_or remove moved_positions realized_delta
  book_sale s trade =
      let delta = realized_delta s trade in
      let left = get_or (pos 0) trade.symbol s.positions -ℤ trade.quantity in
      record {
        cash = round (s.cash ⊕ trade.cash_impact) 6;
        positions = moved_positions sell trade.symbol trade.quantity s.positions;
        average_costs =
            if leb_ℤ left (pos 0) then remove trade.symbol s.average_costs else s.average_costs;
        realized_by_symbol =
            insert trade.symbol
              (round (get_or zero_float trade.symbol s.realized_by_symbol ⊕ delta) 6)
              s.realized_by_symbol;
        realized_pnl = round (s.realized_pnl ⊕ delta) 6;
        trade_log = s.trade_log ++ record trade { realized_pnl = delta } ∷ [];
      }

  -- one round of the loop
  unfoldable pub book_trade : Books W → PaperTrade W → Call (Books W)
  unfolding book_buy book_sale
  book_trade s trade =
      if trade.side == "buy"
      then book_buy s trade
      else if trade.side == "sell"
      then returned (book_sale s trade)
      else returned (record s {
        cash = round (s.cash ⊕ trade.cash_impact) 6;
        trade_log = s.trade_log ++ record trade { realized_pnl = zero_float } ∷ [];
      })

  unfoldable pub book_trades : Books W → List (PaperTrade W) → Call (Books W)
  unfolding book_trade
  book_trades s [] = returned s
  book_trades s (trade ∷ trades) = book_trade s trade >>= λ s'. book_trades s' trades
