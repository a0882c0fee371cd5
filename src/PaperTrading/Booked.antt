-- ===== src/PaperTrading/Booked.antt =====
-- The fills of the simulator, booked by src/quantpilot_core/paper_trading/loop.py.
use quant_pilot_ai_next.PaperTrading.Simulator.{simulate_fills}
use quant_pilot_ai_next.DryRun.Laws.{add_position-get_or, NoShort}
use quant_pilot_ai_next.PaperTrading.Laws.{
  IsCoveredTrade, shares_after, AreLegal, simulate_fills-AreLegal, moved_positions-sell,
}
use quant_pilot_ai_next.PaperTrading.Contracts.{
  PaperTrade, PaperFillCostAssumptions, OrderIntent, PaperAccount,
}
use quant_pilot_ai_next.Dict.{get_or, Dict}
use quant_pilot_ai_next.PaperTrading.Books.{
  book_trade, Books, book_buy, book_sale, book_trades, start_books,
}
use mathlib.Core.Path.{subst}
use quant_pilot_ai_next.Base.{
  ◌≡◌, refl, true, false, [], ◌∷◌, arith, inl, inr, Returns, Returns-bind, if◌then◌else◌, String,
  Bool, List, some,
}
use quant_pilot_ai_next.Text.{◌==◌, eq_iff}
use quant_pilot_ai_next.Int.{ℤ, pos, ◌+ℤ◌, ◌-ℤ◌, ◌≤ℤ◌, int_laws, eq_ℤ, +ℤ_parts}
use quant_pilot_ai_next.Float.{Float, round, ◌⊕◌}

grown : (q p : ℤ) → pos 1 ≤ℤ q → pos 0 ≤ℤ p → eq_ℤ (p +ℤ q) (pos 0) ≡ false
grown q p h k = ground (arith, +ℤ_parts p q)

more : (b : Bool) (q p : ℤ) → pos 1 ≤ℤ q → pos 0 ≤ℤ p → pos 0 ≤ℤ (if b then p +ℤ q else p)
more true q p h k = omega (int_laws, h, k)
more false q p h k = k

less : (b : Bool) (q p : ℤ) → pos 0 ≤ℤ p → (b ≡ true → q ≤ℤ p) → pos 0 ≤ℤ (if b then p -ℤ q else p)
less true q p h fits = let fit = fits refl in omega (int_laws, fit)
less false q p h fits = h

module _ {W : Type 0} ⦃F : Float W⦄ (lot_size : ℤ) where
  -- the books hold the shares, and no number of shares is negative
  record Keeps (s : Books W) (shares : String → ℤ) : Type 0 where
    same : (symbol : String) → get_or (pos 0) symbol s.positions ≡ shares symbol
    long : (symbol : String) → pos 0 ≤ℤ shares symbol

  book_trade-Keeps :
      (s : Books W) (cash : W) (shares : String → ℤ) (trade : PaperTrade W)
      → Keeps s shares
      → IsCoveredTrade lot_size cash shares trade
      → Returns (λ s'. Keeps s' (shares_after shares trade)) (book_trade s trade)
  unfolding book_trade book_buy book_sale
  book_trade-Keeps s cash shares trade keeps covered = elim covered.covered [
    | inl (buys, paid) ↦
        rw
          (
            buys,
            grown trade.quantity (get_or (pos 0) trade.symbol s.positions) covered.positive
                (rw (keeps.same trade.symbol) (keeps.long trade.symbol)),
          )
          (record {
            same = λ symbol.
                rw (← keeps.same symbol)
                  (add_position-get_or trade.symbol symbol trade.quantity s.positions);
            long = λ symbol.
                more (trade.symbol == symbol) trade.quantity (shares symbol) covered.positive
                  (keeps.long symbol);
          })
    | inr (sells, fits) ↦ rw sells (record {
      same = λ symbol. rw (← keeps.same symbol) (
          moved_positions-sell trade.symbol symbol trade.quantity s.positions
            (rw (keeps.same trade.symbol) fits));
      long = λ symbol.
          less (trade.symbol == symbol) trade.quantity (shares symbol) (keeps.long symbol)
            (λ e. subst (λ j. trade.quantity ≤ℤ shares j) ((eq_iff trade.symbol symbol).0 e) fits);
    })
  ]

  book_trades-NoShort :
      (s : Books W) (cash : W) (shares : String → ℤ) (trades : List (PaperTrade W))
      → Keeps s shares
      → AreLegal lot_size cash shares trades
      → Returns (λ s'. NoShort s'.positions) (book_trades s trades)
  unfolding book_trades
  book_trades-NoShort s cash shares [] keeps legal =
      λ symbol. rw (keeps.same symbol) (keeps.long symbol)
  book_trades-NoShort s cash shares (trade ∷ trades) keeps (covered, legal) =
      Returns-bind (λ s'. Keeps s' (shares_after shares trade)) (λ s'. NoShort s'.positions)
        (book_trade s trade) (λ s'. book_trades s' trades)
        (book_trade-Keeps s cash shares trade keeps covered)
        (λ s' keeps'.
          book_trades-NoShort s' (round (cash ⊕ trade.cash_impact) 6) (shares_after shares trade)
            trades keeps' legal)

module _ {W : Type 0} ⦃F : Float W⦄ where
  -- For an account without short positions, the fills that the simulator makes are booked without an
  -- exception, so that no average cost is divided by zero, and leave no short position.
  pub book_trades-simulate_fills :
      (assumptions : PaperFillCostAssumptions W) (intents : List (OrderIntent W)) (prices : Dict W)
      (account : PaperAccount W)
      → NoShort account.positions
      → Returns
          (λ (books : Books W). NoShort books.positions)
          (book_trades
            (start_books account)
            (simulate_fills assumptions intents prices (some account)).filled_trades)
  book_trades-simulate_fills assumptions intents prices account long =
      book_trades-NoShort assumptions.lot_size (start_books account) account.cash
        (λ symbol. get_or (pos 0) symbol account.positions) _
        (record { same = λ symbol. refl; long = long })
        (simulate_fills-AreLegal assumptions intents prices account)
