-- ===== src/PaperTrading/Tests.antt =====
-- Simulated fills of src/quantpilot_core/paper_trading in fixed-point money, in units of 10^-8.
use quant_pilot_ai_next.Text.{contains}
use quant_pilot_ai_next.PaperTrading.Booked.{book_trades-simulate_fills}
use quant_pilot_ai_next.DryRun.Laws.{NoShort}
use quant_pilot_ai_next.PaperTrading.Books.{Books, book_trades, start_books}
use quant_pilot_ai_next.PaperTrading.Normalized.{
  normalize_proposal_again, quantity_reasons-normalize_shares,
}
use quant_pilot_ai_next.PaperTrading.Laws.{AreLegal, simulate_fills-AreLegal}
use quant_pilot_ai_next.PaperTrading.Controller.{
  normalize_proposal, OrderIntentProposal, normalize_shares,
}
use quant_pilot_ai_next.PaperTrading.Intents.{trade_reasons, build_trade, quantity_reasons}
use quant_pilot_ai_next.PaperTrading.Simulator.{
  simulate_fills, simulate_from, simulate_intent, fill_intent, settle_trade, start_fills,
}
use quant_pilot_ai_next.Dict.{Dict, get_or, lookup}
use quant_pilot_ai_next.Base.{
  ◌≡◌, refl, true, false, [], ◌∷◌, arith, none, some, returned, List, length, Returns,
}
use quant_pilot_ai_next.Int.{ℤ, pos, ◌+ℤ◌, ◌-ℤ◌}
use quant_pilot_ai_next.Float.{fixed}
use quant_pilot_ai_next.PaperTrading.Contracts.{OrderIntent, PaperAccount, PaperFillCostAssumptions}

abbrev buy_intent : OrderIntent ℤ
buy_intent = record {
  symbol = "600000";
  side = "BUY";
  target_weight = none;
  target_shares = some (pos 250);
  reason = "signal";
  source_agent = "exec2";
  confidence = pos 80_000_000;
  strategy_id = none;
  run_label = none;
}

abbrev normal_buy : OrderIntent ℤ
normal_buy = record buy_intent { side = "buy"; target_shares = some (pos 200) }

abbrev sell_intent : OrderIntent ℤ
sell_intent = record normal_buy { side = "sell" }

abbrev proposal : OrderIntentProposal ℤ
proposal = record {
  intents = buy_intent ∷ [];
  proposal_source = "exec2";
  advisory_only = true;
  created_at = none;
  run_label = none;
}

abbrev normal_proposal : OrderIntentProposal ℤ
normal_proposal = record proposal { intents = normal_buy ∷ [] }

abbrev paper_account : PaperAccount ℤ
paper_account = record {
  cash = pos 1_000_000_000_000;
  positions = [];
  average_costs = [];
  realized_pnl_by_symbol = [];
  realized_pnl = pos 0;
  unrealized_pnl = pos 0;
  trade_log = [];
}

-- the default assumptions
abbrev assumptions : PaperFillCostAssumptions ℤ
assumptions = record {
  fee_rate = pos 30_000;
  min_fee = pos 500_000_000;
  stamp_tax_rate = pos 50_000;
  slippage_bps = pos 500_000_000;
  lot_size = pos 100;
  transfer_fee_rate = pos 0;
  exchange_fee_rate = pos 0;
  stamp_tax_applies_to_buy = false;
  stamp_tax_applies_to_etf = false;
}

abbrev latest_prices : Dict ℤ
latest_prices = ("600000", pos 1_000_000_000) ∷ []

-- the third intent sells what the second has sold already
abbrev intents : List (OrderIntent ℤ)
intents = normal_buy ∷ sell_intent ∷ sell_intent ∷ []

bought :
    let result = simulate_fills assumptions (normal_buy ∷ []) latest_prices (some paper_account) in
    (length result.filled_trades ≡ 1) × (length result.rejected_fills ≡ 0)
unfolding simulate_fills ◌+ℤ◌ ◌-ℤ◌ simulate_from simulate_intent trade_reasons fill_intent
    settle_trade start_fills build_trade
bought = (refl, refl)

simulate_fills-AreLegal_example :
    AreLegal
      (pos 100)
      (pos 1_000_000_000_000)
      (λ symbol. get_or (pos 0) symbol [])
      (simulate_fills assumptions intents latest_prices (some paper_account)).filled_trades
simulate_fills-AreLegal_example =
    simulate_fills-AreLegal assumptions intents latest_prices paper_account

quantity_reasons-normalize_shares_example :
    contains "quantity_must_be_100_share_lot"
      (quantity_reasons (normalize_shares (pos 100) (some (pos 250))) (pos 100))
    ≡ false
quantity_reasons-normalize_shares_example =
    quantity_reasons-normalize_shares (pos 100) (some (pos 250)) (ground arith)

normal : normalize_proposal (pos 100) proposal ≡ returned normal_proposal
unfolding normalize_proposal
normal = refl

normalize_proposal_again_example :
    normalize_proposal (pos 100) normal_proposal ≡ returned normal_proposal
normalize_proposal_again_example =
    normalize_proposal_again (pos 100) (ground arith) proposal normal_proposal normal

starts_long : NoShort paper_account.positions
unfolding get_or lookup
starts_long symbol = ground arith

book_trades-simulate_fills_example :
    Returns
      (λ (books : Books ℤ). NoShort books.positions)
      (book_trades
        (start_books paper_account)
        (simulate_fills assumptions intents latest_prices (some paper_account)).filled_trades)
book_trades-simulate_fills_example =
    book_trades-simulate_fills assumptions intents latest_prices paper_account starts_long
