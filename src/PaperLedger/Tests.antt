-- ===== src/PaperLedger/Tests.antt =====
-- Orders for src/quantpilot_core/paper_ledger in fixed-point money, in units of 10^-8.
use quant_pilot_ai_next.Base.{
  ◌≡◌, refl, true, false, none, some, [], ◌∷◌, arith, Returns, ◌↔◌, ReturnsUnless, overflow_error,
  raised, raised,
}
use quant_pilot_ai_next.Int.{ℤ, pos, ◌+ℤ◌, ◌-ℤ◌}
use quant_pilot_ai_next.Dict.{get_or}
use quant_pilot_ai_next.Text.{is_blank}
use quant_pilot_ai_next.Float.{fixed, Fixed-IsIeee}
use quant_pilot_ai_next.PaperLedger.Contracts.{
  validate_order_shape, buy, sell, PaperOrderStatus, PaperLedgerAccount, PaperLedgerOrderIntent,
}
use quant_pilot_ai_next.PaperLedger.Costs.{
  AShareCostModel, order_cost, slipped, validate_a_share_board_lot, calculate_a_share_order_cost,
}
use quant_pilot_ai_next.PaperLedger.Constrained.{
  settle, execute_order, run_a_share_constrained_paper_order, model_or_default,
}
use quant_pilot_ai_next.PaperLedger.Gated.{run_paper_ledger_from_gated_sample, fill_at_limit}
use quant_pilot_ai_next.PaperLedger.Laws.{
  Answers, run_a_share_constrained_paper_order-Answers, run_paper_ledger_from_gated_sample-Answers,
}
use quant_pilot_ai_next.PaperLedger.Accepted.{
  IsWellShaped, IsCovered, cost_of, IsBought, run_a_share_constrained_paper_order_accepts,
  run_a_share_constrained_paper_order_buys,
}
use quant_pilot_ai_next.PaperLedger.Flaws.{IsFree, run_a_share_constrained_paper_order-IsFree}

abbrev account : PaperLedgerAccount ℤ
account = record { cash = pos 1_000_000_000_000; positions = ("600000", pos 300) ∷ [] }

abbrev purchase : PaperLedgerOrderIntent ℤ
purchase = record {
  symbol = "600000";
  side = buy;
  quantity = pos 200;
  limit_price = pos 1_000_000_000;
}

abbrev sale : PaperLedgerOrderIntent ℤ
sale = record {
  symbol = "600000";
  side = sell;
  quantity = pos 200;
  limit_price = pos 1_000_000_000;
}

-- a price of 0.00001, which `round(…, 4)` takes to zero
abbrev dust : PaperLedgerOrderIntent ℤ
dust = record { symbol = "600000"; side = buy; quantity = pos 200; limit_price = pos 1000 }

abbrev flat : AShareCostModel ℤ
flat = record {
  commission_rate = pos 30_000;
  min_commission = pos 500_000_000;
  stamp_tax_rate = pos 50_000;
  slippage_rate = pos 50_000;
}

sold :
    Returns
      (λ r. (r.position_after ≡ pos 100) × (r.order_status ≡ PaperOrderStatus.accepted))
      (run_a_share_constrained_paper_order account sale true (some (("600000", pos 200) ∷ [])) none)
unfolding run_a_share_constrained_paper_order execute_order get_or is_blank ◌+ℤ◌ ◌-ℤ◌
    validate_order_shape validate_a_share_board_lot settle calculate_a_share_order_cost
sold = (refl, refl)

-- more shares than the fixed-point money can multiply
abbrev vast : PaperLedgerOrderIntent ℤ
vast = record purchase { quantity = pos 10_000_000_000_000_000_000 }

overflows :
    (run_a_share_constrained_paper_order account vast true none (some flat) ≡ raised overflow_error)
    × (run_paper_ledger_from_gated_sample account vast true none ≡ raised overflow_error)
unfolding run_a_share_constrained_paper_order execute_order get_or is_blank ◌+ℤ◌ ◌-ℤ◌ slipped
    validate_order_shape validate_a_share_board_lot calculate_a_share_order_cost
    run_paper_ledger_from_gated_sample fill_at_limit model_or_default
overflows = (refl, refl)

run_a_share_constrained_paper_order-Answers_example :
    ReturnsUnless (fixed.fits (pos 200) ≡ false) overflow_error (Answers account sale) (
      run_a_share_constrained_paper_order account sale true
        (some (("600000", pos 200) ∷ []))
        (some flat))
unfolding model_or_default
run_a_share_constrained_paper_order-Answers_example =
    run_a_share_constrained_paper_order-Answers account sale true (some (("600000", pos 200) ∷ []))
      (some flat) refl

run_paper_ledger_from_gated_sample-Answers_example :
    ReturnsUnless
      (fixed.fits (pos 200) ≡ false)
      overflow_error
      (Answers account purchase)
      (run_paper_ledger_from_gated_sample account purchase false none)
run_paper_ledger_from_gated_sample-Answers_example =
    run_paper_ledger_from_gated_sample-Answers account purchase false none

run_a_share_constrained_paper_order_accepts_example :
    ReturnsUnless
      (fixed.fits (pos 200) ≡ false)
      overflow_error
      (λ r. (r.order_status ≡ PaperOrderStatus.accepted) ↔ (
        IsWellShaped account purchase
        × IsCovered buy account purchase none
            (cost_of purchase (model_or_default (some flat))).total_cost))
      (run_a_share_constrained_paper_order account purchase true none (some flat))
unfolding model_or_default
run_a_share_constrained_paper_order_accepts_example =
    run_a_share_constrained_paper_order_accepts account purchase true none (some flat) refl

run_a_share_constrained_paper_order_buys_example :
    ReturnsUnless
      (fixed.fits (pos 200) ≡ false)
      overflow_error
      (IsBought account purchase (cost_of purchase (model_or_default (some flat))).total_cost)
      (run_a_share_constrained_paper_order account purchase true none (some flat))
unfolding model_or_default is_blank order_cost ◌+ℤ◌ slipped
run_a_share_constrained_paper_order_buys_example =
    run_a_share_constrained_paper_order_buys Fixed-IsIeee account purchase true none (some flat)
      refl (refl, refl, omega arith, refl, refl) refl refl

run_a_share_constrained_paper_order-IsFree_example :
    Returns
      (IsFree account dust (cost_of dust (model_or_default (some flat))))
      (run_a_share_constrained_paper_order account dust true none (some flat))
unfolding model_or_default is_blank slipped ◌+ℤ◌
run_a_share_constrained_paper_order-IsFree_example =
    run_a_share_constrained_paper_order-IsFree account dust true none (some flat) refl
      (refl, refl, omega arith, refl, refl) refl refl
