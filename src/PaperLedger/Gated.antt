-- ===== src/PaperLedger/Gated.antt =====
-- src/quantpilot_core/paper_ledger/ledger.py: the paper fill at the limit price, with no costs. The
-- provider sample is read at its two fields `gate_passed` and `fetched_bar_count` alone.
use quant_pilot_ai_next.Base.{
  String, Bool, Option, some, List, [], ◌∷◌, ◌++◌, ◌&&◌, not, if◌then◌else◌, only_if, is_empty,
  is_none, Call, returned, ◌>>◌, raise_if, value_error, overflow_error,
}
use quant_pilot_ai_next.Int.{ℤ, pos, ◌+ℤ◌, ◌-ℤ◌, ltb_ℤ, leb_ℤ}
use quant_pilot_ai_next.Float.{Float, ◌⊕◌, ◌⊖◌, ◌⊗◌, lt}
use quant_pilot_ai_next.PaperLedger.Contracts.{
  PaperOrderSide, buy, sell, PaperOrderStatus, PaperLedgerStatus, PaperLedgerAccount,
  PaperLedgerOrderIntent, PaperLedgerResult, validate_order_shape, rejected_paper_result,
  account_with_position, position_of,
}

module _ {W : Type 0} ⦃F : Float W⦄ where
  -- the `PaperLedgerResult` at the end of `run_paper_ledger_from_gated_sample`
  unfoldable pub recorded_result :
      PaperLedgerAccount W
      → PaperLedgerOrderIntent W
      → W
      → ℤ
      → ℤ
      → List String
      → PaperLedgerResult W
  unfolding account_with_position
  recorded_result account intent cash_after position_before position_after warnings = record {
    status = PaperLedgerStatus.ready;
    order_status = PaperOrderStatus.accepted;
    symbol = intent.symbol;
    side = intent.side;
    requested_quantity = intent.quantity;
    filled_quantity = intent.quantity;
    fill_price = some intent.limit_price;
    cash_before = account.cash;
    cash_after = cash_after;
    position_before = position_before;
    position_after = position_after;
    account_after = account_with_position account intent.symbol cash_after position_after;
    reasons = [];
    warnings = warnings;
    suggested_next_action = "Record the paper ledger result and continue sandbox review.";
  }

  gated_warnings : Bool → Option W → List String
  gated_warnings gate_passed latest_close_price =
      only_if (not gate_passed) "sample_quality_gate_not_passed"
      ++ only_if (not (is_none latest_close_price))
          "latest_close_price_observed_but_limit_price_used"

  unfoldable pub fill_at_limit :
      PaperOrderSide
      → PaperLedgerAccount W
      → PaperLedgerOrderIntent W
      → List String
      → Call (PaperLedgerResult W)
  unfolding recorded_result rejected_paper_result position_of
  fill_at_limit buy account intent warnings =
      let before = position_of account intent.symbol in
      let required_cash = F.of_int intent.quantity ⊗ intent.limit_price in
      raise_if (not (F.fits intent.quantity)) overflow_error
      >> returned (
          if lt account.cash required_cash
          then rejected_paper_result PaperLedgerStatus.insufficient_cash account intent before
              ("insufficient_cash" ∷ []) "Reduce quantity or add paper cash before retrying."
          else recorded_result account intent (account.cash ⊖ required_cash) before
              (before +ℤ intent.quantity) warnings)
  fill_at_limit sell account intent warnings =
      let before = position_of account intent.symbol in
      if ltb_ℤ before intent.quantity
      then returned (
          rejected_paper_result PaperLedgerStatus.rejected account intent before
            ("insufficient_position" ∷ [])
            "Reduce sell quantity or establish paper position first.")
      else raise_if (not (F.fits intent.quantity)) overflow_error
        >> returned (
            recorded_result account intent
              (account.cash ⊕ (F.of_int intent.quantity ⊗ intent.limit_price)) before
              (before -ℤ intent.quantity) warnings)

  unfoldable pub run_paper_ledger_from_gated_sample :
      PaperLedgerAccount W → PaperLedgerOrderIntent W → Bool → Option W → Call (PaperLedgerResult W)
  unfolding fill_at_limit gated_warnings
  run_paper_ledger_from_gated_sample account intent gate_passed latest_close_price =
      let invalid_reasons = validate_order_shape account intent in
      if not (is_empty invalid_reasons)
      then returned (
          rejected_paper_result PaperLedgerStatus.invalid_order account intent
            (position_of account intent.symbol) invalid_reasons
            "Fix account cash and order intent before paper ledger dry run.")
      else fill_at_limit intent.side account intent (gated_warnings gate_passed latest_close_price)

  unfoldable pub build_paper_order_from_sample_preflight_result :
      Bool → ℤ → String → PaperOrderSide → ℤ → W → Call (PaperLedgerOrderIntent W)
  build_paper_order_from_sample_preflight_result gate_passed bar_count symbol side quantity
        limit_price =
      do
        raise_if (not gate_passed && leb_ℤ bar_count (pos 0))
            (value_error "sample result must provide structurally usable market data")
        returned (record {
          symbol = symbol;
          side = side;
          quantity = quantity;
          limit_price = limit_price;
        })
