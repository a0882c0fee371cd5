-- ===== src/DryRun/Preflight.antt =====
-- src/quantpilot_core/paper_ledger_dry_run/preflight.py
use quant_pilot_ai_next.Base.{
  String, Bool, not, ◌&&◌, ◌||◌, ◌%◌, ◌==◌ as eq_ℕ, List, [], ◌∷◌, ◌++◌, if◌then◌else◌, only_if,
}
use quant_pilot_ai_next.Int.{ℤ, pos, pos_part, leb_ℤ, ltb_ℤ}
use quant_pilot_ai_next.Text.{◌==◌, is_blank}
use quant_pilot_ai_next.Float.{Float, ◌⊖◌, ◌⊗◌, lt, le, zero_float, round}
use quant_pilot_ai_next.RiskFlags.{RiskFlag, critical}
use quant_pilot_ai_next.AccountProfile.Preflight.{has_evidence}
use quant_pilot_ai_next.ActionBridge.Contracts.{
  buy_side, sell_side, hold_side, PaperLedgerCandidateInstruction,
}

-- `side in {BUY, SELL}`
abbrev pub is_trade : String → Bool
is_trade side = side == buy_side || side == sell_side

-- `quantity > 0 and quantity % 100 != 0`; the remainder is that of a positive number
abbrev pub is_odd_lot : ℤ → Bool
is_odd_lot quantity = ltb_ℤ (pos 0) quantity && not (eq_ℕ (pos_part quantity % 100) 0)

-- the flag on the side
abbrev pub side_flags : String → List RiskFlag
side_flags side =
    if is_trade side
    then []
    else if side == hold_side
    then critical "hold_instruction_not_allowed" "HOLD must not reach dry-run." ∷ []
    else critical "unsupported_side" "Dry-run side must be BUY or SELL." ∷ []

module _ {W : Type 0} ⦃F : Float W⦄ where
  -- NOTIONAL_TOLERANCE, 0.0001
  abbrev pub notional_tolerance : W
  notional_tolerance = F.lit 1 4

  abbrev pub expected_notional : ℤ → W → W
  expected_notional quantity price = round (F.of_int quantity ⊗ price) 4

  unfoldable pub validate_dry_run_instruction :
      PaperLedgerCandidateInstruction W → Bool → List RiskFlag
  unfolding is_blank
  validate_dry_run_instruction instruction allow_odd_lot =
      only_if (is_blank instruction.proposal_id)
        (critical "proposal_id_missing" "Proposal ID must be non-empty.")
      ++ (only_if (is_blank instruction.symbol)
            (critical "symbol_missing" "Instruction symbol must be non-empty.")
          ++ (side_flags instruction.side
              ++ (only_if (leb_ℤ instruction.quantity (pos 0))
                    (critical "quantity_not_positive" "Instruction quantity must be positive.")
                  ++ (only_if (le instruction.estimated_price zero_float) (
                        critical "estimated_price_not_positive" "Estimated price must be positive.")
                      ++ (only_if
                            (lt notional_tolerance (
                              F.abs (
                                instruction.estimated_notional
                                ⊖ expected_notional instruction.quantity
                                    instruction.estimated_price)))
                            (critical "estimated_notional_mismatch"
                              "Estimated notional must equal quantity times estimated price.")
                          ++ (only_if (not (has_evidence instruction.evidence_refs)) (
                                critical "evidence_refs_missing"
                                  "Instruction evidence is required.")
                              ++ only_if
                                  (is_trade instruction.side
                                    && (is_odd_lot instruction.quantity && not allow_odd_lot))
                                  (critical "a_share_lot_size_invalid"
                                    "A-share quantity must be a 100-share lot.")))))))
