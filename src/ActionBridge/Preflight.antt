-- ===== src/ActionBridge/Preflight.antt =====
-- src/quantpilot_core/ai_action_paper_bridge/preflight.py. `estimate_trade_cost` has the text of the dry
-- run's `_estimate_instruction_cost`, on the side and the notional of a proposal.
use quant_pilot_ai_next.AccountProfile.Preflight.{has_evidence}
use quant_pilot_ai_next.DryRun.Preflight.{is_trade, is_odd_lot}
use quant_pilot_ai_next.AccountProfile.Contracts.{BrokerFeeProfile}
use quant_pilot_ai_next.ActionBridge.Contracts.{
  AiActionProposal, PaperLedgerCandidateInstruction, proposal_sources, hold_side,
}
use quant_pilot_ai_next.DryRun.Simulate.{estimate_cost}
use quant_pilot_ai_next.Text.{is_blank, contains}
use quant_pilot_ai_next.Base.{
  String, Option, Bool, List, false, some, ◌&&◌, ◌++◌, only_if, not, ◌||◌,
}
use quant_pilot_ai_next.Float.{Float, ◌⊗◌, le, round, zero_float}
use quant_pilot_ai_next.RiskFlags.{RiskFlag, critical}
use quant_pilot_ai_next.Base.{none, some}
use quant_pilot_ai_next.Int.{pos, leb_ℤ, eq_ℤ}
use quant_pilot_ai_next.Text.{◌==◌}

module _ {W : Type 0} ⦃F : Float W⦄ where
  -- `proposal.limit_price is not None and proposal.limit_price <= 0`
  abbrev pub bad_limit : Option W → Bool
  bad_limit none = false
  bad_limit (some price) = le price zero_float

  -- `0 <= confidence <= 1`
  abbrev pub in_unit_range : W → Bool
  in_unit_range confidence = le zero_float confidence && le confidence (F.of_int (pos 1))

  -- the flags on the names and the numbers of a proposal, up to its confidence
  unfoldable pub term_flags : AiActionProposal W → List RiskFlag
  unfolding is_blank
  term_flags proposal =
      let trade = is_trade proposal.side in
      only_if (is_blank proposal.proposal_id)
        (critical "proposal_id_missing" "Proposal ID must be non-empty.")
      ++ (only_if (not (contains proposal.source proposal_sources))
            (critical "proposal_source_invalid" "Proposal source is unsupported.")
          ++ (only_if (not (trade || proposal.side == hold_side))
                (critical "side_invalid" "Proposal side must be BUY, SELL, or HOLD.")
              ++ (only_if (trade && is_blank proposal.symbol)
                    (critical "symbol_missing" "BUY/SELL proposal symbol must be non-empty.")
                  ++ (only_if (trade && leb_ℤ proposal.quantity (pos 0))
                        (critical "quantity_not_positive" "BUY/SELL quantity must be positive.")
                      ++ (only_if
                            (proposal.side == hold_side && not (eq_ℤ proposal.quantity (pos 0)))
                            (critical "hold_quantity_not_zero" "HOLD quantity must be zero.")
                          ++ (only_if (trade && le proposal.estimated_price zero_float) (
                                critical "estimated_price_not_positive"
                                  "Estimated price must be positive.")
                              ++ only_if (bad_limit proposal.limit_price) (
                                  critical "limit_price_not_positive"
                                    "Limit price must be positive when provided.")))))))

  unfoldable pub validate_ai_action_proposal : AiActionProposal W → Bool → List RiskFlag
  unfolding term_flags is_blank
  validate_ai_action_proposal proposal allow_odd_lot =
      term_flags proposal
      ++ (only_if (not (in_unit_range proposal.confidence))
            (critical "confidence_out_of_range" "Confidence must be in [0, 1].")
          ++ (only_if (is_blank proposal.rationale)
                (critical "rationale_missing" "Proposal rationale must be non-empty.")
              ++ (only_if (not (has_evidence proposal.evidence_refs))
                    (critical "evidence_refs_missing" "Proposal evidence is required.")
                  ++ only_if
                      (is_trade proposal.side
                        && (is_odd_lot proposal.quantity && not allow_odd_lot))
                      (critical "a_share_lot_size_invalid"
                        "A-share quantity must be a 100-share lot."))))

  -- `proposal.quantity * proposal.estimated_price`
  abbrev pub raw_notional : AiActionProposal W → W
  raw_notional proposal = F.of_int proposal.quantity ⊗ proposal.estimated_price

  -- `_estimated_notional`
  abbrev pub estimated_notional_of : AiActionProposal W → W
  estimated_notional_of proposal = round (raw_notional proposal) 4

  unfoldable pub estimate_trade_cost : AiActionProposal W → BrokerFeeProfile W → W
  unfolding estimate_cost
  estimate_trade_cost proposal fee =
      estimate_cost proposal.side (estimated_notional_of proposal) fee

  unfoldable pub to_paper_ledger_candidate :
      AiActionProposal W → String → PaperLedgerCandidateInstruction W
  to_paper_ledger_candidate proposal reason = record {
    proposal_id = proposal.proposal_id;
    symbol = proposal.symbol;
    side = proposal.side;
    quantity = proposal.quantity;
    estimated_price = proposal.estimated_price;
    limit_price = proposal.limit_price;
    estimated_notional = estimated_notional_of proposal;
    reason = reason;
    evidence_refs = proposal.evidence_refs;
  }
