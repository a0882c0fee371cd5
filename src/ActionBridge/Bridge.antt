-- ===== src/ActionBridge/Bridge.antt =====
-- `run_ai_action_paper_bridge` of src/quantpilot_core/ai_action_paper_bridge/bridge.py: the loop over the
-- proposals as steps on the variables that it changes.
use quant_pilot_ai_next.AccountProfile.Preflight.{run_account_profile_preflight}
use quant_pilot_ai_next.ActionBridge.Preflight.{
  to_paper_ledger_candidate, validate_ai_action_proposal, in_unit_range, raw_notional,
  estimate_trade_cost,
}
use quant_pilot_ai_next.AccountProfile.Limits.{normalize_sellable_quantities}
use quant_pilot_ai_next.RiskFlags.{account_warnings, has_critical, RiskFlag, unique, high, critical}
use quant_pilot_ai_next.Dict.{get_or}
use quant_pilot_ai_next.AccountProfile.Contracts.{AccountProfile}
use quant_pilot_ai_next.ActionBridge.Contracts.{
  AiActionPaperBridgeResult, AiActionProposal, PaperLedgerCandidateInstruction, blocked,
  requires_manual_review, hold_side, buy_side, accepted_for_paper, sell_side,
}
use Prim.Native.String
use quant_pilot_ai_next.Base.{
  String, List, Option, Bool, ◌||◌, if◌then◌else◌, false, not, ◌&&◌, some, only_if, is_empty, true,
}
use quant_pilot_ai_next.Float.{Float, lt, ◌⊕◌}
use quant_pilot_ai_next.Base.{none, [], ◌∷◌, ◌++◌}
use quant_pilot_ai_next.Int.{pos, ltb_ℤ}
use quant_pilot_ai_next.Text.{◌==◌}

pub record BridgeState (W : Type 0) : Type 0 where
  pub risk_flags : List RiskFlag
  pub blocked_proposals : List String
  pub accepted_instructions : List (PaperLedgerCandidateInstruction W)
  pub manual_review : Bool

module _ {W : Type 0} ⦃F : Float W⦄ where
  -- `proposal.confidence < min_confidence and 0 <= proposal.confidence <= 1`
  abbrev pub is_unsure : W → AiActionProposal W → Bool
  is_unsure min_confidence proposal =
      lt proposal.confidence min_confidence && in_unit_range proposal.confidence

  -- `proposal_flags`, as the loop completes it
  unfoldable pub flags_of : W → Bool → AiActionProposal W → List RiskFlag
  flags_of min_confidence allow_odd_lot proposal =
      validate_ai_action_proposal proposal allow_odd_lot
      ++ only_if (is_unsure min_confidence proposal) (
          high "confidence_below_threshold"
            (String.◌++◌ proposal.proposal_id " confidence is below minimum threshold."))

  -- `max_order_value is not None and estimated_notional > max_order_value`
  abbrev pub exceeds : W → Option W → Bool
  exceeds notional none = false
  exceeds notional (some max_order_value) = lt max_order_value notional

  -- `_validate_against_account`
  unfoldable pub validate_against_account : AiActionProposal W → AccountProfile W → List RiskFlag
  unfolding get_or normalize_sellable_quantities
  validate_against_account proposal profile =
      only_if
        (proposal.side == buy_side
          && lt profile.cash.available_cash
              (raw_notional proposal ⊕ estimate_trade_cost proposal profile.broker_fee))
        (critical "buy_cash_insufficient" "BUY notional plus fees exceeds available cash.")
      ++ (only_if
            (proposal.side == sell_side
              && ltb_ℤ
                  (get_or (pos 0) proposal.symbol
                    (run_account_profile_preflight profile false
                      false).normalized_sellable_by_symbol)
                  proposal.quantity)
            (critical "sellable_quantity_insufficient" "SELL quantity exceeds sellable quantity.")
          ++ only_if (exceeds (raw_notional proposal) profile.risk_limits.max_order_value)
              (critical "max_order_value_breached" "Proposal notional exceeds max_order_value."))

  abbrev pub candidate : AiActionProposal W → PaperLedgerCandidateInstruction W
  candidate proposal = to_paper_ledger_candidate proposal "accepted_for_paper_candidate"

  module _ (profile : AccountProfile W) (min_confidence : W) (allow_odd_lot : Bool) where
    -- a proposal that has flags of its own
    unfoldable pub flagged : BridgeState W → AiActionProposal W → List RiskFlag → BridgeState W
    flagged s proposal flags = record s {
      risk_flags = s.risk_flags ++ flags;
      blocked_proposals =
          if has_critical flags
          then s.blocked_proposals ++ proposal.proposal_id ∷ []
          else s.blocked_proposals;
    }

    -- a trade without flags of its own, by its flags against the account
    unfoldable pub checked : BridgeState W → AiActionProposal W → List RiskFlag → BridgeState W
    checked s proposal flags =
        if is_empty flags
        then record s { accepted_instructions = s.accepted_instructions ++ candidate proposal ∷ [] }
        else record s {
          risk_flags = s.risk_flags ++ flags;
          blocked_proposals =
              if has_critical flags
              then s.blocked_proposals ++ proposal.proposal_id ∷ []
              else s.blocked_proposals;
          manual_review = s.manual_review || not (has_critical flags);
        }

    -- one round of the loop
    unfoldable pub bridge_step : BridgeState W → AiActionProposal W → BridgeState W
    bridge_step s proposal =
        let flags = flags_of min_confidence allow_odd_lot proposal in
        let reviewed = record s {
          manual_review = s.manual_review || is_unsure min_confidence proposal;
        } in
        if not (is_empty flags)
        then flagged reviewed proposal flags
        else if proposal.side == hold_side
        then reviewed
        else checked reviewed proposal (validate_against_account proposal profile)

    unfoldable pub bridge_from : BridgeState W → List (AiActionProposal W) → BridgeState W
    bridge_from s [] = s
    bridge_from s (proposal ∷ proposals) = bridge_from (bridge_step s proposal) proposals

  unfoldable pub start_bridge : AccountProfile W → BridgeState W
  start_bridge profile = record {
    risk_flags =
        account_warnings "Account preflight warning for paper bridge: "
          (run_account_profile_preflight profile false false).risk_flags;
    blocked_proposals = [];
    accepted_instructions = [];
    manual_review = false;
  }

  -- the result after the loop
  unfoldable pub finish_bridge : BridgeState W → AiActionPaperBridgeResult W
  finish_bridge s =
      if has_critical s.risk_flags
      then record {
        ok = false;
        decision = blocked;
        reason = "critical_risk_flags";
        accepted_instructions = [];
        blocked_proposals = unique s.blocked_proposals;
        risk_flags = s.risk_flags;
      }
      else if s.manual_review
      then record {
        ok = false;
        decision = requires_manual_review;
        reason = "manual_review_required";
        accepted_instructions = [];
        blocked_proposals = [];
        risk_flags = s.risk_flags;
      }
      else record {
        ok = true;
        decision = accepted_for_paper;
        reason = "ok";
        accepted_instructions = s.accepted_instructions;
        blocked_proposals = [];
        risk_flags = s.risk_flags;
      }

  unfoldable pub run_ai_action_paper_bridge :
      List (AiActionProposal W) → AccountProfile W → W → Bool → AiActionPaperBridgeResult W
  run_ai_action_paper_bridge proposals profile min_confidence allow_odd_lot =
      finish_bridge
        (bridge_from profile min_confidence allow_odd_lot (start_bridge profile) proposals)
