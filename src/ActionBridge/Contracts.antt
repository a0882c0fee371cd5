-- ===== src/ActionBridge/Contracts.antt =====
-- src/quantpilot_core/ai_action_paper_bridge/contracts.py. Sides and sources are plain texts, which the
-- code compares with the values of the enums; a decision is the enum itself.
use quant_pilot_ai_next.Base.{String, Bool, Option, List, [], ◌∷◌}
use quant_pilot_ai_next.Int.{ℤ}
use quant_pilot_ai_next.RiskFlags.{RiskFlag}

-- `ActionSide.BUY.value`, `.SELL.value` and `.HOLD.value`
abbrev pub buy_side : String
buy_side = "buy"

abbrev pub sell_side : String
sell_side = "sell"

abbrev pub hold_side : String
hold_side = "hold"

-- the values of `ProposalSource`
abbrev pub proposal_sources : List String
proposal_sources =
    "ai_supervisor" ∷ "news_event_agent" ∷ "factor_agent" ∷ "risk_agent" ∷ "manual_review" ∷ []

pub data BridgeDecision : Type 0 where
  accepted_for_paper blocked requires_manual_review : BridgeDecision

pub record AiActionProposal (W : Type 0) : Type 0 where
  pub proposal_id : String
  pub source : String
  pub symbol : String
  pub side : String
  pub quantity : ℤ
  pub limit_price : Option W
  pub estimated_price : W
  pub confidence : W
  pub rationale : String
  pub evidence_refs : List String

pub record PaperLedgerCandidateInstruction (W : Type 0) : Type 0 where
  pub proposal_id : String
  pub symbol : String
  pub side : String
  pub quantity : ℤ
  pub estimated_price : W
  pub limit_price : Option W
  pub estimated_notional : W
  pub reason : String
  pub evidence_refs : List String

pub record AiActionPaperBridgeResult (W : Type 0) : Type 0 where
  pub ok : Bool
  pub decision : BridgeDecision
  pub reason : String
  pub accepted_instructions : List (PaperLedgerCandidateInstruction W)
  pub blocked_proposals : List String
  pub risk_flags : List RiskFlag
