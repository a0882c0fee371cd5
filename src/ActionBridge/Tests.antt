-- ===== src/ActionBridge/Tests.antt =====
-- The bridge of src/quantpilot_core/ai_action_paper_bridge on sample proposals.
use quant_pilot_ai_next.Text.{Distinct, contains}
use quant_pilot_ai_next.AccountProfile.Preflight.{run_account_profile_preflight}
use quant_pilot_ai_next.ActionBridge.Preflight.{validate_ai_action_proposal}
use quant_pilot_ai_next.RiskFlags.{unique, account_warnings}
use quant_pilot_ai_next.ActionBridge.Decision.{all_candidates, run_ai_action_paper_bridge_decides}
use quant_pilot_ai_next.ActionBridge.Rounds.{is_barred, barred_ids}
use quant_pilot_ai_next.AccountProfile.Samples.{sample_profile}
use quant_pilot_ai_next.ActionBridge.Laws.{IsReady, run_ai_action_paper_bridge-IsReady}
use quant_pilot_ai_next.ActionBridge.Bridge.{
  run_ai_action_paper_bridge, candidate, is_unsure, finish_bridge, bridge_from, bridge_step,
  flags_of, checked, validate_against_account, start_bridge,
}
use quant_pilot_ai_next.Base.{
  ◌≡◌, refl, false, [], ◌∷◌, All, not, any, ◌||◌, if◌then◌else◌, none, List, String,
}
use quant_pilot_ai_next.Int.{ℤ, pos, ◌+ℤ◌}
use quant_pilot_ai_next.Float.{fixed, Fixed-IsIeee}
use quant_pilot_ai_next.ActionBridge.Contracts.{
  accepted_for_paper, blocked, requires_manual_review, AiActionProposal,
}

-- 200 shares sold at 10.00
abbrev sell_proposal : AiActionProposal ℤ
sell_proposal = record {
  proposal_id = "p1";
  source = "factor_agent";
  symbol = "600000";
  side = "sell";
  quantity = pos 200;
  limit_price = none;
  estimated_price = pos 1_000_000_000;
  confidence = pos 80_000_000;
  rationale = "trend";
  evidence_refs = "e1" ∷ [];
}

abbrev hold_proposal : AiActionProposal ℤ
hold_proposal = record sell_proposal { proposal_id = "p2"; side = "hold"; quantity = pos 0 }

abbrev proposals : List (AiActionProposal ℤ)
proposals = sell_proposal ∷ hold_proposal ∷ []

-- 0.6
abbrev threshold : ℤ
threshold = pos 60_000_000

bridged :
    let result = run_ai_action_paper_bridge proposals sample_profile threshold false in
    (result.decision ≡ accepted_for_paper)
    × (result.accepted_instructions ≡ candidate sell_proposal ∷ [])
unfolding run_ai_action_paper_bridge ◌+ℤ◌ finish_bridge bridge_from bridge_step flags_of
    validate_ai_action_proposal checked validate_against_account run_account_profile_preflight
    start_bridge account_warnings
bridged = (refl, refl)

run_ai_action_paper_bridge-IsReady_example :
    All
      (IsReady sample_profile false)
      (run_ai_action_paper_bridge proposals sample_profile threshold false).accepted_instructions
run_ai_action_paper_bridge-IsReady_example =
    run_ai_action_paper_bridge-IsReady Fixed-IsIeee proposals sample_profile threshold false

run_ai_action_paper_bridge_decides_example :
    let result = run_ai_action_paper_bridge proposals sample_profile threshold false in
    let barred = any (is_barred sample_profile threshold false) proposals in
    let unsure = any (is_unsure threshold) proposals in
    (result.decision
      ≡ (if barred then blocked else if unsure then requires_manual_review else accepted_for_paper))
    × (result.ok ≡ not (barred || unsure))
    × (result.accepted_instructions ≡ (if barred || unsure then [] else all_candidates proposals))
    × (result.blocked_proposals
        ≡ (if barred then unique (barred_ids sample_profile threshold false proposals) else []))
    × Distinct result.blocked_proposals
    × ((id : String)
        → contains id result.blocked_proposals
          ≡ contains id (barred_ids sample_profile threshold false proposals))
run_ai_action_paper_bridge_decides_example =
    run_ai_action_paper_bridge_decides sample_profile threshold false proposals
