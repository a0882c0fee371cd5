-- ===== src/ActionBridge/Rounds.antt =====
-- What the loop of src/quantpilot_core/ai_action_paper_bridge/bridge.py adds to its variables, by the
-- proposals alone.
use quant_pilot_ai_next.AccountProfile.Preflight.{run_account_profile_preflight}
use quant_pilot_ai_next.DryRun.Steps.{Blocks}
use quant_pilot_ai_next.ActionBridge.Contracts.{
  AiActionProposal, PaperLedgerCandidateInstruction, hold_side,
}
use quant_pilot_ai_next.ActionBridge.Bridge.{
  validate_against_account, bridge_step, BridgeState, flagged, flags_of, checked, is_unsure,
  candidate, start_bridge, bridge_from,
}
use quant_pilot_ai_next.AccountProfile.Contracts.{AccountProfile}
use quant_pilot_ai_next.Base.{
  ◌≡◌, refl, true, false, [], ◌∷◌, ◌++◌, arith, any-append, ◌||◌, append-nil, Bool, List, String,
  if◌then◌else◌, is_empty, ◌&&◌, not, any, sym, map, ◌∙◌, ap, append_assoc,
}
use quant_pilot_ai_next.Text.{◌==◌}
use quant_pilot_ai_next.RiskFlags.{
  RiskFlag, has_critical, is_critical, account_warnings, medium, criticals,
}
use Prim.Native.String
use quant_pilot_ai_next.Float.{Float}

no_critical : (flags : List RiskFlag) → is_empty flags ≡ true → has_critical flags ≡ false
no_critical [] h = refl
no_critical (flag ∷ flags) h = absurd (ground arith)

module _ {W : Type 0} ⦃F : Float W⦄ (profile : AccountProfile W) (min_confidence : W)
    (allow : Bool) where
  -- the flags of a proposal, and for a trade without any those against the account
  abbrev pub own_flags : AiActionProposal W → List RiskFlag
  own_flags proposal = flags_of min_confidence allow proposal

  abbrev pub account_flags_of : AiActionProposal W → List RiskFlag
  account_flags_of proposal =
      if is_empty (own_flags proposal) && not (proposal.side == hold_side)
      then validate_against_account proposal profile
      else []

  abbrev pub is_barred : AiActionProposal W → Bool
  is_barred proposal = has_critical (own_flags proposal) || has_critical (account_flags_of proposal)

  -- the candidates of the trades that have no flags
  abbrev pub candidates : List (AiActionProposal W) → List (PaperLedgerCandidateInstruction W)
  candidates [] = []
  candidates (proposal ∷ proposals) =
      let rest = candidates proposals in
      if is_empty (own_flags proposal)
        && (not (proposal.side == hold_side)
            && is_empty (validate_against_account proposal profile))
      then candidate proposal ∷ rest
      else rest

  abbrev pub barred_ids : List (AiActionProposal W) → List String
  barred_ids [] = []
  barred_ids (proposal ∷ proposals) =
      let rest = barred_ids proposals in
      if is_barred proposal then proposal.proposal_id ∷ rest else rest

  pub account-Blocks :
      (proposal : AiActionProposal W) → Blocks (validate_against_account proposal profile)
  unfolding validate_against_account
  account-Blocks proposal h = ground arith

  -- what a round adds to the variables
  record Adds (s : BridgeState W) (proposal : AiActionProposal W) (s' : BridgeState W)
      : Type 0 where
    critical : has_critical s'.risk_flags ≡ (has_critical s.risk_flags || is_barred proposal)
    review : s'.manual_review ≡ (s.manual_review || is_unsure min_confidence proposal)
    accepted : s'.accepted_instructions ≡ s.accepted_instructions ++ candidates (proposal ∷ [])
    ids : s'.blocked_proposals ≡ s.blocked_proposals ++ barred_ids (proposal ∷ [])

  bridge_step-Adds :
      (s : BridgeState W) (proposal : AiActionProposal W)
      → Adds s proposal (bridge_step profile min_confidence allow s proposal)
  unfolding bridge_step flagged checked
  bridge_step-Adds s proposal = record {
    critical = ground (
      arith,
      any-append is_critical s.risk_flags (flags_of min_confidence allow proposal),
      any-append is_critical s.risk_flags (validate_against_account proposal profile),
      no_critical (flags_of min_confidence allow proposal),
      no_critical (validate_against_account proposal profile),
    );
    review = ground (arith, account-Blocks proposal);
    accepted = ground (arith, append-nil s.accepted_instructions);
    ids = ground (
      arith,
      append-nil s.blocked_proposals,
      no_critical (flags_of min_confidence allow proposal),
      no_critical (validate_against_account proposal profile),
    );
  }

  -- what the loop adds to the variables
  pub record AddsAll (s : BridgeState W) (proposals : List (AiActionProposal W))
      (s' : BridgeState W) : Type 0 where
    pub critical :
        has_critical s'.risk_flags ≡ (has_critical s.risk_flags || any is_barred proposals)
    pub review : s'.manual_review ≡ (s.manual_review || any (is_unsure min_confidence) proposals)
    pub accepted : s'.accepted_instructions ≡ s.accepted_instructions ++ candidates proposals
    pub ids : s'.blocked_proposals ≡ s.blocked_proposals ++ barred_ids proposals

  candidates-cons :
      (proposal : AiActionProposal W) (proposals : List (AiActionProposal W))
      → candidates (proposal ∷ []) ++ candidates proposals ≡ candidates (proposal ∷ proposals)
  candidates-cons proposal proposals = ground arith

  barred_ids-cons :
      (proposal : AiActionProposal W) (proposals : List (AiActionProposal W))
      → barred_ids (proposal ∷ []) ++ barred_ids proposals ≡ barred_ids (proposal ∷ proposals)
  barred_ids-cons proposal proposals = ground arith

  pub bridge_from-AddsAll :
      (s : BridgeState W) (proposals : List (AiActionProposal W))
      → AddsAll s proposals (bridge_from profile min_confidence allow s proposals)
  unfolding bridge_from
  bridge_from-AddsAll s [] = record {
    critical = ground arith;
    review = ground arith;
    accepted = sym (append-nil s.accepted_instructions);
    ids = sym (append-nil s.blocked_proposals);
  }
  bridge_from-AddsAll s (proposal ∷ proposals) =
      let s' = bridge_step profile min_confidence allow s proposal in
      let one = bridge_step-Adds s proposal in
      let rest = bridge_from-AddsAll s' proposals in
      record {
        critical = ground (arith, rest.critical, one.critical);
        review = ground (arith, rest.review, one.review);
        accepted =
            rest.accepted
            ∙ ap (λ xs. xs ++ candidates proposals) one.accepted
            ∙ append_assoc s.accepted_instructions (candidates (proposal ∷ []))
                (candidates proposals)
            ∙ ap (λ xs. s.accepted_instructions ++ xs) (candidates-cons proposal proposals);
        ids =
            rest.ids
            ∙ ap (λ xs. xs ++ barred_ids proposals) one.ids
            ∙ append_assoc s.blocked_proposals (barred_ids (proposal ∷ [])) (barred_ids proposals)
            ∙ ap (λ xs. s.blocked_proposals ++ xs) (barred_ids-cons proposal proposals);
      }

  pub start_bridge-Clear :
      (has_critical (start_bridge profile).risk_flags ≡ false)
      × ((start_bridge profile).manual_review ≡ false)
      × ((start_bridge profile).accepted_instructions ≡ [])
      × ((start_bridge profile).blocked_proposals ≡ [])
  unfolding start_bridge account_warnings
  start_bridge-Clear = (
    mediums (criticals (run_account_profile_preflight profile false false).risk_flags),
    refl,
    refl,
    refl,
  )
    where
      mediums :
          (flags : List RiskFlag)
          → has_critical (
              map
                (λ (flag : RiskFlag).
                  medium
                    (String.◌++◌ "account_preflight:" flag.code)
                    (String.◌++◌ "Account preflight warning for paper bridge: " flag.message))
                flags)
            ≡ false
      mediums [] = refl
      mediums (flag ∷ flags) = mediums flags
