-- ===== src/ActionBridge/Decision.antt =====
-- How the bridge of src/quantpilot_core/ai_action_paper_bridge/bridge.py decides, by the proposals alone,
-- and which proposals it names and accepts.
use quant_pilot_ai_next.Base.{
  String, ◌≡◌, refl, ap, ◌∙◌, Bool, true, false, not, ◌||◌, List, [], ◌∷◌, ◌++◌, arith, any,
  any-append, is_empty, if◌then◌else◌, Bool-cases, inl, inr,
}
use quant_pilot_ai_next.RiskFlags.{RiskFlag, has_critical, is_critical, unique}
use quant_pilot_ai_next.RiskFlags.Unique.{unique-Distinct, contains-unique}
use quant_pilot_ai_next.Float.{Float}
use quant_pilot_ai_next.Text.{◌==◌, contains, Distinct}
use quant_pilot_ai_next.AccountProfile.Contracts.{AccountProfile}
use quant_pilot_ai_next.DryRun.Steps.{Blocks}
use quant_pilot_ai_next.ActionBridge.Contracts.{
  AiActionProposal, PaperLedgerCandidateInstruction, hold_side, blocked, requires_manual_review,
  accepted_for_paper,
}
use quant_pilot_ai_next.ActionBridge.Preflight.{term_flags, validate_ai_action_proposal}
use quant_pilot_ai_next.ActionBridge.Bridge.{
  flags_of, is_unsure, candidate, validate_against_account, BridgeState, start_bridge, bridge_from,
  run_ai_action_paper_bridge, finish_bridge,
}
use quant_pilot_ai_next.ActionBridge.Rounds.{
  is_barred, candidates, barred_ids, account-Blocks, bridge_from-AddsAll, start_bridge-Clear,
}

Blocks-append : (xs ys : List RiskFlag) → Blocks xs → Blocks ys → Blocks (xs ++ ys)
Blocks-append [] ys h k e = k e
Blocks-append (x ∷ xs) ys h k e = ground (arith, any-append is_critical (x ∷ xs) ys)

module _ {W : Type 0} ⦃F : Float W⦄ where
  term_flags-Blocks : (proposal : AiActionProposal W) → Blocks (term_flags proposal)
  unfolding term_flags
  term_flags-Blocks proposal e = ground arith

  validate_ai_action_proposal-Blocks :
      (proposal : AiActionProposal W) (allow : Bool)
      → Blocks (validate_ai_action_proposal proposal allow)
  unfolding validate_ai_action_proposal
  validate_ai_action_proposal-Blocks proposal allow =
      Blocks-append (term_flags proposal) _ (term_flags-Blocks proposal) λ e. ground arith

  -- A sure proposal without a critical flag has no flag at all.
  sure_flags :
      (min_confidence : W) (allow : Bool) (proposal : AiActionProposal W)
      → is_unsure min_confidence proposal ≡ false
      → has_critical (flags_of min_confidence allow proposal) ≡ false
      → is_empty (flags_of min_confidence allow proposal) ≡ true
  unfolding flags_of
  sure_flags min_confidence allow proposal sure safe = ground (
    arith,
    validate_ai_action_proposal-Blocks proposal allow,
    any-append is_critical (validate_ai_action_proposal proposal allow) [],
  )

module _ {W : Type 0} ⦃F : Float W⦄ where
  -- the candidates of all proposals but those to hold
  abbrev pub all_candidates : List (AiActionProposal W) → List (PaperLedgerCandidateInstruction W)
  all_candidates [] = []
  all_candidates (proposal ∷ proposals) =
      let rest = all_candidates proposals in
      if proposal.side == hold_side then rest else candidate proposal ∷ rest

module _ {W : Type 0} ⦃F : Float W⦄ (profile : AccountProfile W) (min_confidence : W)
    (allow : Bool) where
  -- A proposal that is sure and not barred has no flags.
  unflagged :
      (proposal : AiActionProposal W)
      → is_barred profile min_confidence allow proposal ≡ false
      → is_unsure min_confidence proposal ≡ false
      → (is_empty (flags_of min_confidence allow proposal) ≡ true)
        × ((proposal.side == hold_side ≡ false)
            → is_empty (validate_against_account proposal profile) ≡ true)
  unflagged proposal safe sure =
      let own : is_empty (flags_of min_confidence allow proposal) ≡ true =
        sure_flags min_confidence allow proposal sure (ground arith) in
      (own, λ trade. ground (arith, account-Blocks profile min_confidence allow proposal))

  candidates_all :
      (proposals : List (AiActionProposal W))
      → any (is_barred profile min_confidence allow) proposals ≡ false
      → any (is_unsure min_confidence) proposals ≡ false
      → candidates profile min_confidence allow proposals ≡ all_candidates proposals
  candidates_all [] safe sure = refl
  candidates_all (proposal ∷ proposals) safe sure =
      let (own, account) = unflagged proposal (ground arith) (ground arith) in
      let rest = candidates_all proposals (ground arith) (ground arith) in
      ground (arith, own, account, rest)

  all_accepted :
      (proposals : List (AiActionProposal W))
      → let closed =
          any (is_barred profile min_confidence allow) proposals
          || any (is_unsure min_confidence) proposals in
        (if closed then [] else candidates profile min_confidence allow proposals)
        ≡ (if closed then [] else all_candidates proposals)
  all_accepted proposals =
      elim (Bool-cases (
        any (is_barred profile min_confidence allow) proposals
        || any (is_unsure min_confidence) proposals)) [
          | inl closed ↦ rw closed refl
          | inr through ↦ rw through (candidates_all proposals (ground arith) (ground arith))
        ]

  none_barred :
      (proposals : List (AiActionProposal W))
      → any (is_barred profile min_confidence allow) proposals ≡ false
      → barred_ids profile min_confidence allow proposals ≡ []
  none_barred [] safe = refl
  none_barred (proposal ∷ proposals) safe = ground (arith, none_barred proposals (ground arith))

  named_ids :
      (proposals : List (AiActionProposal W))
      → let ids = barred_ids profile min_confidence allow proposals in
        let named =
          if any (is_barred profile min_confidence allow) proposals then unique ids else [] in
        Distinct named × ((id : String) → contains id named ≡ contains id ids)
  named_ids proposals =
      let ids = barred_ids profile min_confidence allow proposals in
      elim (Bool-cases (any (is_barred profile min_confidence allow) proposals)) [
        | inl barred ↦ rw barred (unique-Distinct ids, λ id. contains-unique id ids)
        | inr safe ↦ rw safe (tt, λ id. rw (none_barred proposals safe) refl)
      ]

  finished :
      (s : BridgeState W) (barred unsure : Bool)
      (accepted : List (PaperLedgerCandidateInstruction W)) (ids : List String)
      → has_critical s.risk_flags ≡ barred
      → s.manual_review ≡ unsure
      → s.accepted_instructions ≡ accepted
      → s.blocked_proposals ≡ ids
      → let result = finish_bridge s in
        (result.decision ≡ (
          if barred
          then blocked
          else if unsure
          then requires_manual_review
          else accepted_for_paper))
        × (result.ok ≡ not (barred || unsure))
        × (result.accepted_instructions ≡ (if barred || unsure then [] else accepted))
        × (result.blocked_proposals ≡ (if barred then unique ids else []))
  unfolding finish_bridge
  finished s true unsure accepted ids e f g h = rw e (refl, refl, refl, ap unique h)
  finished s false true accepted ids e f g h = rw (e, f) (refl, refl, refl, refl)
  finished s false false accepted ids e f g h = rw (e, f) (refl, refl, g, refl)

  -- The bridge decides by the proposals alone, whatever the account's own preflight says: it blocks
  -- exactly when a proposal has a critical flag of its own or against the account, and then names exactly
  -- those proposals, in order and none of them twice, and accepts nothing; else it asks for a review
  -- exactly when a proposal's confidence is below the minimum, and accepts nothing; else it accepts the
  -- candidates of all proposals but those to hold, in order.
  pub run_ai_action_paper_bridge_decides :
      (proposals : List (AiActionProposal W))
      → let result = run_ai_action_paper_bridge proposals profile min_confidence allow in
        let barred = any (is_barred profile min_confidence allow) proposals in
        let unsure = any (is_unsure min_confidence) proposals in
        (result.decision ≡ (
          if barred
          then blocked
          else if unsure
          then requires_manual_review
          else accepted_for_paper))
        × (result.ok ≡ not (barred || unsure))
        × (result.accepted_instructions
            ≡ (if barred || unsure then [] else all_candidates proposals))
        × (result.blocked_proposals
            ≡ (if barred then unique (barred_ids profile min_confidence allow proposals) else []))
        × Distinct result.blocked_proposals
        × ((id : String)
            → contains id result.blocked_proposals
              ≡ contains id (barred_ids profile min_confidence allow proposals))
  unfolding run_ai_action_paper_bridge
  run_ai_action_paper_bridge_decides proposals =
      let (clear, no_review, no_accepted, no_ids) =
        start_bridge-Clear profile min_confidence allow in
      let all = bridge_from-AddsAll profile min_confidence allow (start_bridge profile) proposals in
      let (decision, ok, accepted, named) =
        finished (bridge_from profile min_confidence allow (start_bridge profile) proposals) _ _ _ _
          (all.critical ∙ rw clear refl) (all.review ∙ rw no_review refl)
          (all.accepted ∙ rw no_accepted refl) (all.ids ∙ rw no_ids refl) in
      let (distinct, same) = named_ids proposals in
      (
        decision,
        ok,
        accepted ∙ all_accepted proposals,
        named,
        rw named distinct,
        λ id. ap (contains id) named ∙ same id,
      )
