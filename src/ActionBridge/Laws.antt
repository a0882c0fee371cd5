-- ===== src/ActionBridge/Laws.antt =====
-- What the bridge of src/quantpilot_core/ai_action_paper_bridge/bridge.py lets through, and its decision.
use quant_pilot_ai_next.RiskFlags.{has_critical}
use quant_pilot_ai_next.AccountProfile.Limits.{normalize_sellable_quantities}
use quant_pilot_ai_next.DryRun.Preflight.{is_trade, is_odd_lot}
use quant_pilot_ai_next.Dict.{get_or}
use quant_pilot_ai_next.DryRun.Run.{initial_positions}
use quant_pilot_ai_next.AccountProfile.Passed.{normalize_sellable_quantities_bounds}
use quant_pilot_ai_next.DryRun.Simulate.{sellable_now, estimate_cost}
use quant_pilot_ai_next.AccountProfile.Preflight.{run_account_profile_preflight, has_evidence}
use quant_pilot_ai_next.DryRun.Steps.{IsValid}
use quant_pilot_ai_next.ActionBridge.Contracts.{
  PaperLedgerCandidateInstruction, sell_side, AiActionProposal, hold_side, buy_side,
}
use quant_pilot_ai_next.ActionBridge.Preflight.{
  to_paper_ledger_candidate, validate_ai_action_proposal, term_flags, estimate_trade_cost,
  estimated_notional_of,
}
use quant_pilot_ai_next.ActionBridge.Bridge.{
  flags_of, validate_against_account, candidate, exceeds, bridge_from, bridge_step, finish_bridge,
  run_ai_action_paper_bridge, start_bridge, BridgeState, flagged, checked,
}
use quant_pilot_ai_next.AccountProfile.Contracts.{AccountProfile}
use quant_pilot_ai_next.Base.{
  ◌≡◌, refl, true, false, [], ◌∷◌, ◌++◌, arith, Bool, is_empty, List, ◌&&◌, not, All, Bool-cases,
  inr, inl, All-append,
}
use quant_pilot_ai_next.Int.{pos, ℤ, ◌≤ℤ◌, max_ℤ, min_ℤ}
use quant_pilot_ai_next.Text.{◌==◌, is_blank}
use quant_pilot_ai_next.Float.{Float, IsIeee, lt, ◌⊗◌, ◌⊕◌, le, zero_float}

fits_both : (q a p : ℤ) → pos 1 ≤ℤ q → q ≤ℤ a → a ≤ℤ max_ℤ (pos 0) p → q ≤ℤ min_ℤ a p
fits_both q a p h k l = ground arith

is_empty-append :
    {A : Type 0} (xs ys : List A)
    → is_empty (xs ++ ys) ≡ true
    → (is_empty xs ≡ true) × (is_empty ys ≡ true)
is_empty-append [] ys h = (refl, h)
is_empty-append (x ∷ xs) ys h = absurd (ground arith)

module _ {W : Type 0} ⦃F : Float W⦄ where
  -- What the bridge makes sure of: the dry run finds nothing wrong with the instruction by itself; a sale
  -- fits the sellable shares and the position; a purchase and its costs fit the available cash; and the
  -- notional is within the largest order value, where there is one.
  pub record IsReady (profile : AccountProfile W) (allow : Bool)
      (i : PaperLedgerCandidateInstruction W) : Type 0 where
    pub valid : IsValid i allow
    pub sellable :
        i.side == sell_side ≡ true
        → i.quantity ≤ℤ sellable_now i profile (initial_positions profile)
    pub affordable :
        i.side == buy_side ≡ true
        → lt profile.cash.available_cash (
            F.of_int i.quantity ⊗ i.estimated_price
            ⊕ estimate_cost i.side i.estimated_notional profile.broker_fee)
          ≡ false
    pub small :
        exceeds (F.of_int i.quantity ⊗ i.estimated_price) profile.risk_limits.max_order_value
        ≡ false

  term_flags-parts :
      (proposal : AiActionProposal W)
      → is_empty (term_flags proposal) ≡ true
      → proposal.side == hold_side ≡ false
      → ((is_blank proposal.proposal_id ≡ false) × (is_blank proposal.symbol ≡ false))
        × (is_trade proposal.side ≡ true)
        × (pos 1 ≤ℤ proposal.quantity)
        × (le proposal.estimated_price zero_float ≡ false)
  unfolding term_flags
  term_flags-parts proposal h not_hold =
      let trade : is_trade proposal.side ≡ true = ground arith in
      ((ground arith, ground arith), trade, ground arith, ground arith)

  validated :
      (proposal : AiActionProposal W) (allow : Bool)
      → is_empty (validate_ai_action_proposal proposal allow) ≡ true
      → (is_empty (term_flags proposal) ≡ true)
        × (has_evidence proposal.evidence_refs ≡ true)
        × ((is_trade proposal.side && (is_odd_lot proposal.quantity && not allow)) ≡ false)
  unfolding validate_ai_action_proposal
  validated proposal allow h =
      let (terms, rest) = is_empty-append (term_flags proposal) _ h in
      (terms, ground arith, ground arith)

  flags_of-parts :
      (min_confidence : W) (proposal : AiActionProposal W) (allow : Bool)
      → is_empty (flags_of min_confidence allow proposal) ≡ true
      → (is_empty (term_flags proposal) ≡ true)
        × (has_evidence proposal.evidence_refs ≡ true)
        × ((is_trade proposal.side && (is_odd_lot proposal.quantity && not allow)) ≡ false)
  unfolding flags_of
  flags_of-parts min_confidence proposal allow h =
      validated proposal allow (is_empty-append (validate_ai_action_proposal proposal allow) _ h).0

  module _ (ieee : IsIeee W) where
    candidate-IsValid :
        (proposal : AiActionProposal W) (min_confidence : W) (allow : Bool)
        → is_empty (flags_of min_confidence allow proposal) ≡ true
        → proposal.side == hold_side ≡ false
        → IsValid (candidate proposal) allow
    unfolding to_paper_ledger_candidate
    candidate-IsValid proposal min_confidence allow h not_hold =
        let (terms, evident, whole_lot) = flags_of-parts min_confidence proposal allow h in
        let (named, trade, positive, priced) = term_flags-parts proposal terms not_hold in
        record {
          named = named;
          trade = trade;
          positive = positive;
          priced = priced;
          notional = ieee.sub_self_not_gt (estimated_notional_of proposal) 1 4;
          evident = evident;
          whole_lot = λ odd. ground arith;
        }

    candidate-IsReady :
        (profile : AccountProfile W) (proposal : AiActionProposal W) (allow : Bool)
        → IsValid (candidate proposal) allow
        → is_empty (validate_against_account proposal profile) ≡ true
        → IsReady profile allow (candidate proposal)
    unfolding validate_against_account to_paper_ledger_candidate run_account_profile_preflight
        estimate_trade_cost
    candidate-IsReady profile proposal allow valid h = record {
      valid = valid;
      sellable = λ e.
          fits_both proposal.quantity
            (get_or (pos 0) proposal.symbol (normalize_sellable_quantities profile))
            (get_or (pos 0) proposal.symbol (initial_positions profile)) valid.positive
            (ground arith) (normalize_sellable_quantities_bounds profile proposal.symbol).1;
      affordable = λ e. ground arith;
      small = ground arith;
    }

    bridge_step-IsReady :
        (profile : AccountProfile W) (min_confidence : W) (allow : Bool) (s : BridgeState W)
        (proposal : AiActionProposal W)
        → All (IsReady profile allow) s.accepted_instructions
        → All
            (IsReady profile allow)
            (bridge_step profile min_confidence allow s proposal).accepted_instructions
    unfolding bridge_step flagged checked
    bridge_step-IsReady profile min_confidence allow s proposal h =
        elim (Bool-cases (is_empty (flags_of min_confidence allow proposal))) [
          | inr e ↦ rw e h
          | inl e ↦ elim (Bool-cases (proposal.side == hold_side)) [
            | inl hold ↦ rw (e, hold) h
            | inr trade ↦ elim (Bool-cases (is_empty (validate_against_account proposal profile))) [
              | inr k ↦ rw (e, trade, k) h
              | inl k ↦
                  rw (e, trade, k)
                    (All-append (IsReady profile allow) s.accepted_instructions _ h (
                      candidate-IsReady profile proposal allow
                          (candidate-IsValid proposal min_confidence allow e trade) k,
                      tt,
                    ))
            ]
          ]
        ]

    bridge_from-IsReady :
        (profile : AccountProfile W) (min_confidence : W) (allow : Bool) (s : BridgeState W)
        (proposals : List (AiActionProposal W))
        → All (IsReady profile allow) s.accepted_instructions
        → All
            (IsReady profile allow)
            (bridge_from profile min_confidence allow s proposals).accepted_instructions
    unfolding bridge_from
    bridge_from-IsReady profile min_confidence allow s [] h = h
    bridge_from-IsReady profile min_confidence allow s (proposal ∷ proposals) h =
        bridge_from-IsReady profile min_confidence allow
          (bridge_step profile min_confidence allow s proposal) proposals
          (bridge_step-IsReady profile min_confidence allow s proposal h)

    finish_bridge-IsReady :
        (profile : AccountProfile W) (allow : Bool) (s : BridgeState W)
        → All (IsReady profile allow) s.accepted_instructions
        → All (IsReady profile allow) (finish_bridge s).accepted_instructions
    unfolding finish_bridge
    finish_bridge-IsReady profile allow s h = elim (Bool-cases (has_critical s.risk_flags)) [
      | inl e ↦ rw e tt
      | inr e ↦ elim (Bool-cases s.manual_review) [ inl k ↦ rw (e, k) tt | inr k ↦ rw (e, k) h ]
    ]

    -- Every instruction that the bridge accepts is ready for the dry run of the same account: the dry run
    -- finds nothing wrong with it by itself, under the same rule on odd lots; a sale fits the sellable
    -- shares and the position; a purchase and its costs fit the available cash; and the notional is
    -- within the largest order value, where there is one.
    pub run_ai_action_paper_bridge-IsReady :
        (proposals : List (AiActionProposal W)) (profile : AccountProfile W) (min_confidence : W)
        (allow : Bool)
        → All
            (IsReady profile allow)
            (run_ai_action_paper_bridge proposals profile min_confidence
              allow).accepted_instructions
    unfolding run_ai_action_paper_bridge start_bridge
    run_ai_action_paper_bridge-IsReady proposals profile min_confidence allow =
        finish_bridge-IsReady profile allow _
          (bridge_from-IsReady profile min_confidence allow (start_bridge profile) proposals tt)
