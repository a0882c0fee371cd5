-- ===== src/DryRun/Steps.antt =====
-- What one instruction does in the dry run of src/quantpilot_core/paper_ledger_dry_run/dry_run.py.
use quant_pilot_ai_next.DryRun.Run.{
  is_rejected, is_simulated, result_of, duplicate_result, DryRunState,
}
use quant_pilot_ai_next.DryRun.Contracts.{PaperLedgerDryRunInstructionResult}
use quant_pilot_ai_next.Base.{
  ◌≡◌, refl, Bool, true, false, List, [], ◌∷◌, arith, is_empty, Bool-cases, inl, inr,
}
use quant_pilot_ai_next.Int.{ℤ, pos, ◌≤ℤ◌, ◌+ℤ◌, ◌-ℤ◌, int_laws}
use quant_pilot_ai_next.Text.{is_blank, ◌==◌, contains}
use quant_pilot_ai_next.Dict.{Dict, get_or}
use quant_pilot_ai_next.Float.{Float, ◌⊖◌, lt, le, zero_float}
use quant_pilot_ai_next.RiskFlags.{RiskFlag, has_critical}
use quant_pilot_ai_next.AccountProfile.Contracts.{AccountProfile}
use quant_pilot_ai_next.AccountProfile.Preflight.{has_evidence}
use quant_pilot_ai_next.ActionBridge.Contracts.{PaperLedgerCandidateInstruction, buy_side}
use quant_pilot_ai_next.DryRun.Preflight.{
  is_trade, is_odd_lot, notional_tolerance, expected_notional, validate_dry_run_instruction,
}
use quant_pilot_ai_next.DryRun.Simulate.{
  estimate_cost, account_flags, simulation_flags, simulated_result, instruction_result, simulate,
}

-- flags that block if there are any: a list that is empty or has a critical flag
abbrev pub Blocks : List RiskFlag → Type 0
Blocks flags = is_empty flags ≡ false → has_critical flags ≡ true

pub sub_fits : (q p : ℤ) → q ≤ℤ p → pos 0 ≤ℤ p +ℤ (pos 0 -ℤ q)
sub_fits q p h = omega int_laws

pub add_fits : (q p : ℤ) → pos 1 ≤ℤ q → pos 0 ≤ℤ p → pos 0 ≤ℤ p +ℤ q
add_fits q p h k = omega int_laws

module _ {W : Type 0} ⦃F : Float W⦄ where
  -- What a dry run asks of an instruction by itself: names, evidence, a side, a positive quantity in
  -- whole lots unless odd lots are allowed, a positive price and the notional of both.
  pub record IsValid (instruction : PaperLedgerCandidateInstruction W) (allow_odd_lot : Bool)
      : Type 0 where
    pub named : (is_blank instruction.proposal_id ≡ false) × (is_blank instruction.symbol ≡ false)
    pub trade : is_trade instruction.side ≡ true
    pub positive : pos 1 ≤ℤ instruction.quantity
    pub priced : le instruction.estimated_price zero_float ≡ false
    pub notional :
        lt notional_tolerance (
          F.abs (
            instruction.estimated_notional
            ⊖ expected_notional instruction.quantity instruction.estimated_price))
        ≡ false
    pub evident : has_evidence instruction.evidence_refs ≡ true
    pub whole_lot : allow_odd_lot ≡ false → is_odd_lot instruction.quantity ≡ false

  pub validate-IsValid :
      (instruction : PaperLedgerCandidateInstruction W) (allow : Bool)
      → is_empty (validate_dry_run_instruction instruction allow) ≡ true
      → IsValid instruction allow
  unfolding validate_dry_run_instruction
  validate-IsValid instruction allow h = ground arith

  pub validate_valid :
      (instruction : PaperLedgerCandidateInstruction W) (allow : Bool)
      → IsValid instruction allow
      → validate_dry_run_instruction instruction allow ≡ []
  unfolding validate_dry_run_instruction
  validate_valid instruction allow h = ground arith

  validate-Blocks :
      (instruction : PaperLedgerCandidateInstruction W) (allow : Bool)
      → Blocks (validate_dry_run_instruction instruction allow)
  unfolding validate_dry_run_instruction
  validate-Blocks instruction allow e = ground arith

  account-Blocks :
      (instruction : PaperLedgerCandidateInstruction W) (profile : AccountProfile W) (fee cash : W)
      (positions : Dict ℤ)
      → Blocks (account_flags instruction profile fee cash positions)
  unfolding account_flags
  account-Blocks instruction profile fee cash positions e = ground arith

  simulation-Blocks :
      (instruction : PaperLedgerCandidateInstruction W) (profile : AccountProfile W) (cash : W)
      (positions : Dict ℤ) (allow : Bool)
      → Blocks (simulation_flags instruction profile cash positions allow)
  unfolding simulation_flags
  simulation-Blocks instruction profile cash positions allow e = ground (
    arith,
    validate-Blocks instruction allow,
    account-Blocks instruction profile
        (estimate_cost instruction.side instruction.estimated_notional profile.broker_fee) cash
        positions,
  )

  -- What the result of an instruction says, whether it is simulated or seen before: a simulated one has
  -- no flags and leaves the position of its symbol as large as zero, if it was; a rejected one has a
  -- critical flag and no deltas.
  pub data Outcome (positions : Dict ℤ) (r : PaperLedgerDryRunInstructionResult W) : Type 0 where
    filled :
        is_rejected r ≡ false
        → is_simulated r ≡ true
        → r.risk_flags ≡ []
        → (pos 0 ≤ℤ get_or (pos 0) r.symbol positions
            → pos 0 ≤ℤ get_or (pos 0) r.symbol positions +ℤ r.estimated_position_delta)
        → Outcome positions r
    refused :
        is_rejected r ≡ true
        → is_simulated r ≡ false
        → has_critical r.risk_flags ≡ true
        → Outcome positions r

  sell_fits :
      (instruction : PaperLedgerCandidateInstruction W) (profile : AccountProfile W) (fee cash : W)
      (positions : Dict ℤ)
      → is_empty (account_flags instruction profile fee cash positions) ≡ true
      → instruction.side == buy_side ≡ false
      → is_trade instruction.side ≡ true
      → instruction.quantity ≤ℤ get_or (pos 0) instruction.symbol positions
  unfolding account_flags
  sell_fits instruction profile fee cash positions h e t = ground arith

  simulation-parts :
      (instruction : PaperLedgerCandidateInstruction W) (profile : AccountProfile W) (cash : W)
      (positions : Dict ℤ) (allow : Bool)
      → let fee =
          estimate_cost instruction.side instruction.estimated_notional profile.broker_fee in
        simulation_flags instruction profile cash positions allow ≡ []
        → IsValid instruction allow
          × (is_empty (account_flags instruction profile fee cash positions) ≡ true)
  unfolding simulation_flags
  simulation-parts instruction profile cash positions allow h =
      (validate-IsValid instruction allow (ground arith), ground arith)

  simulated-Outcome :
      (instruction : PaperLedgerCandidateInstruction W) (profile : AccountProfile W) (cash : W)
      (positions : Dict ℤ) (allow : Bool) (flags : List RiskFlag)
      → simulation_flags instruction profile cash positions allow ≡ flags
      → Outcome positions (simulated_result instruction profile flags)
  unfolding simulated_result instruction_result
  simulated-Outcome instruction profile cash positions allow [] h =
      let (valid, affordable) = simulation-parts instruction profile cash positions allow h in
      elim (Bool-cases (instruction.side == buy_side)) [
        | inl buys ↦
            rw (simulated_result, buys)
              (filled refl refl refl (λ p. add_fits instruction.quantity _ valid.positive p))
        | inr sells ↦
            rw (simulated_result, sells)
              (filled refl refl refl (λ p.
                sub_fits instruction.quantity _
                  (sell_fits instruction profile _ cash positions affordable sells valid.trade)))
      ]
  simulated-Outcome instruction profile cash positions allow (flag ∷ flags) h =
      refused refl refl (ground (arith, simulation-Blocks instruction profile cash positions allow))

  pub result_of-Outcome :
      (profile : AccountProfile W) (allow fail_fast : Bool) (s : DryRunState W)
      (instruction : PaperLedgerCandidateInstruction W)
      → Outcome s.current_positions (result_of profile allow fail_fast s instruction)
  unfolding result_of duplicate_result simulate
  result_of-Outcome profile allow fail_fast s instruction =
      elim (Bool-cases (contains instruction.proposal_id s.seen_ids)) [
        | inl seen ↦ rw (result_of, seen) (refused refl refl refl)
        | inr new ↦
            rw (result_of, new)
              (simulated-Outcome instruction profile s.current_cash s.current_positions allow _
                refl)
      ]
