-- ===== src/DryRun/Order.antt =====
-- Which instructions the loop of src/quantpilot_core/paper_ledger_dry_run/dry_run.py answers, in which
-- order, and what the decision says about them.
use quant_pilot_ai_next.Base.{
  String, ◌≡◌, refl, Bool, true, false, ◌||◌, List, [], ◌∷◌, arith, ap, All, if◌then◌else◌, inl,
  inr, ◌⊎◌,
}
use quant_pilot_ai_next.Float.{Float}
use quant_pilot_ai_next.AccountProfile.Contracts.{AccountProfile}
use quant_pilot_ai_next.ActionBridge.Contracts.{PaperLedgerCandidateInstruction}
use quant_pilot_ai_next.DryRun.Contracts.{skipped, PaperLedgerDryRunInstructionResult}
use quant_pilot_ai_next.DryRun.Run.{
  DryRunState, is_simulated, is_rejected, skipped_result, seen_state, result_of, record_result,
  run_round, step, run_from, start, dry_run,
}
use quant_pilot_ai_next.DryRun.Steps.{Outcome, result_of-Outcome}

-- the results of a run that stops at a rejection: simulated ones, then at most one rejected one, and
-- skipped ones after that
abbrev pub FailFast : {W : Type 0} → List (PaperLedgerDryRunInstructionResult W) → Type 0
FailFast [] = Unit
FailFast (r ∷ rs) =
    ((is_simulated r ≡ true) × FailFast rs)
    ⊎ ((is_rejected r ≡ true) × All (λ later. later.status ≡ skipped) rs)

-- the proposals that were simulated
abbrev pub simulated_ids : {W : Type 0} → List (PaperLedgerDryRunInstructionResult W) → List String
simulated_ids [] = []
simulated_ids (r ∷ rs) =
    let rest = simulated_ids rs in if is_simulated r then r.proposal_id ∷ rest else rest

module _ {W : Type 0} ⦃F : Float W⦄ (profile : AccountProfile W) (allow : Bool) where
  step-skips :
      (s : DryRunState W) (fail_fast : Bool) (instruction : PaperLedgerCandidateInstruction W)
      → s.skipping ≡ true
      → step profile allow fail_fast s instruction ≡ (skipped_result instruction, s)
  unfolding step run_round
  step-skips s fail_fast instruction h =
      ap (λ b. run_round profile allow fail_fast b s instruction) h

  pub step-goes :
      (s : DryRunState W) (fail_fast : Bool) (instruction : PaperLedgerCandidateInstruction W)
      → s.skipping ≡ false
      → let r = result_of profile allow fail_fast s instruction in
        step profile allow fail_fast s instruction
        ≡ (r, record_result profile allow fail_fast (seen_state s instruction) r)
  unfolding step run_round
  step-goes s fail_fast instruction h =
      ap (λ b. run_round profile allow fail_fast b s instruction) h

  skipping-skips :
      (s : DryRunState W) (fail_fast : Bool)
      (instructions : List (PaperLedgerCandidateInstruction W))
      → s.skipping ≡ true
      → All (λ r. r.status ≡ skipped) (run_from profile allow fail_fast s instructions).0
  unfolding run_from skipped_result
  skipping-skips s fail_fast [] h = tt
  skipping-skips s fail_fast (instruction ∷ instructions) h =
      rw (step-skips s fail_fast instruction h) (refl, skipping-skips s fail_fast instructions h)

  recorded :
      (s : DryRunState W) (fail_fast : Bool) (r : PaperLedgerDryRunInstructionResult W)
      → Outcome s.current_positions r
      → s.skipping ≡ false
      → let s' = record_result profile allow fail_fast s r in
        ((is_simulated r ≡ true) × (is_rejected r ≡ false) × (s'.skipping ≡ false))
        ⊎ ((is_simulated r ≡ false) × (is_rejected r ≡ true) × (s'.skipping ≡ fail_fast))
  unfolding record_result
  recorded s fail_fast r (Outcome.filled e f g fits) h = inl (f, e, ground arith)
  recorded s fail_fast r (Outcome.refused e f g) h = inr (f, e, ground arith)

  -- one round that does not skip
  round-Outcome :
      (s : DryRunState W) (fail_fast : Bool) (instruction : PaperLedgerCandidateInstruction W)
      → s.skipping ≡ false
      → let (r, s') = step profile allow fail_fast s instruction in
        ((is_simulated r ≡ true) × (is_rejected r ≡ false) × (s'.skipping ≡ false))
        ⊎ ((is_simulated r ≡ false) × (is_rejected r ≡ true) × (s'.skipping ≡ fail_fast))
  round-Outcome s fail_fast instruction h = rw (step-goes s fail_fast instruction h) (
      recorded (seen_state s instruction) fail_fast
        (result_of profile allow fail_fast s instruction)
        (result_of-Outcome profile allow fail_fast s instruction) h)

  run_from-FailFast :
      (s : DryRunState W) (instructions : List (PaperLedgerCandidateInstruction W))
      → s.skipping ≡ false
      → FailFast (run_from profile allow true s instructions).0
  unfolding run_from
  run_from-FailFast s [] h = tt
  run_from-FailFast s (instruction ∷ instructions) h =
      let s' = (step profile allow true s instruction).1 in
      elim (round-Outcome s true instruction h) [
        | inl (fills, kept, goes) ↦ inl (fills, run_from-FailFast s' instructions goes)
        | inr (stays, refuses, skips) ↦ inr (refuses, skipping-skips s' true instructions skips)
      ]

  run_from-no_skips :
      (s : DryRunState W) (instructions : List (PaperLedgerCandidateInstruction W))
      → s.skipping ≡ false
      → All
          (λ r. is_simulated r || is_rejected r ≡ true)
          (run_from profile allow false s instructions).0
  unfolding run_from
  run_from-no_skips s [] h = tt
  run_from-no_skips s (instruction ∷ instructions) h =
      let s' = (step profile allow false s instruction).1 in
      elim (round-Outcome s false instruction h) [
        | inl (fills, kept, goes) ↦ (ground arith, run_from-no_skips s' instructions goes)
        | inr (stays, refuses, goes) ↦ (ground arith, run_from-no_skips s' instructions goes)
      ]

  -- A dry run that fails fast stops at the first rejection: the instructions before it are simulated,
  -- and those after it are skipped. One that does not fail fast skips none.
  pub dry_run-FailFast :
      (instructions : List (PaperLedgerCandidateInstruction W))
      → FailFast (dry_run instructions profile allow true).instruction_results
        × All
            (λ r. is_simulated r || is_rejected r ≡ true)
            (dry_run instructions profile allow false).instruction_results
  unfolding dry_run start
  dry_run-FailFast instructions = (
    run_from-FailFast (start profile) instructions refl,
    run_from-no_skips (start profile) instructions refl,
  )
