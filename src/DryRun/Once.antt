-- ===== src/DryRun/Once.antt =====
-- A proposal is simulated at most once in the loop of
-- src/quantpilot_core/paper_ledger_dry_run/dry_run.py, and every instruction has its result.
use quant_pilot_ai_next.Base.{
  String, ◌≡◌, refl, Bool, true, false, List, [], ◌∷◌, arith, map, All, All-imp, if◌then◌else◌,
  Bool-cases, inl, inr,
}
use quant_pilot_ai_next.Text.{◌==◌, contains, Distinct}
use quant_pilot_ai_next.Float.{Float}
use quant_pilot_ai_next.AccountProfile.Contracts.{AccountProfile}
use quant_pilot_ai_next.ActionBridge.Contracts.{PaperLedgerCandidateInstruction}
use quant_pilot_ai_next.DryRun.Contracts.{PaperLedgerDryRunInstructionResult}
use quant_pilot_ai_next.DryRun.Simulate.{simulate}
use quant_pilot_ai_next.DryRun.Run.{
  DryRunState, is_simulated, skipped_result, duplicate_result, seen_state, result_of, record_result,
  run_round, step, run_from, start, dry_run,
}
use quant_pilot_ai_next.DryRun.Order.{simulated_ids}

abbrev pub id_of_instruction : {W : Type 0} → PaperLedgerCandidateInstruction W → String
id_of_instruction instruction = instruction.proposal_id

abbrev pub id_of_result : {W : Type 0} → PaperLedgerDryRunInstructionResult W → String
id_of_result result = result.proposal_id

module _ {W : Type 0} ⦃F : Float W⦄ (profile : AccountProfile W) (allow fail_fast : Bool) where
  simulate-id :
      (s : DryRunState W) (instruction : PaperLedgerCandidateInstruction W)
      → (simulate instruction profile s.current_cash s.current_positions allow).proposal_id
        ≡ instruction.proposal_id
  unfolding simulate
  simulate-id s instruction = ground arith

  result_of-id :
      (s : DryRunState W) (instruction : PaperLedgerCandidateInstruction W)
      → (result_of profile allow fail_fast s instruction).proposal_id ≡ instruction.proposal_id
  unfolding result_of duplicate_result
  result_of-id s instruction = ground (arith, simulate-id s instruction)

  run_round-id :
      (skips : Bool) (s : DryRunState W) (instruction : PaperLedgerCandidateInstruction W)
      → (run_round profile allow fail_fast skips s instruction).0.proposal_id
        ≡ instruction.proposal_id
  unfolding run_round skipped_result
  run_round-id true s instruction = refl
  run_round-id false s instruction = result_of-id s instruction

  step-id :
      (s : DryRunState W) (instruction : PaperLedgerCandidateInstruction W)
      → (step profile allow fail_fast s instruction).0.proposal_id ≡ instruction.proposal_id
  unfolding step
  step-id s instruction = run_round-id s.skipping s instruction

  run_from-ids :
      (s : DryRunState W) (instructions : List (PaperLedgerCandidateInstruction W))
      → map id_of_result (run_from profile allow fail_fast s instructions).0
        ≡ map id_of_instruction instructions
  unfolding run_from
  run_from-ids s [] = refl
  run_from-ids s (instruction ∷ instructions) =
      let s' = (step profile allow fail_fast s instruction).1 in
      cc (step-id s instruction, run_from-ids s' instructions)

  -- what a round does to the proposals seen
  record Remembers (s : DryRunState W) (r : PaperLedgerDryRunInstructionResult W)
      (s' : DryRunState W) : Type 0 where
    keeps : (id : String) → contains id s'.seen_ids ≡ false → contains id s.seen_ids ≡ false
    new : is_simulated r ≡ true → contains r.proposal_id s.seen_ids ≡ false
    adds :
        (id : String)
        → is_simulated r ≡ true
        → contains id s'.seen_ids ≡ false
        → r.proposal_id == id ≡ false

  record_result-seen :
      (s : DryRunState W) (r : PaperLedgerDryRunInstructionResult W)
      → (record_result profile allow fail_fast s r).seen_ids ≡ s.seen_ids
  unfolding record_result
  record_result-seen s r = ground arith

  result_of-new :
      (s : DryRunState W) (instruction : PaperLedgerCandidateInstruction W)
      → is_simulated (result_of profile allow fail_fast s instruction) ≡ true
      → contains instruction.proposal_id s.seen_ids ≡ false
  unfolding result_of duplicate_result
  result_of-new s instruction h = ground arith

  run_round-Remembers :
      (skips : Bool) (s : DryRunState W) (instruction : PaperLedgerCandidateInstruction W)
      → let (r, s') = run_round profile allow fail_fast skips s instruction in Remembers s r s'
  unfolding run_round skipped_result
  run_round-Remembers true s instruction = record {
    keeps = λ id h. h;
    new = λ h. cc;
    adds = λ id h. cc;
  }
  run_round-Remembers false s instruction =
      let r = result_of profile allow fail_fast s instruction in
      let seen = record_result-seen (seen_state s instruction) r in
      record {
        keeps = λ id h. kept id (contains instruction.proposal_id s.seen_ids) (rw (← seen) h);
        new = λ h. rw (result_of-id s instruction) (result_of-new s instruction h);
        adds = λ id h k. rw (result_of-id s instruction) (
            added id (contains instruction.proposal_id s.seen_ids) (result_of-new s instruction h)
              (rw (← seen) k));
      }
    where
      kept :
          (id : String) (known : Bool)
          → contains id (if known then s.seen_ids else instruction.proposal_id ∷ s.seen_ids) ≡ false
          → contains id s.seen_ids ≡ false
      kept id true h = h
      kept id false h = ground arith

      added :
          (id : String) (known : Bool)
          → known ≡ false
          → contains id (if known then s.seen_ids else instruction.proposal_id ∷ s.seen_ids) ≡ false
          → instruction.proposal_id == id ≡ false
      added id true e h = cc
      added id false e h = ground arith

  step-Remembers :
      (s : DryRunState W) (instruction : PaperLedgerCandidateInstruction W)
      → let (r, s') = step profile allow fail_fast s instruction in Remembers s r s'
  unfolding step
  step-Remembers s instruction = run_round-Remembers s.skipping s instruction

  run_from-Distinct :
      (s : DryRunState W) (instructions : List (PaperLedgerCandidateInstruction W))
      → let ids = simulated_ids (run_from profile allow fail_fast s instructions).0 in
        All (λ id. contains id s.seen_ids ≡ false) ids × Distinct ids
  unfolding run_from
  run_from-Distinct s [] = (tt, tt)
  run_from-Distinct s (instruction ∷ instructions) =
      let (r, s') = step profile allow fail_fast s instruction in
      let remembers = step-Remembers s instruction in
      let ids = simulated_ids (run_from profile allow fail_fast s' instructions).0 in
      let (unseen, distinct) = run_from-Distinct s' instructions in
      let unseen_before = All-imp _ _ remembers.keeps ids unseen in
      elim (Bool-cases (is_simulated r)) [
        | inl fills ↦ rw fills (
          (remembers.new fills, unseen_before),
          (All-imp _ _ (λ id h. remembers.adds id fills h) ids unseen, distinct),
        )
        | inr not_filled ↦ rw not_filled (unseen_before, distinct)
      ]

  -- Every instruction has one result, in the order given, and no proposal is simulated twice.
  pub dry_run-Distinct :
      (instructions : List (PaperLedgerCandidateInstruction W))
      → let results = (dry_run instructions profile allow fail_fast).instruction_results in
        (map id_of_result results ≡ map id_of_instruction instructions)
        × Distinct (simulated_ids results)
  unfolding dry_run
  dry_run-Distinct instructions = (
    run_from-ids (start profile) instructions,
    (run_from-Distinct (start profile) instructions).1,
  )
