-- ===== src/DryRun/Decision.antt =====
-- The decision of a dry run (src/quantpilot_core/paper_ledger_dry_run/dry_run.py) and the proposals
-- that it names as blocked.
use quant_pilot_ai_next.RiskFlags.Unique.{unique-Distinct, contains-unique}
use quant_pilot_ai_next.Text.{Distinct, contains}
use quant_pilot_ai_next.Base.{
  String, ◌≡◌, refl, sym, ap, ◌∙◌, Bool, true, false, not, List, [], ◌∷◌, ◌++◌, append-nil,
  append_assoc, arith, any, count_if, if◌then◌else◌, ◌&&◌,
}
use quant_pilot_ai_next.Base.{◌==◌ as eq_ℕ}
use quant_pilot_ai_next.Float.{Float}
use quant_pilot_ai_next.RiskFlags.{unique}
use quant_pilot_ai_next.AccountProfile.Contracts.{AccountProfile}
use quant_pilot_ai_next.ActionBridge.Contracts.{PaperLedgerCandidateInstruction}
use quant_pilot_ai_next.DryRun.Contracts.{
  accepted, blocked, partial, PaperLedgerDryRunInstructionResult,
}
use quant_pilot_ai_next.DryRun.Run.{
  DryRunState, is_simulated, is_rejected, skipped_result, seen_state, record_result, run_round,
  step, run_from, start, decide, dry_run,
}

-- the proposals that were rejected
abbrev pub rejected_ids : {W : Type 0} → List (PaperLedgerDryRunInstructionResult W) → List String
rejected_ids [] = []
rejected_ids (r ∷ rs) =
    let rest = rejected_ids rs in if is_rejected r then r.proposal_id ∷ rest else rest

count_if-any : {A : Type 0} (p : A → Bool) (xs : List A) → eq_ℕ (count_if p xs) 0 ≡ not (any p xs)
count_if-any p [] = refl
count_if-any p (x ∷ xs) = ground (arith, count_if-any p xs)

module _ {W : Type 0} ⦃F : Float W⦄ (profile : AccountProfile W) (allow fail_fast : Bool) where
  record_result-blocked :
      (s : DryRunState W) (r : PaperLedgerDryRunInstructionResult W)
      → (record_result profile allow fail_fast s r).blocked_ids
        ≡ (if is_rejected r then s.blocked_ids ++ r.proposal_id ∷ [] else s.blocked_ids)
  unfolding record_result
  record_result-blocked s r = ground arith

  run_round-blocked :
      (skips : Bool) (s : DryRunState W) (instruction : PaperLedgerCandidateInstruction W)
      → let (r, s') = run_round profile allow fail_fast skips s instruction in
        s'.blocked_ids
        ≡ (if is_rejected r then s.blocked_ids ++ r.proposal_id ∷ [] else s.blocked_ids)
  unfolding run_round skipped_result
  run_round-blocked true s instruction = refl
  run_round-blocked false s instruction = record_result-blocked (seen_state s instruction) _

  run_from-blocked :
      (s : DryRunState W) (instructions : List (PaperLedgerCandidateInstruction W))
      → let (rs, s') = run_from profile allow fail_fast s instructions in
        s'.blocked_ids ≡ s.blocked_ids ++ rejected_ids rs
  unfolding run_from step
  run_from-blocked s [] = sym (append-nil s.blocked_ids)
  run_from-blocked s (instruction ∷ instructions) =
      let (r, s') = run_round profile allow fail_fast s.skipping s instruction in
      let rs = (run_from profile allow fail_fast s' instructions).0 in
      run_from-blocked s' instructions
      ∙ joined (is_rejected r) s.blocked_ids (rejected_ids rs) r.proposal_id s'.blocked_ids
          (run_round-blocked s.skipping s instruction)
    where
      joined :
          (b : Bool) (ids rest : List String) (id : String) (ids' : List String)
          → ids' ≡ (if b then ids ++ id ∷ [] else ids)
          → ids' ++ rest ≡ ids ++ (if b then id ∷ rest else rest)
      joined true ids rest id ids' e = rw e (append_assoc ids (id ∷ []) rest)
      joined false ids rest id ids' e = rw e

  -- A dry run is accepted exactly when no result is rejected; otherwise it is partial if it goes on
  -- after a rejection and simulated something, and blocked if not. It names as blocked exactly the
  -- proposals of the rejected results, in order, and none of them twice.
  pub dry_run_decides :
      (instructions : List (PaperLedgerCandidateInstruction W))
      → let result = dry_run instructions profile allow fail_fast in
        let results = result.instruction_results in
        (result.ok ≡ not (any is_rejected results))
        × (result.decision ≡ (
            if not (any is_rejected results)
            then accepted
            else if not fail_fast && any is_simulated results
            then partial
            else blocked))
        × (result.blocked_instruction_ids ≡ unique (rejected_ids results))
        × Distinct result.blocked_instruction_ids
        × ((id : String)
            → contains id result.blocked_instruction_ids ≡ contains id (rejected_ids results))
  unfolding dry_run decide start
  dry_run_decides instructions =
      let results = (run_from profile allow fail_fast (start profile) instructions).0 in
      let ids = (run_from profile allow fail_fast (start profile) instructions).1.blocked_ids in
      let named : ids ≡ rejected_ids results = run_from-blocked (start profile) instructions in
      (
        ground (arith, count_if-any is_rejected results),
        ground (arith, count_if-any is_rejected results, count_if-any is_simulated results),
        ap unique named,
        unique-Distinct ids,
        λ id. contains-unique id ids ∙ ap (contains id) named,
      )
