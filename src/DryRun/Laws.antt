-- ===== src/DryRun/Laws.antt =====
-- What holds of the whole loop of src/quantpilot_core/paper_ledger_dry_run/dry_run.py.
use quant_pilot_ai_next.Base.{
  String, ◌≡◌, refl, sym, ap, ◌∙◌, Bool, true, false, ◌&&◌, List, [], ◌∷◌, arith, if◌then◌else◌,
}
use quant_pilot_ai_next.Int.{ℤ, pos, ◌≤ℤ◌, ◌+ℤ◌, +ℤ-zero, +ℤ_assoc}
use quant_pilot_ai_next.Text.{◌==◌, eq_iff}
use quant_pilot_ai_next.Dict.{Dict, get_or, get_or-insert}
use quant_pilot_ai_next.Float.{Float, ◌⊕◌, round}
use quant_pilot_ai_next.AccountProfile.Contracts.{AccountProfile}
use quant_pilot_ai_next.ActionBridge.Contracts.{PaperLedgerCandidateInstruction}
use quant_pilot_ai_next.DryRun.Contracts.{PaperLedgerDryRunInstructionResult}
use quant_pilot_ai_next.DryRun.Run.{
  DryRunState, is_simulated, add_position, initial_positions, skipped_result, result_of,
  record_result, step, run_from, start, dry_run, seen_state, run_round,
}
use quant_pilot_ai_next.DryRun.Steps.{Outcome, result_of-Outcome}

-- how the simulated results change the position of a symbol
abbrev pub position_change : {W : Type 0} → String → List (PaperLedgerDryRunInstructionResult W) → ℤ
position_change symbol [] = pos 0
position_change symbol (r ∷ rs) =
    let rest = position_change symbol rs in
    if is_simulated r && r.symbol == symbol then r.estimated_position_delta +ℤ rest else rest

-- no position is short
abbrev pub NoShort : Dict ℤ → Type 0
NoShort positions = (symbol : String) → pos 0 ≤ℤ get_or (pos 0) symbol positions

pub add_position-get_or :
    (symbol other : String) (delta : ℤ) (positions : Dict ℤ)
    → get_or (pos 0) other (add_position symbol delta positions) ≡ (
        if symbol == other
        then get_or (pos 0) other positions +ℤ delta
        else get_or (pos 0) other positions)
add_position-get_or symbol other delta positions = ground (
  arith,
  eq_iff symbol other,
  get_or-insert (pos 0) symbol other (get_or (pos 0) symbol positions +ℤ delta) positions,
)

pub shifted :
    (b : Bool) (p p' d rest : ℤ)
    → p' ≡ (if b then p +ℤ d else p)
    → p' +ℤ rest ≡ p +ℤ (if b then d +ℤ rest else rest)
shifted true p p' d rest e = rw e (+ℤ_assoc p d rest)
shifted false p p' d rest e = rw e

module _ {W : Type 0} ⦃F : Float W⦄ where
  -- the cash after the simulated results, each of which is rounded to four places
  abbrev pub cash_after : W → List (PaperLedgerDryRunInstructionResult W) → W
  cash_after cash [] = cash
  cash_after cash (r ∷ rs) =
      cash_after (if is_simulated r then round (cash ⊕ r.estimated_cash_delta) 4 else cash) rs

  -- one round changes the cash and the positions by its result, and by nothing else
  record Accounts (s : DryRunState W) (r : PaperLedgerDryRunInstructionResult W)
      (s' : DryRunState W) : Type 0 where
    cash : s'.current_cash ≡ (
        if is_simulated r
        then round (s.current_cash ⊕ r.estimated_cash_delta) 4
        else s.current_cash)
    position :
        (symbol : String)
        → get_or (pos 0) symbol s'.current_positions ≡ (
            if is_simulated r && r.symbol == symbol
            then get_or (pos 0) symbol s.current_positions +ℤ r.estimated_position_delta
            else get_or (pos 0) symbol s.current_positions)
    no_short : NoShort s.current_positions → NoShort s'.current_positions

  module _ (profile : AccountProfile W) (allow fail_fast : Bool) where
    record_result-Accounts :
        (s : DryRunState W) (r : PaperLedgerDryRunInstructionResult W)
        → Outcome s.current_positions r
        → Accounts s r (record_result profile allow fail_fast s r)
    unfolding record_result
    record_result-Accounts s r (Outcome.filled e f g fits) =
        rw (record_result, e)
          (record {
            cash = rw f;
            position = λ symbol. rw (
              f,
              add_position-get_or r.symbol symbol r.estimated_position_delta s.current_positions,
            );
            no_short = λ h symbol. ground (
              arith,
              add_position-get_or r.symbol symbol r.estimated_position_delta s.current_positions,
              eq_iff r.symbol symbol,
              h symbol,
            );
          })
    record_result-Accounts s r (Outcome.refused e f g) =
        rw (record_result, e) (record { cash = rw f; position = λ symbol. rw f; no_short = λ h. h })

    run_round-Accounts :
        (skips : Bool) (s : DryRunState W) (instruction : PaperLedgerCandidateInstruction W)
        → let (r, s') = run_round profile allow fail_fast skips s instruction in Accounts s r s'
    unfolding run_round skipped_result
    run_round-Accounts true s instruction = record {
      cash = refl;
      position = λ symbol. refl;
      no_short = λ h. h;
    }
    run_round-Accounts false s instruction =
        let accounts =
          record_result-Accounts (seen_state s instruction)
            (result_of profile allow fail_fast s instruction)
            (result_of-Outcome profile allow fail_fast s instruction) in
        record { cash = accounts.cash; position = accounts.position; no_short = accounts.no_short }

    step-Accounts :
        (s : DryRunState W) (instruction : PaperLedgerCandidateInstruction W)
        → let (r, s') = step profile allow fail_fast s instruction in Accounts s r s'
    unfolding step
    step-Accounts s instruction = run_round-Accounts s.skipping s instruction

    run_from-accounts :
        (s : DryRunState W) (instructions : List (PaperLedgerCandidateInstruction W))
        → let (rs, s') = run_from profile allow fail_fast s instructions in
          (s'.current_cash ≡ cash_after s.current_cash rs)
          × ((symbol : String)
              → get_or (pos 0) symbol s'.current_positions
                ≡ get_or (pos 0) symbol s.current_positions +ℤ position_change symbol rs)
          × (NoShort s.current_positions → NoShort s'.current_positions)
    unfolding run_from
    run_from-accounts s [] =
        (refl, λ symbol. sym (+ℤ-zero (get_or (pos 0) symbol s.current_positions)), λ h. h)
    run_from-accounts s (instruction ∷ instructions) =
        let (r, s') = step profile allow fail_fast s instruction in
        let one = step-Accounts s instruction in
        let (cash, position, no_short) = run_from-accounts s' instructions in
        let rs = (run_from profile allow fail_fast s' instructions).0 in
        (
          cash ∙ ap (λ c. cash_after c rs) one.cash,
          λ symbol.
              position symbol
              ∙ shifted (is_simulated r && r.symbol == symbol) _ _ r.estimated_position_delta
                  (position_change symbol rs) (one.position symbol),
          λ h. no_short (one.no_short h),
        )

  -- The dry run keeps its books: the cash at the end is the available cash with the cash deltas of the
  -- simulated instructions added in order, each sum rounded to four places; and every symbol's position
  -- is the account's with the position deltas of its simulated instructions added.
  pub dry_run_accounts :
      (instructions : List (PaperLedgerCandidateInstruction W)) (profile : AccountProfile W)
      (allow fail_fast : Bool)
      → let result = dry_run instructions profile allow fail_fast in
        (result.simulated_cash_after
          ≡ cash_after profile.cash.available_cash result.instruction_results)
        × ((symbol : String)
            → get_or (pos 0) symbol result.simulated_positions_after
              ≡ get_or (pos 0) symbol (initial_positions profile)
                +ℤ position_change symbol result.instruction_results)
  unfolding dry_run start
  dry_run_accounts instructions profile allow fail_fast =
      let (cash, position, no_short) =
        run_from-accounts profile allow fail_fast (start profile) instructions in
      (cash, position)

  -- A dry run of an account without short positions leaves none, whatever the instructions are.
  pub dry_run-NoShort :
      (instructions : List (PaperLedgerCandidateInstruction W)) (profile : AccountProfile W)
      (allow fail_fast : Bool)
      → NoShort (initial_positions profile)
      → NoShort (dry_run instructions profile allow fail_fast).simulated_positions_after
  unfolding dry_run start
  dry_run-NoShort instructions profile allow fail_fast h =
      (run_from-accounts profile allow fail_fast (start profile) instructions).2 h
