-- ===== src/DryRun/Flaws.antt =====
-- T+1 in the dry run of src/quantpilot_core/paper_ledger_dry_run/dry_run.py: the shares that may be sold
-- are those of the profile, which a sale within the run does not take away.
use quant_pilot_ai_next.DryRun.Order.{step-goes}
use quant_pilot_ai_next.DryRun.Contracts.{PaperLedgerDryRunInstructionResult, simulated}
use quant_pilot_ai_next.Base.{
  String, ◌≡◌, refl, Bool, true, false, List, [], ◌∷◌, arith, ◌∙◌, ap, if◌then◌else◌, sym,
}
use quant_pilot_ai_next.Int.{ℤ, pos, ◌≤ℤ◌, ◌+ℤ◌, ◌-ℤ◌, int_laws, min_ℤ, eq_of_parts}
use quant_pilot_ai_next.Text.{◌==◌, contains}
use quant_pilot_ai_next.Dict.{Dict, get_or, get_or-insert_self}
use quant_pilot_ai_next.Float.{Float}
use quant_pilot_ai_next.AccountProfile.Contracts.{AccountProfile}
use quant_pilot_ai_next.AccountProfile.Limits.{normalize_sellable_quantities}
use quant_pilot_ai_next.ActionBridge.Contracts.{
  sell_side, PaperLedgerCandidateInstruction, buy_side,
}
use quant_pilot_ai_next.DryRun.Simulate.{
  simulate, sellable_now, simulation_flags, account_flags, simulated_result, instruction_result,
  sell_delta, estimate_cost,
}
use quant_pilot_ai_next.DryRun.Run.{
  initial_positions, dry_run, DryRunState, seen_state, add_position, decide,
}
use quant_pilot_ai_next.DryRun.Steps.{IsValid, validate_valid}
use quant_pilot_ai_next.DryRun.Run.{run_from, step, start, result_of, record_result}

is_sale :
    (side : String) → side ≡ sell_side → (side == buy_side ≡ false) × (side == sell_side ≡ true)
is_sale side e = rw e (refl, refl)

min_fits : (q a b c : ℤ) → q ≤ℤ min_ℤ a b → q ≤ℤ c → q ≤ℤ min_ℤ a c
min_fits q a b c h k = ground arith

left_fits : (p q r : ℤ) → q +ℤ r ≤ℤ p → r ≤ℤ p +ℤ (pos 0 -ℤ q)
left_fits p q r h = omega int_laws

add_back : (p q r : ℤ) → p +ℤ (pos 0 -ℤ q) +ℤ (pos 0 -ℤ r) +ℤ (q +ℤ r) ≡ p
add_back p q r = eq_of_parts _ _ (omega int_laws)

add_position_self :
    (symbol other : String) (delta : ℤ) (positions : Dict ℤ)
    → symbol ≡ other
    → get_or (pos 0) other (add_position symbol delta positions)
      ≡ get_or (pos 0) symbol positions +ℤ delta
add_position_self symbol other delta positions same =
    rw (← same)
      (get_or-insert_self (pos 0) symbol (get_or (pos 0) symbol positions +ℤ delta) positions)

back_to :
    (symbol other : String) (q r : ℤ) (positions : Dict ℤ)
    → symbol ≡ other
    → get_or
          (pos 0)
          symbol
          (add_position other (pos 0 -ℤ r) (add_position symbol (pos 0 -ℤ q) positions))
        +ℤ (q +ℤ r)
      ≡ get_or (pos 0) symbol positions
back_to symbol other q r positions same =
    rw
      (
        add_position_self other symbol (pos 0 -ℤ r) (add_position symbol (pos 0 -ℤ q) positions)
            (sym same),
        add_position_self symbol other (pos 0 -ℤ q) positions same,
      )
      (add_back (get_or (pos 0) symbol positions) q r)

new_id :
    (id other : String) (seen : List String)
    → seen ≡ []
    → id == other ≡ false
    → contains other (if contains id seen then seen else id ∷ seen) ≡ false
new_id id other seen e h = rw (e, h)

module _ {W : Type 0} ⦃F : Float W⦄ (profile : AccountProfile W) (allow fail_fast : Bool) where
  -- the result of a sale that is simulated
  sold : PaperLedgerCandidateInstruction W → PaperLedgerDryRunInstructionResult W
  sold instruction =
      instruction_result instruction simulated "simulated_sell"
        (sell_delta instruction
          (estimate_cost instruction.side instruction.estimated_notional profile.broker_fee))
        (pos 0 -ℤ instruction.quantity) []

  -- a sale that is valid by itself and fits the sellable shares and the position
  pub record IsSale (instruction : PaperLedgerCandidateInstruction W) (positions : Dict ℤ)
      : Type 0 where
    pub valid : IsValid instruction allow
    pub side : instruction.side ≡ sell_side
    pub fits : instruction.quantity ≤ℤ sellable_now instruction profile positions

  sale_flags :
      (instruction : PaperLedgerCandidateInstruction W) (cash : W) (positions : Dict ℤ)
      → IsSale instruction positions
      → simulation_flags instruction profile cash positions allow ≡ []
  unfolding simulation_flags account_flags
  sale_flags instruction cash positions sale =
      rw (validate_valid instruction allow sale.valid)
        (ground (arith, is_sale instruction.side sale.side))

  sale_result :
      (instruction : PaperLedgerCandidateInstruction W) (cash : W) (positions : Dict ℤ)
      → IsSale instruction positions
      → simulate instruction profile cash positions allow ≡ sold instruction
  unfolding simulate simulated_result sold
  sale_result instruction cash positions sale =
      rw
        (
          simulate,
          sale_flags instruction cash positions sale,
          (is_sale instruction.side sale.side).0,
        )
        refl

  sale_step :
      (s : DryRunState W) (instruction : PaperLedgerCandidateInstruction W)
      → s.skipping ≡ false
      → contains instruction.proposal_id s.seen_ids ≡ false
      → IsSale instruction s.current_positions
      → step profile allow fail_fast s instruction ≡ (
        sold instruction,
        record_result profile allow fail_fast (seen_state s instruction) (sold instruction),
      )
  unfolding result_of
  sale_step s instruction goes new sale =
      let new_result : result_of profile allow fail_fast s instruction ≡ sold instruction =
        rw (result_of, new) (sale_result instruction s.current_cash s.current_positions sale) in
      step-goes profile allow s fail_fast instruction goes
      ∙ ap (λ r. (r, record_result profile allow fail_fast (seen_state s instruction) r)) new_result

  sold_state :
      (s : DryRunState W) (instruction : PaperLedgerCandidateInstruction W)
      → let s' =
          record_result profile allow fail_fast (seen_state s instruction) (sold instruction) in
        (s'.skipping ≡ s.skipping)
        × (s'.seen_ids ≡ (seen_state s instruction).seen_ids)
        × (s'.current_positions
            ≡ add_position instruction.symbol (pos 0 -ℤ instruction.quantity) s.current_positions)
  unfolding record_result sold instruction_result
  sold_state s instruction = (refl, refl, refl)

  -- the second sale still fits after the first
  fits_after :
      (i j : PaperLedgerCandidateInstruction W)
      → i.symbol ≡ j.symbol
      → i.quantity +ℤ j.quantity ≤ℤ get_or (pos 0) i.symbol (initial_positions profile)
      → IsSale j (initial_positions profile)
      → IsSale j (add_position i.symbol (pos 0 -ℤ i.quantity) (initial_positions profile))
  fits_after i j same together sale = record {
    valid = sale.valid;
    side = sale.side;
    fits =
        min_fits j.quantity (get_or (pos 0) j.symbol (normalize_sellable_quantities profile))
          (get_or (pos 0) j.symbol (initial_positions profile))
          (get_or (pos 0) j.symbol
            (add_position i.symbol (pos 0 -ℤ i.quantity) (initial_positions profile)))
          sale.fits
          (rw
            (add_position_self i.symbol j.symbol (pos 0 -ℤ i.quantity) (initial_positions profile)
              same)
            (left_fits _ i.quantity j.quantity together));
  }

  start_state :
      ((start profile).skipping ≡ false)
      × ((start profile).seen_ids ≡ [])
      × ((start profile).current_positions ≡ initial_positions profile)
  unfolding start
  start_state = (refl, refl, refl)

  two_rounds :
      (s s' s'' : DryRunState W) (i j : PaperLedgerCandidateInstruction W)
      → step profile allow fail_fast s i ≡ (sold i, s')
      → step profile allow fail_fast s' j ≡ (sold j, s'')
      → run_from profile allow fail_fast s (i ∷ j ∷ []) ≡ (sold i ∷ sold j ∷ [], s'')
  unfolding run_from
  two_rounds s s' s'' i j first second = rw (first, second) refl

  -- the dry run of two sales, from its rounds
  both_sold :
      (P : Dict ℤ → Type 0) (i j : PaperLedgerCandidateInstruction W) (s : DryRunState W)
      → run_from profile allow fail_fast (start profile) (i ∷ j ∷ []) ≡ (sold i ∷ sold j ∷ [], s)
      → P s.current_positions
      → let result = dry_run (i ∷ j ∷ []) profile allow fail_fast in
        (result.ok ≡ true) × P result.simulated_positions_after
  unfolding dry_run decide sold instruction_result
  both_sold P i j s ran h = rw (dry_run, ran) (refl, h)

  -- Two different sales of one symbol are both simulated where each alone fits the sellable shares and
  -- both together fit the position, although they may exceed the sellable shares together: under T+1
  -- the second then sells shares that were bought on the day.
  pub dry_run_oversells :
      (i j : PaperLedgerCandidateInstruction W)
      → i.symbol ≡ j.symbol
      → i.proposal_id == j.proposal_id ≡ false
      → IsSale i (initial_positions profile)
      → IsSale j (initial_positions profile)
      → i.quantity +ℤ j.quantity ≤ℤ get_or (pos 0) i.symbol (initial_positions profile)
      → let result = dry_run (i ∷ j ∷ []) profile allow fail_fast in
        (result.ok ≡ true)
        × (get_or (pos 0) i.symbol result.simulated_positions_after +ℤ (i.quantity +ℤ j.quantity)
            ≡ get_or (pos 0) i.symbol (initial_positions profile))
  dry_run_oversells i j same different sale_i sale_j together =
      let (goes, seen, positions) = start_state in
      let s = record_result profile allow fail_fast (seen_state (start profile) i) (sold i) in
      let (goes', seen', positions') = sold_state (start profile) i in
      let first = sale_step (start profile) i goes (rw seen) (rw positions sale_i) in
      let second =
        sale_step s j (goes' ∙ goes)
          (rw seen' (new_id i.proposal_id j.proposal_id (start profile).seen_ids seen different))
          (rw (positions', positions) (fits_after i j same together sale_j)) in
      let (goes'', seen'', positions'') = sold_state s j in
      both_sold
        (λ after.
          get_or (pos 0) i.symbol after +ℤ (i.quantity +ℤ j.quantity)
          ≡ get_or (pos 0) i.symbol (initial_positions profile))
        i j _ (two_rounds (start profile) s _ i j first second)
        (rw (positions'', positions', positions)
          (back_to i.symbol j.symbol i.quantity j.quantity (initial_positions profile) same))
