-- ===== src/PaperLedger/Laws.antt =====
-- What every result of src/quantpilot_core/paper_ledger carries, on each of its branches: the
-- positions of the account that it returns, and the account left alone by a rejection.
use quant_pilot_ai_next.Base.{
  String, ◌≡◌, refl, ◌≢◌, ◌⊎◌, Bool, true, false, Option, List, [], arith, if◌then◌else◌, is_empty,
  Bool-cases, inl, inr, ReturnsUnless, overflow_error, ◌>>=◌, returned, ◌&&◌, not,
}
use quant_pilot_ai_next.Int.{ℤ, pos, ltb_ℤ}
use quant_pilot_ai_next.Text.{◌==◌, eq_iff}
use quant_pilot_ai_next.Dict.{Dict, get_or-insert, get_or-remove}
use quant_pilot_ai_next.Float.{Float, ◌⊗◌, lt, le, zero_float}
use quant_pilot_ai_next.PaperLedger.Contracts.{
  PaperOrderSide, buy, sell, PaperOrderStatus, PaperLedgerAccount, PaperLedgerOrderIntent,
  PaperLedgerResult, PaperLedgerStatus, validate_order_shape, rejected_paper_result,
  account_with_position, position_of,
}
use quant_pilot_ai_next.PaperLedger.Costs.{
  AShareCostModel, AShareConstraintResult, validate_a_share_board_lot, apply_a_share_slippage,
  validate_t_plus_one_sell, calculate_a_share_order_cost, order_cost,
}
use quant_pilot_ai_next.PaperLedger.Constrained.{
  accepted_result, settle, execute_order, run_a_share_constrained_paper_order, model_or_default,
}
use quant_pilot_ai_next.PaperLedger.Gated.{
  recorded_result, fill_at_limit, run_paper_ledger_from_gated_sample,
}

nonempty : (xs : List String) → is_empty xs ≡ false → xs ≢ []
nonempty xs h = ground arith

held_reasons :
    (W : Type 0) ⦃F : Float W⦄ (symbol : String) (quantity : ℤ) (sellable : Option (Dict ℤ))
    → (validate_t_plus_one_sell {W = W} symbol quantity sellable).accepted ≡ false
    → (validate_t_plus_one_sell {W = W} symbol quantity sellable).reasons ≢ []
unfolding validate_t_plus_one_sell
held_reasons W symbol quantity sellable h = ground arith

lot_reasons :
    (W : Type 0) ⦃F : Float W⦄ (quantity : ℤ)
    → (validate_a_share_board_lot {W = W} quantity).accepted ≡ false
    → (validate_a_share_board_lot {W = W} quantity).reasons ≢ []
unfolding validate_a_share_board_lot
lot_reasons W quantity h = ground arith

module _ {W : Type 0} ⦃F : Float W⦄ where
  pub position_of-account_with_position :
      (account : PaperLedgerAccount W) (symbol j : String) (cash : W) (position : ℤ)
      → position_of (account_with_position account symbol cash position) j
        ≡ (if symbol == j then position else position_of account j)
  unfolding position_of account_with_position
  position_of-account_with_position account symbol j cash position = ground (
    arith,
    get_or-insert (pos 0) symbol j position account.positions,
    get_or-remove (pos 0) symbol j account.positions,
  )

  -- A result is consistent with the account and the order that it answers.
  pub record Answers (account : PaperLedgerAccount W) (intent : PaperLedgerOrderIntent W)
      (r : PaperLedgerResult W) : Type 0 where
    pub before : r.position_before ≡ position_of account intent.symbol
    pub cash_before : r.cash_before ≡ account.cash
    pub cash : r.account_after.cash ≡ r.cash_after
    pub positions :
        (j : String)
        → position_of r.account_after j
          ≡ (if intent.symbol == j then r.position_after else position_of account j)
    pub outcome :
        ((r.order_status ≡ PaperOrderStatus.accepted)
          × (r.filled_quantity ≡ intent.quantity)
          × (r.reasons ≡ []))
        ⊎ ((r.order_status ≡ PaperOrderStatus.rejected)
            × (r.account_after ≡ account)
            × (r.filled_quantity ≡ pos 0)
            × (r.reasons ≢ []))

  rejected-Answers :
      (status : PaperLedgerStatus) (account : PaperLedgerAccount W)
      (intent : PaperLedgerOrderIntent W) (reasons : List String) (action : String)
      → reasons ≢ []
      → Answers account intent (
          rejected_paper_result status account intent
            (position_of account intent.symbol)
            reasons
            action)
  unfolding rejected_paper_result
  rejected-Answers status account intent reasons action h = record {
    before = refl;
    cash_before = refl;
    cash = refl;
    positions = λ j. ground (arith, eq_iff intent.symbol j);
    outcome = inr (refl, refl, refl, h);
  }

  accepted-Answers :
      (account : PaperLedgerAccount W) (intent : PaperLedgerOrderIntent W) (price cash : W)
      (after : ℤ) (warnings : List String)
      → Answers account intent (
          accepted_result account intent price cash
            (position_of account intent.symbol)
            after
            warnings)
  unfolding accepted_result
  accepted-Answers account intent price cash after warnings = record {
    before = refl;
    cash_before = refl;
    cash = refl;
    positions = λ j. position_of-account_with_position account intent.symbol j cash after;
    outcome = inl (refl, refl, refl);
  }

  recorded-Answers :
      (account : PaperLedgerAccount W) (intent : PaperLedgerOrderIntent W) (cash : W) (after : ℤ)
      (warnings : List String)
      → Answers account intent
          (recorded_result account intent cash (position_of account intent.symbol) after warnings)
  unfolding recorded_result
  recorded-Answers account intent cash after warnings = record {
    before = refl;
    cash_before = refl;
    cash = refl;
    positions = λ j. position_of-account_with_position account intent.symbol j cash after;
    outcome = inl (refl, refl, refl);
  }

  settle-Answers :
      (side : PaperOrderSide) (account : PaperLedgerAccount W) (intent : PaperLedgerOrderIntent W)
      (gate_passed : Bool) (sellable : Option (Dict ℤ)) (price : W)
      (cost : AShareConstraintResult W)
      → Answers account intent (settle side account intent gate_passed sellable price cost)
  unfolding settle
  settle-Answers buy account intent gate_passed sellable price cost =
      elim (Bool-cases (lt account.cash cost.total_cost)) [
        | inl short ↦ rw short (rejected-Answers _ account intent _ _ (λ e. cc))
        | inr enough ↦ rw enough (accepted-Answers account intent _ _ _ _)
      ]
  settle-Answers sell account intent gate_passed sellable price cost =
      elim (Bool-cases (ltb_ℤ (position_of account intent.symbol) intent.quantity)) [
        | inl short ↦ rw short (rejected-Answers _ account intent _ _ (λ e. cc))
        | inr enough ↦
            rw enough
              (elim (Bool-cases
                (validate_t_plus_one_sell {W = W} intent.symbol intent.quantity
                  sellable).accepted) [
                    | inl free ↦ rw free (accepted-Answers account intent _ _ _ _)
                    | inr held ↦ rw held (
                        rejected-Answers _ account intent _ _
                          (held_reasons W intent.symbol intent.quantity sellable held))
                  ])
      ]

  -- What holds of the computed cost holds after it, unless the quantity is too large for a double.
  pub charged :
      (side : PaperOrderSide) (quantity : ℤ) (price : W) (model : AShareCostModel W)
      (settled : AShareConstraintResult W → PaperLedgerResult W) (P : PaperLedgerResult W → Type 0)
      → P (settled (order_cost side quantity price model))
      → ReturnsUnless (F.fits quantity ≡ false) overflow_error P (
          calculate_a_share_order_cost side quantity price model >>= λ cost.
          returned (settled cost))
  unfolding calculate_a_share_order_cost
  charged side quantity price model settled P h =
      elim (Bool-cases (
        (validate_a_share_board_lot {W = W} quantity).accepted
        && (not (le price zero_float) && not (F.fits quantity)))) [
          | inl overflow ↦ rw (calculate_a_share_order_cost, overflow) (ground arith, refl)
          | inr fine ↦ rw (calculate_a_share_order_cost, fine) h
        ]

  execute_order-Answers :
      (account : PaperLedgerAccount W) (intent : PaperLedgerOrderIntent W) (gate_passed : Bool)
      (sellable : Option (Dict ℤ)) (model : AShareCostModel W)
      → le intent.limit_price zero_float ≡ false
      → lt model.slippage_rate zero_float ≡ false
      → ReturnsUnless
          (F.fits intent.quantity ≡ false)
          overflow_error
          (Answers account intent)
          (execute_order account intent gate_passed sellable model)
  unfolding execute_order apply_a_share_slippage
  execute_order-Answers account intent gate_passed sellable model fine good =
      rw (fine, good)
        (charged intent.side intent.quantity _ model
          (settle intent.side account intent gate_passed sellable _) (Answers account intent)
          (settle-Answers intent.side account intent gate_passed sellable _ _))

  shape_price :
      (account : PaperLedgerAccount W) (intent : PaperLedgerOrderIntent W)
      → is_empty (validate_order_shape account intent) ≡ true
      → le intent.limit_price zero_float ≡ false
  unfolding validate_order_shape
  shape_price account intent h = ground arith

  -- With a slippage rate that is not negative an order is always answered, except that a quantity too
  -- large for a double may raise OverflowError, and the answer is consistent: the account returned differs from the one given in the ordered symbol alone, by the
  -- reported positions; an acceptance fills the whole quantity, and a rejection leaves the account as
  -- it was, fills nothing and has reasons.
  pub run_a_share_constrained_paper_order-Answers :
      (account : PaperLedgerAccount W) (intent : PaperLedgerOrderIntent W) (gate_passed : Bool)
      (sellable : Option (Dict ℤ)) (cost_model : Option (AShareCostModel W))
      → lt (model_or_default cost_model).slippage_rate zero_float ≡ false
      → ReturnsUnless
          (F.fits intent.quantity ≡ false)
          overflow_error
          (Answers account intent)
          (run_a_share_constrained_paper_order account intent gate_passed sellable cost_model)
  unfolding run_a_share_constrained_paper_order
  run_a_share_constrained_paper_order-Answers account intent gate_passed sellable cost_model good =
      elim (Bool-cases (is_empty (validate_order_shape account intent))) [
        | inr bad ↦ rw bad (rejected-Answers _ account intent _ _ (nonempty _ bad))
        | inl shaped ↦
            rw shaped
              (elim (Bool-cases (validate_a_share_board_lot {W = W} intent.quantity).accepted) [
                | inr odd ↦
                    rw odd
                      (rejected-Answers _ account intent _ _ (lot_reasons W intent.quantity odd))
                | inl lots ↦ rw lots (
                    execute_order-Answers account intent gate_passed sellable
                      (model_or_default cost_model) (shape_price account intent shaped) good)
              ])
      ]

  fill_at_limit-Answers :
      (side : PaperOrderSide) (account : PaperLedgerAccount W) (intent : PaperLedgerOrderIntent W)
      (warnings : List String)
      → ReturnsUnless
          (F.fits intent.quantity ≡ false)
          overflow_error
          (Answers account intent)
          (fill_at_limit side account intent warnings)
  unfolding fill_at_limit
  fill_at_limit-Answers buy account intent warnings = elim (Bool-cases (F.fits intent.quantity)) [
    | inr large ↦ rw large (refl, refl)
    | inl small ↦
        rw small
          (elim (Bool-cases (lt account.cash (F.of_int intent.quantity ⊗ intent.limit_price))) [
            | inl short ↦ rw short (rejected-Answers _ account intent _ _ (λ e. cc))
            | inr enough ↦ rw enough (recorded-Answers account intent _ _ _)
          ])
  ]
  fill_at_limit-Answers sell account intent warnings =
      elim (Bool-cases (ltb_ℤ (position_of account intent.symbol) intent.quantity)) [
        | inl short ↦ rw short (rejected-Answers _ account intent _ _ (λ e. cc))
        | inr enough ↦ rw enough (elim (Bool-cases (F.fits intent.quantity)) [
          | inr large ↦ rw large (refl, refl)
          | inl small ↦ rw small (recorded-Answers account intent _ _ _)
        ])
      ]

  -- The gated path answers every order, except that a quantity too large for a double may raise
  -- OverflowError, and its answer is consistent: only the ordered symbol's position changes; an
  -- acceptance fills the whole quantity, and a rejection changes nothing, fills nothing and has reasons.
  pub run_paper_ledger_from_gated_sample-Answers :
      (account : PaperLedgerAccount W) (intent : PaperLedgerOrderIntent W) (gate_passed : Bool)
      (latest_close_price : Option W)
      → ReturnsUnless
          (F.fits intent.quantity ≡ false)
          overflow_error
          (Answers account intent)
          (run_paper_ledger_from_gated_sample account intent gate_passed latest_close_price)
  unfolding run_paper_ledger_from_gated_sample
  run_paper_ledger_from_gated_sample-Answers account intent gate_passed latest_close_price =
      elim (Bool-cases (is_empty (validate_order_shape account intent))) [
        | inr bad ↦ rw bad (rejected-Answers _ account intent _ _ (nonempty _ bad))
        | inl shaped ↦ rw shaped (fill_at_limit-Answers intent.side account intent _)
      ]
