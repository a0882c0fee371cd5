-- ===== src/MarketReality/Laws.antt =====
-- What the validators of src/quantpilot_core/market_reality/validation.py let through, and what the
-- list of rejection reasons holds.
use quant_pilot_ai_next.Base.{
  ◌≡◌, refl, ◌≢◌, ap, Bool, true, false, Option, none, some, List, [], ◌∷◌, ◌++◌, arith, Call,
  ◌>>=◌, returned, raised, zero_division_error, only_if, Bool-cases, Option-cases, inl, inr, ◌⊎◌,
  ◌∙◌, not, ◌||◌,
}
use quant_pilot_ai_next.Int.{ℤ, pos, ◌≤ℤ◌, leb_ℤ, mod_ℤ, mod_ℤ-zero, eq_of_parts}
use quant_pilot_ai_next.Text.{contains}
use quant_pilot_ai_next.Float.{Float, ◌⊖◌, ◌⊗◌, lt}
use quant_pilot_ai_next.MarketReality.Contracts.{
  ExecutionConstraint, AccountConstraint, CapitalConstraint, OrderDraft, SandboxScenario,
}
use quant_pilot_ai_next.MarketReality.Scenario.{
  validate_instrument_profile, validate_account_constraint, validate_capital_constraint,
  validate_cost_model, validate_slippage_model, validate_execution, validate_sandbox_scenario,
  validate_assumptions,
}
use quant_pilot_ai_next.MarketReality.Draft.{
  contains_forbidden_live_terms, off_lot, validate_cash, validate_price, validate_boundary,
  draft_issues, validate_order_draft,
}

append-eq-nil : {A : Type 0} (xs ys : List A) → xs ++ ys ≡ [] → (xs ≡ []) × (ys ≡ [])
append-eq-nil [] ys h = (refl, h)
append-eq-nil (x ∷ xs) ys h = cc

returned_injective : {A : Type 0} (a b : A) → returned a ≡ returned b → a ≡ b
returned_injective a b h = cc

only_if-eq-nil : {A : Type 0} (c : Bool) (x : A) → only_if c x ≡ [] → c ≡ false
only_if-eq-nil true x h = cc
only_if-eq-nil false x h = refl

-- Both the scenario and the draft are validated by seven lists of issues.
seven-eq-nil :
    {A : Type 0} (a b c d e f g : List A)
    → a ++ (b ++ (c ++ (d ++ (e ++ (f ++ g))))) ≡ []
    → (a ≡ []) × (b ≡ []) × (c ≡ []) × (d ≡ []) × (e ≡ []) × (f ≡ []) × (g ≡ [])
seven-eq-nil [] [] [] [] [] [] g h = (refl, refl, refl, refl, refl, refl, h)
seven-eq-nil (x ∷ a) b c d e f g h = cc
seven-eq-nil [] (x ∷ b) c d e f g h = cc
seven-eq-nil [] [] (x ∷ c) d e f g h = cc
seven-eq-nil [] [] [] (x ∷ d) e f g h = cc
seven-eq-nil [] [] [] [] (x ∷ e) f g h = cc
seven-eq-nil [] [] [] [] [] (x ∷ f) g h = cc

module _ {W : Type 0} ⦃F : Float W⦄ where
  -- the cash that covers an order, and what is left after it
  abbrev pub IsAffordable : AccountConstraint W → CapitalConstraint W → W → Type 0
  IsAffordable account capital notional =
      (account.cash_constraint_explicit ≡ true)
      × (cash : W) × (account.available_cash ≡ some cash)
      × (lt cash notional ≡ false)
      × (lt (cash ⊖ notional) capital.min_cash_reserve ≡ false)
      × (lt capital.max_order_notional notional ≡ false)

  abbrev pub IsWithinLimits : W → ExecutionConstraint W → Type 0
  IsWithinLimits price constraint =
      (up : W) × (down : W) × (constraint.price_limit_up ≡ some up)
      × (constraint.price_limit_down ≡ some down)
      × (lt up price ≡ false)
      × (lt price down ≡ false)

  -- A draft that may enter the sandbox.
  pub record IsSafeDraft (order : OrderDraft W) (scenario : SandboxScenario W) : Type 0 where
    pub not_live :
        (order.is_live_order ≡ false)
        × (order.broker_instruction_id ≡ none)
        × (contains_forbidden_live_terms order.sandbox_instruction ≡ false)
        × (scenario.no_live_execution ≡ true)
    pub positive : pos 1 ≤ℤ order.quantity
    pub lot :
        (scenario.execution_constraint.lot_size_required ≡ false)
        ⊎ (mod_ℤ order.quantity scenario.execution_constraint.lot_size ≡ some (pos 0))
    pub tradable : scenario.instrument.is_suspended ≡ false
    pub permitted :
        (scenario.account_constraint.can_trade_a_shares ≡ true)
        × (contains scenario.instrument.market scenario.account_constraint.allowed_markets ≡ true)
    pub affordable :
        IsAffordable scenario.account_constraint scenario.capital_constraint
          (F.of_int order.quantity ⊗ order.limit_price)
    pub priced : IsWithinLimits order.limit_price scenario.execution_constraint

  validate_cash-IsAffordable :
      (account : AccountConstraint W) (capital : CapitalConstraint W) (notional : W)
      (available : Option W)
      → account.available_cash ≡ available
      → validate_cash account capital notional available ≡ []
      → IsAffordable account capital notional
  unfolding validate_cash
  validate_cash-IsAffordable account capital notional none e h = cc
  validate_cash-IsAffordable account capital notional (some cash) e h =
      (ground arith, cash, e, ground arith, ground arith, ground arith)

  validate_price-IsWithinLimits :
      (price : W) (constraint : ExecutionConstraint W) (up down : Option W)
      → constraint.price_limit_up ≡ up
      → constraint.price_limit_down ≡ down
      → validate_price price up down ≡ []
      → IsWithinLimits price constraint
  unfolding validate_price
  validate_price-IsWithinLimits price constraint (some up) (some down) e f h =
      (up, down, e, f, ground arith, ground arith)
  validate_price-IsWithinLimits price constraint none down e f h = cc
  validate_price-IsWithinLimits price constraint (some up) none e f h = cc

  validate_boundary-not_live :
      (order : OrderDraft W)
      → validate_boundary order ≡ []
      → (order.is_live_order ≡ false)
        × (order.broker_instruction_id ≡ none)
        × (contains_forbidden_live_terms order.sandbox_instruction ≡ false)
  unfolding validate_boundary
  validate_boundary-not_live order h = ground arith

  assumptions-no_live :
      (scenario : SandboxScenario W)
      → validate_assumptions scenario ≡ []
      → scenario.no_live_execution ≡ true
  unfolding validate_assumptions
  assumptions-no_live scenario h = ground arith

  scenario-parts :
      (scenario : SandboxScenario W)
      → validate_sandbox_scenario scenario ≡ []
      → (validate_execution scenario.execution_constraint ≡ [])
        × (validate_assumptions scenario ≡ [])
  unfolding validate_sandbox_scenario
  scenario-parts scenario h =
      let parts =
        seven-eq-nil (validate_instrument_profile scenario.instrument)
          (validate_account_constraint scenario.account_constraint)
          (validate_capital_constraint scenario.capital_constraint)
          (validate_cost_model scenario.cost_model)
          (validate_slippage_model scenario.slippage_model)
          (validate_execution scenario.execution_constraint) (validate_assumptions scenario) h in
      (parts.5, parts.6)

  off_lot-false :
      (constraint : ExecutionConstraint W) (quantity : ℤ) (off : Bool)
      → off_lot constraint quantity ≡ returned off
      → off ≡ false
      → (constraint.lot_size_required ≡ false) ⊎ (mod_ℤ quantity constraint.lot_size ≡ some (pos 0))
  unfolding off_lot
  off_lot-false constraint quantity off h e = elim (Bool-cases constraint.lot_size_required) [
    | inr free ↦ inl free
    | inl required ↦ elim (Option-cases (mod_ℤ quantity constraint.lot_size)) [
      | inl no_rest ↦ ground arith
      | inr (rest, found) ↦ inr (found ∙ ap some (eq_of_parts rest (pos 0) (ground arith)))
    ]
  ]

  draft_issues-IsSafeDraft :
      (off : Bool) (order : OrderDraft W) (scenario : SandboxScenario W)
      → off_lot scenario.execution_constraint order.quantity ≡ returned off
      → validate_sandbox_scenario scenario ≡ []
      → draft_issues off order scenario ≡ []
      → IsSafeDraft order scenario
  unfolding draft_issues
  draft_issues-IsSafeDraft off order scenario lot clean h =
      let parts = seven-eq-nil _ _ _ _ _ _ _ h in
      let boundary = validate_boundary-not_live order parts.6 in
      record {
        not_live = (
          boundary.0,
          boundary.1,
          boundary.2,
          assumptions-no_live scenario (scenario-parts scenario clean).1,
        );
        positive = ground (arith, only_if-eq-nil (leb_ℤ order.quantity (pos 0)) _ parts.1);
        lot =
            off_lot-false scenario.execution_constraint order.quantity off lot
              (only_if-eq-nil off _ parts.0);
        tradable = only_if-eq-nil scenario.instrument.is_suspended _ parts.2;
        permitted = ground (
          arith,
          only_if-eq-nil
              (not scenario.account_constraint.can_trade_a_shares
                || not (
                    contains scenario.instrument.market
                      scenario.account_constraint.allowed_markets))
              _ parts.4,
        );
        affordable =
            validate_cash-IsAffordable scenario.account_constraint scenario.capital_constraint _ _
              refl parts.3;
        priced =
            validate_price-IsWithinLimits order.limit_price scenario.execution_constraint _ _ refl
              refl parts.5;
      }

  draft_result-IsSafeDraft :
      (r : Call Bool) (order : OrderDraft W) (scenario : SandboxScenario W)
      → off_lot scenario.execution_constraint order.quantity ≡ r
      → (r >>= λ off.
          returned (validate_sandbox_scenario scenario ++ draft_issues off order scenario))
        ≡ returned []
      → IsSafeDraft order scenario
  draft_result-IsSafeDraft (returned off) order scenario e h =
      let (clean, issues) =
        append-eq-nil (validate_sandbox_scenario scenario) (draft_issues off order scenario)
          (returned_injective _ _ h) in
      draft_issues-IsSafeDraft off order scenario e clean issues
  draft_result-IsSafeDraft (raised x) order scenario e h = cc

  -- A draft that is validated with no issue may enter the sandbox: it is not live and names no broker
  -- instruction, its quantity is positive and a multiple of a required lot, the instrument is not
  -- suspended, the account may trade its market, the cash is explicit and covers the notional and the
  -- reserve, and the price lies within explicit limits.
  pub validate_order_draft-IsSafeDraft :
      (order : OrderDraft W) (scenario : SandboxScenario W)
      → validate_order_draft order scenario ≡ returned []
      → IsSafeDraft order scenario
  unfolding validate_order_draft
  validate_order_draft-IsSafeDraft order scenario h =
      draft_result-IsSafeDraft (off_lot scenario.execution_constraint order.quantity) order scenario
        refl h

  execution-lot :
      (constraint : ExecutionConstraint W)
      → validate_execution constraint ≡ []
      → (constraint.lot_size_required ≡ false) ⊎ (pos 1 ≤ℤ constraint.lot_size)
  unfolding validate_execution
  execution-lot constraint h = ground arith

  zero_lot_raises :
      (constraint : ExecutionConstraint W) (quantity : ℤ)
      → constraint.lot_size_required ≡ true
      → constraint.lot_size ≡ pos 0
      → off_lot constraint quantity ≡ raised zero_division_error
  unfolding off_lot
  zero_lot_raises constraint quantity required zero_lot =
      rw (required, zero_lot, mod_ℤ-zero quantity)

  -- With a required lot of zero shares no draft is validated: the test of the lot divides by zero
  -- and raises, although `validate_sandbox_scenario` reports the scenario with an issue.
  pub validate_order_draft_zero_lot :
      (order : OrderDraft W) (scenario : SandboxScenario W)
      → scenario.execution_constraint.lot_size_required ≡ true
      → scenario.execution_constraint.lot_size ≡ pos 0
      → (validate_order_draft order scenario ≡ raised zero_division_error)
        × (validate_sandbox_scenario scenario ≢ [])
  unfolding validate_order_draft
  validate_order_draft_zero_lot order scenario required zero_lot = (
    rw (zero_lot_raises scenario.execution_constraint order.quantity required zero_lot),
    λ clean.
        ground
          (arith, execution-lot scenario.execution_constraint (scenario-parts scenario clean).0),
  )
