-- ===== src/MarketReality/Draft.antt =====
-- `validate_order_draft` of src/quantpilot_core/market_reality/validation.py. It raises
-- `ZeroDivisionError` where a required lot size is zero.
use quant_pilot_ai_next.Base.{
  String, Bool, false, Option, none, some, List, [], ◌∷◌, ◌++◌, ◌&&◌, ◌||◌, not, if◌then◌else◌,
  only_if, is_none, any, Call, returned, raised, zero_division_error, ◌>>=◌,
}
use quant_pilot_ai_next.Int.{ℤ, pos, leb_ℤ, eq_ℤ, mod_ℤ}
use quant_pilot_ai_next.Text.{is_blank, occurs_lower, contains}
use quant_pilot_ai_next.Float.{Float, ◌⊖◌, ◌⊗◌, ◌⊘◌, lt, zero_float}
use quant_pilot_ai_next.MarketReality.Contracts.{
  invalid_lot_size, suspended_instrument, price_limit_violation, cash_constraint_missing,
  insufficient_cash, capital_constraint_violation, account_permission_blocked,
  live_execution_forbidden, adapter_boundary_missing, ExecutionConstraint, AccountConstraint,
  CapitalConstraint, OrderDraft, SandboxScenario, SandboxValidationIssue, issue,
}
use quant_pilot_ai_next.MarketReality.Scenario.{validate_sandbox_scenario}

abbrev pub forbidden_live_order_terms : List String
forbidden_live_order_terms =
    "live order" ∷ "broker instruction" ∷ "submit order" ∷ "send to broker" ∷ "place order"
    ∷ "execute live" ∷ []

-- `_contains_forbidden_live_terms`
unfoldable pub contains_forbidden_live_terms : String → Bool
unfolding occurs_lower
contains_forbidden_live_terms text = any (λ term. occurs_lower term text) forbidden_live_order_terms

module _ {W : Type 0} ⦃F : Float W⦄ where
  -- `lot_size_required and quantity % lot_size != 0`
  unfoldable pub off_lot : ExecutionConstraint W → ℤ → Call Bool
  off_lot constraint quantity =
      if constraint.lot_size_required
      then elim (mod_ℤ quantity constraint.lot_size) [
        | none ↦ raised zero_division_error
        | some rest ↦ returned (not (eq_ℤ rest (pos 0)))
      ]
      else returned false

  -- the cash tests, once the notional is known
  unfoldable pub validate_cash :
      AccountConstraint W → CapitalConstraint W → W → Option W → List SandboxValidationIssue
  validate_cash account capital notional none =
      issue "cash_constraint_missing" "Cash availability must be explicit." cash_constraint_missing
      ∷ only_if (lt capital.max_order_notional notional) (
          issue "max_order_notional_exceeded"
            "Order draft notional exceeds the capital constraint max order notional."
            capital_constraint_violation)
  validate_cash account capital notional (some cash) =
      (if not account.cash_constraint_explicit
        then issue "cash_constraint_missing" "Cash availability must be explicit."
            cash_constraint_missing
          ∷ []
        else only_if (lt cash notional) (
            issue "insufficient_cash" "Order draft notional exceeds available cash."
              insufficient_cash))
      ++ (only_if (lt capital.max_order_notional notional) (
            issue "max_order_notional_exceeded"
              "Order draft notional exceeds the capital constraint max order notional."
              capital_constraint_violation)
          ++ (only_if
                (account.cash_constraint_explicit && lt (cash ⊖ notional) capital.min_cash_reserve)
                (issue "min_cash_reserve_breached"
                  "Post-order cash would fall below the required cash reserve."
                  capital_constraint_violation)
              ++ only_if
                  (account.cash_constraint_explicit
                    && (lt zero_float cash && lt capital.max_cash_usage_ratio (notional ⊘ cash)))
                  (issue "max_cash_usage_ratio_breached"
                    "Order draft exceeds the capital constraint max cash usage ratio."
                    capital_constraint_violation)))

  unfoldable pub validate_price : W → Option W → Option W → List SandboxValidationIssue
  validate_price limit_price (some up) (some down) =
      only_if (lt up limit_price || lt limit_price down) (
        issue "price_limit_violation" "Order draft price is outside explicit price limits."
          price_limit_violation)
  validate_price limit_price _ _ =
      issue "price_limit_missing" "Price limit up/down assumptions must be explicit."
        price_limit_violation
      ∷ []

  -- the tests on live execution and the adapter boundary
  unfoldable pub validate_boundary : OrderDraft W → List SandboxValidationIssue
  unfolding is_blank
  validate_boundary order =
      only_if (order.is_live_order || not (is_none order.broker_instruction_id)) (
        issue "live_order_forbidden"
          "Order drafts must not represent live orders or broker instructions."
          live_execution_forbidden)
      ++ (only_if (contains_forbidden_live_terms order.sandbox_instruction) (
            issue "forbidden_live_order_language"
              "Order draft language must not describe live execution or broker routing."
              live_execution_forbidden)
          ++ (only_if (is_blank order.external_adapter_boundary) (
              issue "order_adapter_boundary_missing"
                "Order draft must document external adapter boundaries." adapter_boundary_missing)))

  -- the issues of the draft itself, in the order in which they are appended
  unfoldable pub draft_issues :
      Bool → OrderDraft W → SandboxScenario W → List SandboxValidationIssue
  draft_issues off order scenario =
      let instrument = scenario.instrument in
      let account = scenario.account_constraint in
      let constraint = scenario.execution_constraint in
      only_if off (
        issue "quantity_not_lot_size"
          "Order draft quantity does not satisfy the configured lot size." invalid_lot_size)
      ++ (only_if (leb_ℤ order.quantity (pos 0)) (
            issue "quantity_non_positive" "Order draft quantity must be positive." invalid_lot_size)
          ++ (only_if instrument.is_suspended (
                issue "instrument_suspended"
                  "Suspended instruments cannot be tradable in the sandbox." suspended_instrument)
              ++ (validate_cash account scenario.capital_constraint
                    (F.of_int order.quantity ⊗ order.limit_price) account.available_cash
                  ++ (only_if
                        (not account.can_trade_a_shares
                          || not (contains instrument.market account.allowed_markets))
                        (issue "account_permission_blocked"
                          "Account permissions must explicitly allow the instrument market."
                          account_permission_blocked)
                      ++ (validate_price order.limit_price constraint.price_limit_up
                            constraint.price_limit_down
                          ++ validate_boundary order)))))

  unfoldable pub validate_order_draft :
      OrderDraft W → SandboxScenario W → Call (List SandboxValidationIssue)
  unfolding draft_issues off_lot
  validate_order_draft order scenario =
      off_lot scenario.execution_constraint order.quantity >>= λ off.
      returned (validate_sandbox_scenario scenario ++ draft_issues off order scenario)
