-- ===== src/MarketReality/Scenario.antt =====
-- src/quantpilot_core/market_reality/validation.py: the validators of a scenario and of its parts, and
-- the list of distinct rejection reasons.
use quant_pilot_ai_next.Base.{
  String, Bool, true, false, Option, none, some, List, [], ◌∷◌, ◌++◌, ◌&&◌, ◌||◌, not,
  if◌then◌else◌, only_if, is_empty, is_none, any, all, ◌==◌,
}
use quant_pilot_ai_next.Int.{pos, leb_ℤ, ltb_ℤ}
use quant_pilot_ai_next.Text.{is_blank, occurs_both_lower, join}
use quant_pilot_ai_next.Float.{Float, lt, le, zero_float}
use quant_pilot_ai_next.MarketReality.Contracts.{
  mature_external_boundary_names, SandboxRejectionReason, no_reason, invalid_lot_size,
  suspended_instrument, st_or_delisting_risk, price_limit_violation, t_plus_one_violation,
  cash_constraint_missing, capital_constraint_violation, cost_model_missing, slippage_model_missing,
  provider_failure_assumption_missing, data_latency_assumption_missing, live_execution_forbidden,
  adapter_boundary_missing, ExecutionConstraint, CostModel, SlippageModel, DataLatencyAssumption,
  ProviderFailureAssumption, AccountConstraint, CapitalConstraint, InstrumentTradingProfile,
  FillSimulation, SandboxScenario, SandboxResult, SandboxValidationIssue, issue, reason_index,
}

-- `_has_external_adapter_boundary`: `name.lower() in " ".join(boundaries).lower()`
unfoldable pub has_external_adapter_boundary : List String → Bool
unfolding is_blank occurs_both_lower join
has_external_adapter_boundary boundaries =
    not (is_empty boundaries)
    && (all (λ boundary. not (is_blank boundary)) boundaries
        && any (λ name. occurs_both_lower name (join " " boundaries))
            mature_external_boundary_names)

-- `reason not in reasons`, for the reasons so far in their order
unfoldable pub seen : SandboxRejectionReason → List SandboxRejectionReason → Bool
seen reason reasons = any (λ r. reason_index r == reason_index reason) reasons

unfoldable pub collect_reasons :
    List SandboxRejectionReason → List SandboxValidationIssue → List SandboxRejectionReason
unfolding seen
collect_reasons reasons [] = reasons
collect_reasons reasons (found ∷ issues) =
    collect_reasons
      (if seen found.rejection_reason reasons
        then reasons
        else reasons ++ found.rejection_reason ∷ [])
      issues

-- `rejection_reasons`
unfoldable pub rejection_reasons : List SandboxValidationIssue → List SandboxRejectionReason
unfolding collect_reasons
rejection_reasons issues = collect_reasons [] issues

latency_missing : Option DataLatencyAssumption → Bool
latency_missing none = true
latency_missing (some latency) = not latency.timestamp_audit_required

failure_missing : Option ProviderFailureAssumption → Bool
failure_missing none = true
failure_missing (some failure) = not failure.failure_handling_required

reason_is_none : SandboxRejectionReason → Bool
reason_is_none no_reason = true
reason_is_none _ = false

module _ {W : Type 0} ⦃F : Float W⦄ where
  unfoldable pub validate_instrument_profile :
      InstrumentTradingProfile W → List SandboxValidationIssue
  unfolding is_blank
  validate_instrument_profile instrument =
      only_if (instrument.is_suspended) (
        issue "instrument_suspended" "Suspended instruments cannot be tradable."
          suspended_instrument)
      ++ (only_if (not instrument.st_flag_explicit || not instrument.delisting_risk_explicit) (
            issue "risk_flags_missing" "ST and delisting risk flags must be explicit."
              st_or_delisting_risk)
          ++ (only_if (is_none instrument.price_limit_up || is_none instrument.price_limit_down) (
                issue "instrument_price_limits_missing"
                  "Instrument price limit assumptions must be explicit." price_limit_violation)
              ++ (only_if (leb_ℤ instrument.lot_size (pos 0)) (
                    issue "instrument_lot_size_missing" "Instrument lot size must be explicit."
                      invalid_lot_size)
                  ++ (only_if (is_blank instrument.external_adapter_boundary) (
                      issue "instrument_adapter_boundary_missing"
                        "Instrument profile must document external adapter boundaries."
                        adapter_boundary_missing)))))

  unfoldable pub validate_account_constraint : AccountConstraint W → List SandboxValidationIssue
  validate_account_constraint account =
      only_if (not (account.cash_constraint_explicit && not (is_none account.available_cash))) (
        issue "cash_constraint_missing" "Cash constraint must be explicit." cash_constraint_missing)

  unfoldable pub validate_capital_constraint : CapitalConstraint W → List SandboxValidationIssue
  unfolding is_blank
  validate_capital_constraint capital =
      only_if (le capital.max_order_notional zero_float) (
        issue "max_order_notional_non_positive" "Max order notional must be positive."
          capital_constraint_violation)
      ++ (only_if (le capital.max_position_notional zero_float) (
            issue "max_position_notional_non_positive" "Max position notional must be positive."
              capital_constraint_violation)
          ++ (only_if
                (not (
                  lt zero_float capital.max_cash_usage_ratio
                  && le capital.max_cash_usage_ratio (F.of_int (pos 1))))
                (issue "max_cash_usage_ratio_invalid"
                  "Max cash usage ratio must be greater than 0 and at most 1."
                  capital_constraint_violation)
              ++ (only_if (lt capital.min_cash_reserve zero_float) (
                    issue "min_cash_reserve_negative" "Minimum cash reserve must be non-negative."
                      capital_constraint_violation)
                  ++ (only_if (is_blank capital.capital_mode) (
                      issue "capital_mode_missing" "Capital mode must be explicit."
                        capital_constraint_violation)))))

  unfoldable pub validate_cost_model : CostModel W → List SandboxValidationIssue
  unfolding is_blank
  validate_cost_model cost =
      only_if (lt cost.commission_rate zero_float) (
        issue "commission_rate_negative"
          "Commission, stamp duty, and transfer fee fields must be present and non-negative."
          cost_model_missing)
      ++ (only_if (lt cost.stamp_duty_rate zero_float) (
            issue "stamp_duty_rate_negative"
              "Commission, stamp duty, and transfer fee fields must be present and non-negative."
              cost_model_missing)
          ++ (only_if (lt cost.transfer_fee_rate zero_float) (
                issue "transfer_fee_rate_negative"
                  "Commission, stamp duty, and transfer fee fields must be present and non-negative."
                  cost_model_missing)
              ++ (only_if (is_blank cost.external_adapter_boundary) (
                  issue "cost_adapter_boundary_missing"
                    "Cost model must document external adapter boundaries."
                    adapter_boundary_missing))))

  unfoldable pub validate_slippage_model : SlippageModel W → List SandboxValidationIssue
  unfolding is_blank
  validate_slippage_model slippage =
      only_if (is_blank slippage.model_name || lt slippage.slippage_bps zero_float) (
        issue "slippage_model_missing" "Slippage model must be explicit and non-negative."
          slippage_model_missing)
      ++ (only_if (is_blank slippage.external_adapter_boundary) (
          issue "slippage_adapter_boundary_missing"
            "Slippage model must document external adapter boundaries." adapter_boundary_missing))

  unfoldable pub validate_fill_simulation : FillSimulation W → List SandboxValidationIssue
  unfolding reason_is_none
  validate_fill_simulation fill =
      only_if (ltb_ℤ fill.requested_quantity fill.filled_quantity) (
        issue "fill_quantity_exceeds_request" "Filled quantity cannot exceed requested quantity."
          price_limit_violation)
      ++ (only_if (fill.rejected && reason_is_none fill.rejection_reason) (
            issue "fill_rejection_reason_missing"
              "Rejected fills must include a clear SandboxRejectionReason." price_limit_violation)
          ++ (only_if (fill.partial_fill && leb_ℤ fill.requested_quantity fill.filled_quantity) (
              issue "partial_fill_inconsistent"
                "Partial fills must fill less than requested quantity." price_limit_violation)))

  -- the tests of `validate_sandbox_scenario` on the execution constraint
  unfoldable pub validate_execution : ExecutionConstraint W → List SandboxValidationIssue
  validate_execution constraint =
      only_if (constraint.lot_size_required && leb_ℤ constraint.lot_size (pos 0)) (
        issue "lot_size_missing" "Lot size must be explicit when lot-size validation is required."
          invalid_lot_size)
      ++ (only_if (not constraint.t_plus_one_required && not constraint.t_zero_eligible) (
            issue "t_plus_or_t_zero_missing" "T+1 or T+0 eligibility must be explicit."
              t_plus_one_violation)
          ++ (only_if (is_none constraint.price_limit_up || is_none constraint.price_limit_down) (
                issue "execution_price_limits_missing"
                  "Execution price-limit assumptions must be explicit." price_limit_violation)
              ++ (only_if (not constraint.rejected_order_model_required) (
                  issue "rejected_order_model_missing" "Rejected-order handling must be explicit."
                    price_limit_violation))))

  -- the tests of `validate_sandbox_scenario` from the calendar on
  unfoldable pub validate_assumptions : SandboxScenario W → List SandboxValidationIssue
  unfolding is_blank latency_missing failure_missing
  validate_assumptions scenario =
      only_if (is_blank scenario.calendar.external_adapter_boundary) (
        issue "calendar_adapter_boundary_missing"
          "Trading calendar must document its external adapter boundary." adapter_boundary_missing)
      ++ (only_if (latency_missing scenario.data_latency) (
            issue "data_latency_assumption_missing"
              "Data latency and timestamp audit assumptions must be explicit."
              data_latency_assumption_missing)
          ++ (only_if (failure_missing scenario.provider_failure) (
                issue "provider_failure_assumption_missing"
                  "Provider failure handling assumptions must be explicit."
                  provider_failure_assumption_missing)
              ++ (only_if (not scenario.timestamp_audit_required) (
                    issue "timestamp_audit_missing" "Timestamp audit assumptions must be required."
                      data_latency_assumption_missing)
                  ++ (only_if (not scenario.no_live_execution) (
                        issue "live_execution_not_blocked"
                          "Sandbox scenarios must explicitly block live execution."
                          live_execution_forbidden)
                      ++ (only_if
                          (not (has_external_adapter_boundary scenario.external_adapter_boundaries))
                          (issue "external_adapter_boundary_missing"
                            "External adapter boundaries must name mature engines or libraries."
                            adapter_boundary_missing))))))

  unfoldable pub validate_sandbox_scenario : SandboxScenario W → List SandboxValidationIssue
  validate_sandbox_scenario scenario =
      validate_instrument_profile scenario.instrument
      ++ (validate_account_constraint scenario.account_constraint
          ++ (validate_capital_constraint scenario.capital_constraint
              ++ (validate_cost_model scenario.cost_model
                  ++ (validate_slippage_model scenario.slippage_model
                      ++ (validate_execution scenario.execution_constraint
                          ++ (validate_assumptions scenario))))))

  unfoldable pub validate_sandbox_result : SandboxResult W → List SandboxValidationIssue
  unfolding is_blank
  validate_sandbox_result result =
      only_if (result.live_execution_claim || not (is_none result.broker_execution_reference)) (
        issue "sandbox_result_live_execution_claim"
          "Sandbox results must not claim live execution or broker routing."
          live_execution_forbidden)
      ++ (only_if (is_blank result.external_adapter_boundary) (
            issue "result_adapter_boundary_missing"
              "Sandbox result must document external adapter boundaries." adapter_boundary_missing)
          ++ (only_if (result.fill_simulation.rejected && is_empty result.rejection_reasons) (
                issue "rejection_reason_missing"
                  "Rejected sandbox results must carry clear rejection reasons."
                  price_limit_violation)
              ++ (validate_fill_simulation result.fill_simulation)))
