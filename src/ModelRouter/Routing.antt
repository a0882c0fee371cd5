-- ===== src/ModelRouter/Routing.antt =====
-- src/quantpilot_core/deepseek_multi_agent/runtime_router.py. The two ISO parsers are parameters, each
-- `none` where Python raises `ValueError`: `datetime.fromisoformat` as the minute of the day, since
-- `.time()` drops the zone, and `time.fromisoformat` as a time that keeps its zone.
use quant_pilot_ai_next.Base.{
  ℕ, String, Bool, true, false, Option, none, some, List, [], ◌∷◌, ◌++◌, ◌&&◌, ◌||◌, not,
  if◌then◌else◌, only_if, is_empty, leb, ltb, Call, returned, raised, value_error, runtime_error,
  type_error, ◌>>=◌,
}
use quant_pilot_ai_next.Int.{pos, ◌+ℤ◌, ltb_ℤ}
use quant_pilot_ai_next.Text.{◌==◌, contains, join}
use quant_pilot_ai_next.Dict.{Dict}
use quant_pilot_ai_next.Float.{Float, lt, le, zero_float}
use quant_pilot_ai_next.ModelRouter.Prices.{estimate_model_call_cost_usd}
use quant_pilot_ai_next.ModelRouter.Contracts.{
  deepseek_v4_flash, deepseek_v4_pro, supported_deepseek_models, deprecated_deepseek_models,
  RuntimeProvider, deepseek, fake, RuntimeTaskCategory, factor_review, market_regime, risk_review,
  supervisor_decision, account_hard_gate, execution_hard_gate, CostBudgetPolicy, ModelPrice,
  ModelRouteRequest, ModelRouteDecision, FakeAiResponse,
}

-- `is_peak_bjt` of a minute of the day: from 09:00 to before 12:00, and from 14:00 to before 18:00
unfoldable pub is_peak_bjt : ℕ → Bool
is_peak_bjt minute = (leb 540 minute && ltb minute 720) || (leb 840 minute && ltb minute 1080)

-- a `datetime.time`, at its minute, and whether it has a zone
pub record ClockTime : Type 0 where
  pub minute : ℕ
  pub is_aware : Bool

-- `_parse_time` of a text: as a date and time, or else as a time alone
unfoldable pub parse_time_text :
    (String → Option ℕ) → (String → Option ClockTime) → String → Call ClockTime
parse_time_text parse_datetime parse_clock text = elim (parse_datetime text) [
  | some minute ↦ returned (record { minute = minute; is_aware = false })
  | none ↦ elim (parse_clock text) [
    | some time ↦ returned time
    | none ↦ raised (value_error "Invalid isoformat string")
  ]
]

-- `is_peak_bjt` compares with times that have no zone, which a time with a zone refuses.
unfoldable pub is_peak_time : ClockTime → Call Bool
unfolding is_peak_bjt
is_peak_time time = if time.is_aware then raised type_error else returned (is_peak_bjt time.minute)

-- `category in HARD_GATE_TASKS`
unfoldable pub is_hard_gate : RuntimeTaskCategory → Bool
is_hard_gate account_hard_gate = true
is_hard_gate execution_hard_gate = true
is_hard_gate _ = false

-- the branches of `_select_model` on the category, where no model was requested
unfoldable pub model_by_category : RuntimeTaskCategory → Bool → Bool → Bool → String × List String
model_by_category factor_review critical trade peak =
    if peak && not critical
    then (deepseek_v4_flash, "peak_noncritical_pro_downgraded_to_flash" ∷ [])
    else (deepseek_v4_pro, [])
model_by_category market_regime critical trade peak =
    if peak && not critical
    then (deepseek_v4_flash, "peak_noncritical_pro_downgraded_to_flash" ∷ [])
    else (deepseek_v4_pro, [])
model_by_category risk_review critical trade peak =
    if critical || trade
    then (deepseek_v4_pro, [])
    else if peak
    then (deepseek_v4_flash, "peak_noncritical_risk_uses_flash" ∷ [])
    else (deepseek_v4_pro, [])
model_by_category supervisor_decision critical trade peak =
    if critical
    then (deepseek_v4_pro, [])
    else if peak
    then (deepseek_v4_flash, "peak_noncritical_supervisor_uses_flash" ∷ [])
    else (deepseek_v4_pro, [])
model_by_category _ critical trade peak = (deepseek_v4_flash, [])

-- the branches of `_select_model` on a requested model
requested_route : String → Bool → Bool → String × List String → String × List String
requested_route requested critical peak otherwise =
    if requested == "deepseek-chat"
    then (deepseek_v4_flash, "deprecated_model_normalized:deepseek-chat->deepseek-v4-flash" ∷ [])
    else if requested == "deepseek-reasoner"
    then (deepseek_v4_pro, "deprecated_model_normalized:deepseek-reasoner->deepseek-v4-pro" ∷ [])
    else if requested == deepseek_v4_flash
    then (deepseek_v4_flash, [])
    else if requested == deepseek_v4_pro && (peak && not critical)
    then (deepseek_v4_flash, "peak_noncritical_pro_downgraded_to_flash" ∷ [])
    else if requested == deepseek_v4_pro
    then (deepseek_v4_pro, [])
    else otherwise

-- the first reason of `_validate_request`
is_unsupported : Option String → Bool
is_unsupported none = false
is_unsupported (some requested) =
    not (contains requested deprecated_deepseek_models)
    && not (contains requested supported_deepseek_models)

-- `decision.provider.value`
provider_value : RuntimeProvider → String
provider_value deepseek = "deepseek"
provider_value fake = "fake"

module _ {W Role : Type 0} ⦃F : Float W⦄ where
  unfoldable pub select_model : ModelRouteRequest W Role → Bool → String × List String
  unfolding requested_route
  select_model request peak =
      let by_category =
        model_by_category request.task_category request.critical request.proposed_trade_exists
          peak in
      elim request.requested_model [
        | none ↦ by_category
        | some requested ↦ requested_route requested request.critical peak by_category
      ]

  unfoldable pub validate_request : ModelRouteRequest W Role → List String
  unfolding is_unsupported
  validate_request request =
      let tokens = request.token_estimate in
      let budget = request.budget_policy in
      only_if (is_unsupported request.requested_model) "unsupported_model_not_allowed"
      ++ (only_if (ltb_ℤ tokens.input_tokens (pos 0) || ltb_ℤ tokens.output_tokens (pos 0))
            "token_estimate_negative"
          ++ (only_if (ltb_ℤ tokens.cache_hit_input_tokens (pos 0)) "cache_hit_tokens_negative"
              ++ (only_if
                    (ltb_ℤ budget.max_tokens_per_agent_call
                      (tokens.input_tokens +ℤ tokens.output_tokens))
                    "token_estimate_exceeds_agent_call_limit"
                  ++ (only_if (le budget.max_usd_per_run zero_float) "run_budget_must_be_positive"
                      ++ only_if (le budget.max_usd_per_day zero_float)
                          "day_budget_must_be_positive"))))

module _ {W : Type 0} ⦃F : Float W⦄ where
  unfoldable pub budget_reason : W → CostBudgetPolicy W → Option String
  budget_reason estimated_cost budget =
      if lt budget.max_usd_per_run estimated_cost || lt budget.max_usd_per_day estimated_cost
      then (if budget.allow_defer
          then some "cost_over_budget_deferred"
          else some "cost_over_budget_rejected")
      else none

  -- `FakeAIClient.run`
  unfoldable pub fake_run : ModelRouteDecision W → Call (FakeAiResponse W)
  unfolding provider_value
  fake_run decision =
      if not decision.accepted
      then raised (runtime_error "route decision is not ok")
      else elim decision.model [
        | none ↦ raised (runtime_error "route decision does not use an llm")
        | some model ↦
            if not decision.uses_llm
            then raised (runtime_error "route decision does not use an llm")
            else returned (record {
              provider = decision.provider;
              model = model;
              content = join ":" ("fake_response" ∷ provider_value decision.provider ∷ model ∷ []);
              estimated_cost_usd = decision.estimated_cost_usd;
            })
      ]

module _ {W Role : Type 0} ⦃F : Float W⦄ where
  -- a decision that calls no model
  unrouted : ModelRouteRequest W Role → Bool → String → Bool → List String → ModelRouteDecision W
  unrouted request accepted reason peak warnings = record {
    accepted = accepted;
    provider = request.provider;
    model = none;
    uses_llm = false;
    deferred = false;
    reason = reason;
    estimated_cost_usd = zero_float;
    is_peak = peak;
    warnings = warnings;
  }

  -- the decision on a chosen model and its estimated cost
  unfoldable pub decide_on_budget :
      ModelRouteRequest W Role → Bool → String × List String → W → ModelRouteDecision W
  unfolding budget_reason
  decide_on_budget request peak (model, routing_warnings) estimated =
      elim (budget_reason estimated request.budget_policy) [
        | none ↦ record {
          accepted = true;
          provider = request.provider;
          model = some model;
          uses_llm = true;
          deferred = false;
          reason = "ok";
          estimated_cost_usd = estimated;
          is_peak = peak;
          warnings = routing_warnings;
        }
        | some reason ↦ record {
          accepted = false;
          provider = request.provider;
          model = some model;
          uses_llm = true;
          deferred = request.budget_policy.allow_defer;
          reason = reason;
          estimated_cost_usd = estimated;
          is_peak = peak;
          warnings = routing_warnings;
        }
      ]

  -- `route_model_for_request` once the time is known
  unfoldable pub route_at :
      ModelRouteRequest W Role → Option (Dict (ModelPrice W)) → Bool → Call (ModelRouteDecision W)
  unfolding unrouted
  route_at request model_prices peak =
      let reasons = validate_request request in
      let choice = select_model request peak in
      if not (is_empty reasons)
      then returned (unrouted request false (join ";" reasons) peak [])
      else if is_hard_gate request.task_category
      then returned (
          unrouted request true "hard_gate_uses_no_llm" peak (elim request.requested_model [
            | none ↦ []
            | some requested ↦ "hard_gate_ignores_requested_model" ∷ []
          ]))
      else (estimate_model_call_cost_usd choice.0 request.token_estimate peak model_prices
          >>= λ estimated. returned (decide_on_budget request peak choice estimated))

  unfoldable pub route_model_for_request :
      (String → Option ℕ)
      → (String → Option ClockTime)
      → ModelRouteRequest W Role
      → Option (Dict (ModelPrice W))
      → Call (ModelRouteDecision W)
  unfolding route_at parse_time_text is_peak_time
  route_model_for_request parse_datetime parse_clock request model_prices = do
    time ← parse_time_text parse_datetime parse_clock request.as_of_time_bjt
    peak ← is_peak_time time
    route_at request model_prices peak
