-- ===== src/ModelRouter/Laws.antt =====
-- What src/quantpilot_core/deepseek_multi_agent/runtime_router.py guarantees of every request.
use quant_pilot_ai_next.Base.{
  ℕ, String, ◌≡◌, refl, ◌≢◌, Bool, true, false, Option, none, some, List, [], ◌∷◌, arith, returned,
  raised, type_error, value_error, ◌≤◌, ◌<◌, is_empty, Bool-cases, Option-cases, inl, inr, ◌⊎◌, ◌↔◌,
  Call, ReturnsUnless-map, ReturnsUnless, overflow_error,
}
use quant_pilot_ai_next.Text.{eq_iff}
use quant_pilot_ai_next.Dict.{lookup}
use quant_pilot_ai_next.Float.{Float, lt, zero_float}
use quant_pilot_ai_next.ModelRouter.Contracts.{
  deepseek_v4_flash, deepseek_v4_pro, RuntimeTaskCategory, risk_review, CostBudgetPolicy,
  TokenEstimate, ModelPrice, ModelRouteRequest, ModelRouteDecision, factor_review,
}
use quant_pilot_ai_next.ModelRouter.Routing.{
  ClockTime, parse_time_text, is_peak_time, is_peak_bjt, is_hard_gate, model_by_category,
  select_model, validate_request, decide_on_budget, route_at, route_model_for_request,
}
use quant_pilot_ai_next.ModelRouter.Prices.{
  call_cost, estimate_model_call_cost_usd, default_model_prices, counts_fit,
}

-- The router knows two models.
abbrev pub IsKnownModel : String → Type 0
IsKnownModel model = (model ≡ deepseek_v4_flash) ⊎ (model ≡ deepseek_v4_pro)

model_by_category-IsKnownModel :
    (category : RuntimeTaskCategory) (critical trade peak : Bool)
    → IsKnownModel (model_by_category category critical trade peak).0
unfolding model_by_category
model_by_category-IsKnownModel factor_review critical trade peak = ground arith
model_by_category-IsKnownModel _ critical trade peak = ground arith

flash_ne_pro : deepseek_v4_flash ≢ deepseek_v4_pro
flash_ne_pro e = cc ((eq_iff deepseek_v4_flash deepseek_v4_pro).1 e)

pro_by_category :
    (category : RuntimeTaskCategory) (trade : Bool)
    → (model_by_category category false trade true).0 ≡ deepseek_v4_pro
    → (category ≡ risk_review) × (trade ≡ true)
unfolding model_by_category
pro_by_category risk_review trade h = ground (arith, flash_ne_pro)
pro_by_category _ trade h = absurd (flash_ne_pro h)

priced :
    {W : Type 0} ⦃F : Float W⦄ (model : String)
    → IsKnownModel model
    → (price : ModelPrice W) × (lookup model default_model_prices ≡ some price)
unfolding default_model_prices lookup
priced model (inl e) = rw e (_, refl)
priced model (inr e) = rw e (_, refl)

nonempty : (xs : List String) → is_empty xs ≡ false → xs ≢ []
nonempty xs h = ground arith

is_nil : (xs : List String) → is_empty xs ≡ true → xs ≡ []
is_nil [] h = refl
is_nil (x ∷ xs) h = cc

peak_hours :
    (minute : ℕ) (peak : Bool)
    → peak ≡ is_peak_bjt minute
    → (peak ≡ true) ↔ (((540 ≤ minute) × (minute < 720)) ⊎ ((840 ≤ minute) × (minute < 1080)))
unfolding is_peak_bjt
peak_hours minute peak h = (λ e. ground arith, λ k. ground arith)

estimate-default :
    (W : Type 0) ⦃F : Float W⦄ (model : String) (tokens : TokenEstimate) (peak : Bool)
    → IsKnownModel model
    → ((cost : W) × (estimate_model_call_cost_usd {W = W} model tokens peak none ≡ returned cost))
      ⊎ ((counts_fit W tokens ≡ false)
          × (estimate_model_call_cost_usd {W = W} model tokens peak none ≡ raised overflow_error))
unfolding estimate_model_call_cost_usd
estimate-default W model tokens peak known =
    let (price, found) = priced model known in
    elim (Bool-cases (counts_fit W tokens)) [
      | inl small ↦
          inl (call_cost price tokens peak, rw (found, small, estimate_model_call_cost_usd) refl)
      | inr large ↦ inr (large, rw (found, large, estimate_model_call_cost_usd) refl)
    ]

abbrev pub IsWithinBudget : {W : Type 0} ⦃F : Float W⦄ → CostBudgetPolicy W → W → Type 0
IsWithinBudget budget cost =
    (lt budget.max_usd_per_run cost ≡ false) × (lt budget.max_usd_per_day cost ≡ false)

module _ {W Role : Type 0} ⦃F : Float W⦄ where
  select_model-IsKnownModel :
      (request : ModelRouteRequest W Role) (peak : Bool)
      → IsKnownModel (select_model request peak).0
  unfolding select_model
  select_model-IsKnownModel request peak = ground (
    arith,
    model_by_category-IsKnownModel request.task_category request.critical
        request.proposed_trade_exists peak,
  )

  -- At peak a request that is not critical gets the pro model only by asking for the deprecated
  -- name `deepseek-reasoner`, or as a risk review of a proposed trade.
  pub select_model_peak :
      (request : ModelRouteRequest W Role)
      → request.critical ≡ false
      → (select_model request true).0 ≡ deepseek_v4_pro
      → (request.requested_model ≡ some "deepseek-reasoner")
        ⊎ ((request.task_category ≡ risk_review) × (request.proposed_trade_exists ≡ true))
  unfolding select_model
  select_model_peak request calm pro = elim (Option-cases request.requested_model) [
    | inl unasked ↦
        ground
          (arith, flash_ne_pro, pro_by_category request.task_category request.proposed_trade_exists)
    | inr (m, asked) ↦ ground (
      arith,
      flash_ne_pro,
      eq_iff m "deepseek-reasoner",
      pro_by_category request.task_category request.proposed_trade_exists,
    )
  ]

  -- No model is called: the request is refused, or it is a hard gate, which passes at no cost.
  abbrev pub IsWithoutModel : ModelRouteRequest W Role → ModelRouteDecision W → Type 0
  IsWithoutModel request d =
      (d.uses_llm ≡ false)
      × (d.model ≡ none)
      × (d.deferred ≡ false)
      × (d.estimated_cost_usd ≡ zero_float)
      × (((validate_request request ≢ []) × (d.accepted ≡ false))
          ⊎ ((validate_request request ≡ [])
              × (is_hard_gate request.task_category ≡ true)
              × (d.accepted ≡ true)))

  -- The selected model is called: the request is accepted exactly within both budgets, and deferred
  -- exactly when it is over a budget and the policy allows it.
  abbrev pub IsWithModel : ModelRouteRequest W Role → ModelRouteDecision W → Type 0
  IsWithModel request d =
      (validate_request request ≡ [])
      × (is_hard_gate request.task_category ≡ false)
      × (d.uses_llm ≡ true)
      × (d.model ≡ some (select_model request d.is_peak).0)
      × ((d.accepted ≡ true) ↔ IsWithinBudget request.budget_policy d.estimated_cost_usd)
      × ((d.deferred ≡ true) ↔ ((d.accepted ≡ false) × (request.budget_policy.allow_defer ≡ true)))

  decide_on_budget-IsWithModel :
      (request : ModelRouteRequest W Role) (peak : Bool) (cost : W)
      → validate_request request ≡ []
      → is_hard_gate request.task_category ≡ false
      → let d = decide_on_budget request peak (select_model request peak) cost in
        (d.is_peak ≡ peak) × IsWithModel request d
  unfolding decide_on_budget
  decide_on_budget-IsWithModel request peak cost valid open_task = ground arith

  abbrev IsDecided : ModelRouteRequest W Role → Bool → ModelRouteDecision W → Type 0
  IsDecided request peak d = (d.is_peak ≡ peak) × (IsWithoutModel request d ⊎ IsWithModel request d)

  route_at-IsDecided :
      (request : ModelRouteRequest W Role) (peak : Bool)
      → ReturnsUnless
          (counts_fit W request.token_estimate ≡ false)
          overflow_error
          (IsDecided request peak)
          (route_at request none peak)
  unfolding route_at
  route_at-IsDecided request peak = elim (Bool-cases (is_empty (validate_request request))) [
    | inr bad ↦ rw bad (refl, inl (refl, refl, refl, refl, inl (nonempty _ bad, refl)))
    | inl valid ↦ rw valid (elim (Bool-cases (is_hard_gate request.task_category)) [
      | inl gate ↦ rw gate (refl, inl (refl, refl, refl, refl, inr (is_nil _ valid, gate, refl)))
      | inr open_task ↦
          elim (estimate-default W (select_model request peak).0 request.token_estimate peak
            (select_model-IsKnownModel request peak)) [
              | inr (large, overflow) ↦ rw (open_task, overflow) (large, refl)
              | inl (cost, found) ↦
                  let (same, decided) =
                    decide_on_budget-IsWithModel request peak cost (is_nil _ valid) open_task in
                  rw (open_task, found) (same, inr decided)
            ]
    ])
  ]

  -- A decision on a request at the minute of the day, at peak from 09:00 to 12:00 and from 14:00 to
  -- 18:00, unless a count of tokens is too large for a double.
  abbrev pub IsAnswered : ModelRouteRequest W Role → ℕ → Call (ModelRouteDecision W) → Type 0
  IsAnswered request minute outcome =
      ReturnsUnless (counts_fit W request.token_estimate ≡ false) overflow_error
        (λ d.
          ((d.is_peak ≡ true)
            ↔ (((540 ≤ minute) × (minute < 720)) ⊎ ((840 ≤ minute) × (minute < 1080))))
          × (IsWithoutModel request d ⊎ IsWithModel request d))
        outcome

  -- The outcome by what its time is as a date and time, or else as a time.
  abbrev pub IsRouted :
      ModelRouteRequest W Role → Option ℕ → Option ClockTime → Call (ModelRouteDecision W) → Type 0
  IsRouted request (some minute) clock outcome = IsAnswered request minute outcome
  IsRouted request none (some time) outcome =
      ((time.is_aware ≡ false) × IsAnswered request time.minute outcome)
      ⊎ ((time.is_aware ≡ true) × (outcome ≡ raised type_error))
  IsRouted request none none outcome = outcome ≡ raised (value_error "Invalid isoformat string")

  route_at-IsAnswered :
      (request : ModelRouteRequest W Role) (minute : ℕ)
      → IsAnswered request minute (route_at request none (is_peak_bjt minute))
  route_at-IsAnswered request minute =
      ReturnsUnless-map _ _ _ _ (route_at request none (is_peak_bjt minute))
        (route_at-IsDecided request (is_peak_bjt minute))
        λ d h. (peak_hours minute d.is_peak h.0, h.1)

  -- With the default prices, a request is answered whose time is a date and time, or else a time
  -- without a zone, except that a count of tokens too large for a double may raise OverflowError; peak
  -- is from 09:00 to 12:00 and from 14:00 to 18:00. Either no model is called,
  -- since the request is invalid and is refused or is a valid hard gate and passes at no cost; or the
  -- selected model is called, also where a deprecated name was asked for, and the request is accepted
  -- exactly within both budgets and deferred exactly when it is not accepted and the policy allows to
  -- defer. A time with a zone and without a date raises TypeError, and what is no time raises
  -- ValueError.
  pub route_model_for_request_decides :
      (parse_datetime : String → Option ℕ) (parse_clock : String → Option ClockTime)
      (request : ModelRouteRequest W Role)
      → IsRouted request
          (parse_datetime request.as_of_time_bjt)
          (parse_clock request.as_of_time_bjt)
          (route_model_for_request parse_datetime parse_clock request none)
  unfolding route_model_for_request parse_time_text is_peak_time
  route_model_for_request_decides parse_datetime parse_clock request =
      elim (Option-cases (parse_datetime request.as_of_time_bjt)) [
        | inr (minute, dated) ↦ rw (parse_time_text, dated) (route_at-IsAnswered request minute)
        | inl undated ↦ elim (Option-cases (parse_clock request.as_of_time_bjt)) [
          | inl unread ↦ rw (parse_time_text, undated, unread) refl
          | inr (time, clock) ↦
              rw (parse_time_text, undated, clock)
                (elim (Bool-cases time.is_aware) [
                  | inl aware ↦ rw (is_peak_time, aware) (inr (refl, refl))
                  | inr naive ↦
                      rw (is_peak_time, naive) (inl (refl, route_at-IsAnswered request time.minute))
                ])
        ]
      ]
