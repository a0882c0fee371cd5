-- ===== src/ModelRouter/Tests.antt =====
-- Requests to src/quantpilot_core/deepseek_multi_agent/runtime_router.py, with costs in units of
-- 10^-8 dollars.
use quant_pilot_ai_next.Base.{
  ℕ, String, ◌≡◌, refl, true, false, Option, none, some, ◌⊎◌, raised, type_error,
}
use quant_pilot_ai_next.Int.{ℤ, pos}
use quant_pilot_ai_next.Float.{fixed}
use quant_pilot_ai_next.ModelRouter.Contracts.{deepseek, risk_review, ModelRouteRequest}
use quant_pilot_ai_next.ModelRouter.Routing.{
  select_model, route_model_for_request, ClockTime, parse_time_text, is_peak_time,
}
use quant_pilot_ai_next.ModelRouter.Laws.{
  select_model_peak, route_model_for_request_decides, IsAnswered,
}

-- a calendar that reads every text as a date at 10:30
abbrev half_past_ten : String → Option ℕ
half_past_ten text = some 630

-- one that knows no dates, and a clock that reads every text as 10:30 with a zone
abbrev no_dates : String → Option ℕ
no_dates text = none

abbrev zoned : String → Option ClockTime
zoned text = some (record { minute = 630; is_aware = true })

abbrev asking : Option String → ModelRouteRequest ℤ (Unit {0})
asking requested = record {
  provider = deepseek;
  role = tt;
  task_category = risk_review;
  as_of_time_bjt = "2026-08-15T10:30:00";
  token_estimate = record {
    input_tokens = pos 1000;
    output_tokens = pos 500;
    cache_hit_input_tokens = pos 0;
  };
  critical = false;
  proposed_trade_exists = true;
  budget_policy = record {
    max_usd_per_run = pos 100_000_000;
    max_usd_per_day = pos 100_000_000;
    max_tokens_per_agent_call = pos 8000;
    allow_defer = true;
  };
  requested_model = requested;
}

select_model_peak_example :
    let request = asking (some "deepseek-reasoner") in
    (request.requested_model ≡ some "deepseek-reasoner")
    ⊎ ((request.task_category ≡ risk_review) × (request.proposed_trade_exists ≡ true))
unfolding select_model
select_model_peak_example = select_model_peak (asking (some "deepseek-reasoner")) refl refl

route_model_for_request_decides_example :
    IsAnswered (asking none) 630 (route_model_for_request half_past_ten zoned (asking none) none)
route_model_for_request_decides_example =
    route_model_for_request_decides half_past_ten zoned (asking none)

-- a time with a zone and without a date
zone_raises : route_model_for_request no_dates zoned (asking none) none ≡ raised type_error
unfolding route_model_for_request parse_time_text is_peak_time
zone_raises = refl
