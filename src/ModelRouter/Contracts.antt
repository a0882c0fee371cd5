-- ===== src/ModelRouter/Contracts.antt =====
-- src/quantpilot_core/deepseek_multi_agent/runtime_contracts.py. The agent's role is not read by the
-- router and stays abstract; the time of a request is a text, as it comes from JSON.
use quant_pilot_ai_next.Base.{String, Bool, Option, List, [], ◌∷◌}
use quant_pilot_ai_next.Int.{ℤ}

abbrev pub deepseek_v4_flash : String
deepseek_v4_flash = "deepseek-v4-flash"

abbrev pub deepseek_v4_pro : String
deepseek_v4_pro = "deepseek-v4-pro"

abbrev pub supported_deepseek_models : List String
supported_deepseek_models = deepseek_v4_flash ∷ deepseek_v4_pro ∷ []

abbrev pub deprecated_deepseek_models : List String
deprecated_deepseek_models = "deepseek-chat" ∷ "deepseek-reasoner" ∷ []

pub data RuntimeProvider : Type 0 where
  deepseek fake : RuntimeProvider

pub data RuntimeTaskCategory : Type 0 where
  low_cost_batch news_event data_quality stat_summary factor_review : RuntimeTaskCategory
  market_regime risk_review supervisor_decision : RuntimeTaskCategory
  account_hard_gate execution_hard_gate : RuntimeTaskCategory

pub record CostBudgetPolicy (W : Type 0) : Type 0 where
  pub max_usd_per_run : W
  pub max_usd_per_day : W
  pub max_tokens_per_agent_call : ℤ
  pub allow_defer : Bool

pub record TokenEstimate : Type 0 where
  pub input_tokens : ℤ
  pub output_tokens : ℤ
  pub cache_hit_input_tokens : ℤ

pub record ModelPrice (W : Type 0) : Type 0 where
  pub cache_hit_input_per_1m : W
  pub cache_miss_input_per_1m : W
  pub output_per_1m : W
  pub peak_multiplier : W

pub record ModelRouteRequest (W Role : Type 0) : Type 0 where
  pub provider : RuntimeProvider
  pub role : Role
  pub task_category : RuntimeTaskCategory
  pub as_of_time_bjt : String
  pub token_estimate : TokenEstimate
  pub critical : Bool
  pub proposed_trade_exists : Bool
  pub budget_policy : CostBudgetPolicy W
  pub requested_model : Option String

pub record ModelRouteDecision (W : Type 0) : Type 0 where
  pub accepted : Bool
  pub provider : RuntimeProvider
  pub model : Option String
  pub uses_llm : Bool
  pub deferred : Bool
  pub reason : String
  pub estimated_cost_usd : W
  pub is_peak : Bool
  pub warnings : List String

pub record FakeAiResponse (W : Type 0) : Type 0 where
  pub provider : RuntimeProvider
  pub model : String
  pub content : String
  pub estimated_cost_usd : W
