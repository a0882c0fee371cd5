-- ===== src/Lib.antt =====
-- A verification library for QuantPilot-AI-Next, an A-share research and paper-trading system in
-- Python. The program never places a real order: it decides in local gates what a simulated order,
-- a model call or a report may do, and this library models those gates.
--
-- The parts, and the files that model them (paths from the repository's root):
--   PaperLedger: src/quantpilot_core/paper_ledger. `run_a_share_constrained_paper_order` runs one
--     order with board lots, costs, slippage and T+1; `run_paper_ledger_from_gated_sample` runs one
--     behind the quality gate. Contracts has the account, the order and the result, Costs the cost
--     model, Constrained and Gated the two paths; a function keeps its name, and the steps of the
--     two paths (settle, execute_order, fill_at_limit) are parts of one Python function.
--   AccountProfile: src/quantpilot_core/account_profile_preflight. Limits computes the sellable shares
--     and the weights of a profile, Preflight lists its flags.
--   ActionBridge: src/quantpilot_core/ai_action_paper_bridge. Preflight lists the flags of a proposal of
--     an AI agent, Bridge is `run_ai_action_paper_bridge`, which turns proposals into the candidate
--     instructions of the dry run.
--   DryRun: src/quantpilot_core/paper_ledger_dry_run. Preflight lists the flags of an instruction,
--     Simulate has `simulate_instruction`, Run the loop: `step` is one round on the record of its
--     variables, `dry_run` the run behind the switch.
--   Replay: src/quantpilot_core/multi_day_paper_replay. Preflight lists the flags of the days, Days has
--     the helpers, Run the loop over the days, which calls the dry run on the profile of each day.
--   PaperTrading: src/quantpilot_core/paper_trading/simulator.py and order_intent/controller.py.
--     Controller normalizes a proposal of order intents, Intents has the reasons to reject an intent
--     and the trade that is built from it, Simulator fills the intents in order; the
--     lists of fills and rejections are the two halves of one list of outcomes. Books has the loop of
--     `_apply_trades` in paper_trading/loop.py, which books the fills on the account.
--   LegacyEngine: src/quantpilot_core/config/legacy_engine.py, the switch that the dry run and the
--     replay ask first. RiskFlags has the flag that the four gates declare alike, and their helpers.
--   ModelRouter: src/quantpilot_core/deepseek_multi_agent/runtime_contracts.py and
--     runtime_router.py. Prices says what a call costs, Routing which model answers a request, at peak
--     hours and within the budgets.
--   MarketReality: src/quantpilot_core/market_reality. Scenario validates a sandbox scenario, Draft
--     an order draft in it; both return their issues.
--   ReportingStore: src/quantpilot_core/continuous_paper/store.py. Rows has the rows, their digests
--     and `_immutable`, Cycle `persist_cycle`, which works on copies and replaces the tables at the
--     end. A write is a function from the tables to an outcome and the tables.
--   MarketRules: src/quantpilot_core/market_rules/types.py and a_share.py. AShare lists the
--     violations of an order intent under a profile, which Types has as a record of the keys that the
--     code looks up, with values of the expected types.
--   ProviderFallback: src/quantpilot_core/provider_fallback_selector. Selector selects one of the two
--     optional data providers from what is reported about them.
--
-- Below them stand Base (tests on Booleans, lists, exceptions), Int (Python's `int`, its floor
-- modulus), Text (`str.strip`, `str.lower` and `in` as far as the program uses them), Dict (a `dict`
-- with string keys in insertion order) and Float.
--
-- Choices. A function that can raise returns a `Call`: a value or a Python exception. A tuple or
-- list of reasons is a List in the source's order. Python's `float` is a parameter: the record
-- `Float` has the operations and literals the program uses, `IsIeee` the laws that doubles meet
-- and a theorem may need (a difference, a sum and a rounding do not turn negative where they
-- should not, no number is less than itself, and no literal is less than a number's distance from
-- itself), `fits` says of an `int` that it converts to a double, and `fixed`, decimal fixed point over ℤ, meets them and serves the tests. The laws hold
-- of NaN and the infinities too. Other parameters are the two parsers of ISO times
-- (`datetime.fromisoformat`, and `time.fromisoformat` with the zone), and the JSON values of the store with their digest, `str` and `int`,
-- the ordinal of `date.fromisoformat`, and the value of the environment variable
-- USE_LEGACY_ENGINE. A status or decision that the code stores as the value of an enum is the enum
-- itself. Free metadata are left out. All loops run over lists; only `decimal`, which writes an
-- index with `str`, uses fuel: n + 1 rounds, each of which divides by ten. Aliasing is
-- modelled where an object is written to: `persist_cycle` says which of its tables are copies, and one
-- that is not would show the writes of a cycle that raises. The other records are frozen dataclasses.
-- `OverflowError` of `int * float` is modelled in PaperLedger and ModelRouter; the quantities in the
-- other parts are taken to be ones that a double holds.
--
-- Not modelled: network providers, prompts, reports written to files, the PostgreSQL store,
-- adapters to third-party engines (Qlib, vectorbt, RQAlpha, QMT), the command-line scripts; the
-- other local gates (position sizing, the valuation of a paper account) and the loading of
-- profiles have no model here.
pub mod Base
pub mod Int
pub mod Text
pub mod Dict
pub mod Float
pub mod RiskFlags
pub mod LegacyEngine
pub mod AccountProfile
pub mod ActionBridge
pub mod DryRun
pub mod Replay
pub mod PaperLedger
pub mod ModelRouter
pub mod MarketReality
pub mod MarketRules
pub mod ProviderFallback
pub mod ReportingStore
pub mod PaperTrading
