-- ===== src/Replay/Contracts.antt =====
-- src/quantpilot_core/multi_day_paper_replay/contracts.py. A status or decision is the enum itself, of
-- which the code stores the value.
use quant_pilot_ai_next.Base.{String, Bool, Option, List}
use quant_pilot_ai_next.Int.{ℤ}
use quant_pilot_ai_next.Dict.{Dict}
use quant_pilot_ai_next.RiskFlags.{RiskFlag}
use quant_pilot_ai_next.ActionBridge.Contracts.{PaperLedgerCandidateInstruction}
use quant_pilot_ai_next.DryRun.Contracts.{PaperLedgerDryRunResult}

pub data PaperReplayDecision : Type 0 where
  completed partial blocked : PaperReplayDecision

pub data PaperReplayDayStatus : Type 0 where
  simulated partial blocked skipped : PaperReplayDayStatus

pub record PaperReplayDayInput (W : Type 0) : Type 0 where
  pub trading_date : String
  pub instructions : List (PaperLedgerCandidateInstruction W)

pub record PaperReplayDayResult (W : Type 0) : Type 0 where
  pub trading_date : String
  pub status : PaperReplayDayStatus
  pub reason : String
  pub dry_run_result : Option (PaperLedgerDryRunResult W)
  pub cash_start : W
  pub cash_end : W
  pub positions_start : Dict ℤ
  pub positions_end : Dict ℤ
  pub blocked_instruction_ids : List String
  pub risk_flags : List RiskFlag

pub record PaperReplayResult (W : Type 0) : Type 0 where
  pub ok : Bool
  pub decision : PaperReplayDecision
  pub reason : String
  pub day_results : List (PaperReplayDayResult W)
  pub final_cash : W
  pub final_positions : Dict ℤ
  pub blocked_days : List String
  pub risk_flags : List RiskFlag
