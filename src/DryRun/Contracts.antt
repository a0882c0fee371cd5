-- ===== src/DryRun/Contracts.antt =====
-- src/quantpilot_core/paper_ledger_dry_run/contracts.py. A status or decision is the enum itself, of
-- which the code stores the value.
use quant_pilot_ai_next.Base.{String, Bool, List}
use quant_pilot_ai_next.Int.{ℤ}
use quant_pilot_ai_next.Dict.{Dict}
use quant_pilot_ai_next.RiskFlags.{RiskFlag}

pub data PaperLedgerDryRunDecision : Type 0 where
  accepted blocked partial : PaperLedgerDryRunDecision

pub data PaperLedgerDryRunInstructionStatus : Type 0 where
  simulated rejected skipped : PaperLedgerDryRunInstructionStatus

pub record PaperLedgerDryRunInstructionResult (W : Type 0) : Type 0 where
  pub proposal_id : String
  pub symbol : String
  pub side : String
  pub quantity : ℤ
  pub estimated_price : W
  pub estimated_notional : W
  pub status : PaperLedgerDryRunInstructionStatus
  pub reason : String
  pub estimated_cash_delta : W
  pub estimated_position_delta : ℤ
  pub risk_flags : List RiskFlag
  pub evidence_refs : List String

pub record PaperLedgerDryRunResult (W : Type 0) : Type 0 where
  pub ok : Bool
  pub decision : PaperLedgerDryRunDecision
  pub reason : String
  pub instruction_results : List (PaperLedgerDryRunInstructionResult W)
  pub simulated_cash_after : W
  pub simulated_positions_after : Dict ℤ
  pub blocked_instruction_ids : List String
  pub risk_flags : List RiskFlag
