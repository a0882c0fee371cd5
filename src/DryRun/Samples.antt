-- ===== src/DryRun/Samples.antt =====
-- Instructions in fixed-point money, in units of 10^-8, for the tests of
-- src/quantpilot_core/paper_ledger_dry_run and multi_day_paper_replay.
use quant_pilot_ai_next.Base.{none, [], ◌∷◌}
use quant_pilot_ai_next.Int.{ℤ, pos}
use quant_pilot_ai_next.ActionBridge.Contracts.{PaperLedgerCandidateInstruction}

-- 100 shares at 10.00
abbrev pub purchase : PaperLedgerCandidateInstruction ℤ
purchase = record {
  proposal_id = "p1";
  symbol = "600000";
  side = "buy";
  quantity = pos 100;
  estimated_price = pos 1_000_000_000;
  limit_price = none;
  estimated_notional = pos 100_000_000_000;
  reason = "";
  evidence_refs = "e1" ∷ [];
}

abbrev pub first_sale : PaperLedgerCandidateInstruction ℤ
first_sale = record purchase {
  proposal_id = "p2";
  side = "sell";
  quantity = pos 200;
  estimated_notional = pos 200_000_000_000;
}

abbrev pub second_sale : PaperLedgerCandidateInstruction ℤ
second_sale = record purchase { proposal_id = "p3"; side = "sell" }
