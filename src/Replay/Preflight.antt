-- ===== src/Replay/Preflight.antt =====
-- src/quantpilot_core/multi_day_paper_replay/preflight.py. `date.fromisoformat` is a parameter: it gives
-- the ordinal of a date, by which dates are compared, or nothing where it raises `ValueError`.
use Prim.Native.String
use quant_pilot_ai_next.Base.{
  ℕ, zero, suc, String, Bool, false, ◌&&◌, Option, none, some, List, [], ◌∷◌, ◌++◌, length,
  ◌==◌ as eq_ℕ, leb, if◌then◌else◌, only_if,
}
use quant_pilot_ai_next.Text.{is_blank, contains, code_points}
use quant_pilot_ai_next.Text.Strip.{decimal}
use quant_pilot_ai_next.Float.{Float}
use quant_pilot_ai_next.RiskFlags.{RiskFlag, critical, account_warnings}
use quant_pilot_ai_next.AccountProfile.Contracts.{AccountProfile}
use quant_pilot_ai_next.AccountProfile.Preflight.{run_account_profile_preflight}
use quant_pilot_ai_next.ActionBridge.Contracts.{PaperLedgerCandidateInstruction}
use quant_pilot_ai_next.Replay.Contracts.{PaperReplayDayInput}

abbrev pub ParseDate : Type 0
ParseDate = String → Option ℕ

-- `value[index] == "-"`
dash_at : ℕ → List ℕ → Bool
dash_at index [] = false
dash_at zero (c ∷ cs) = eq_ℕ c b'-'
dash_at (suc index) (c ∷ cs) = dash_at index cs

-- `_parse_strict_iso_date`
unfoldable pub parse_strict_iso_date : ParseDate → String → Option ℕ
unfolding dash_at
parse_strict_iso_date parse value =
    let codes = code_points value in
    if eq_ℕ (length codes) 10 && (dash_at 4 codes && dash_at 7 codes) then parse value else none

-- what the loop over the days remembers
pub record Seen : Type 0 where
  pub previous_date : Option ℕ
  pub dates : List String
  pub proposal_ids : List String

-- `previous_date is not None and parsed_date <= previous_date`
abbrev pub not_after : ℕ → Option ℕ → Bool
not_after parsed none = false
not_after parsed (some previous) = leb parsed previous

abbrev day_code : ℕ → String → String
day_code index what = String.◌++◌ "day[" (String.◌++◌ (decimal index) (String.◌++◌ "]:" what))

abbrev pub nothing_seen : Seen
nothing_seen = record { previous_date = none; dates = []; proposal_ids = [] }

module _ {W : Type 0} ⦃F : Float W⦄ (parse : ParseDate) where
  -- the loop over a day's instructions: its flags, and the proposals seen after it
  unfoldable pub proposal_flags :
      List String → List (PaperLedgerCandidateInstruction W) → List RiskFlag × List String
  proposal_flags seen [] = ([], seen)
  proposal_flags seen (instruction ∷ instructions) =
      let id = instruction.proposal_id in
      let (flags, seen') = proposal_flags (id ∷ seen) instructions in
      (
        only_if (contains id seen) (
              critical "duplicate_proposal_id_across_replay"
                "Duplicate proposal_id across replay is not allowed.")
            ++ flags,
        seen',
      )

  -- the flags of a day whose date is parsed, and what is remembered after it
  unfoldable pub dated_flags : Seen → PaperReplayDayInput W → ℕ → List RiskFlag × Seen
  dated_flags seen day parsed =
      let (flags, ids) = proposal_flags seen.proposal_ids day.instructions in
      (
        only_if (contains day.trading_date seen.dates)
              (critical "duplicate_trading_date" "Duplicate trading_date is not allowed.")
            ++ (only_if (not_after parsed seen.previous_date) (
                  critical "trading_dates_not_strictly_increasing"
                    "Replay days must be strictly increasing by trading_date.")
                ++ flags),
        record {
          previous_date = some parsed;
          dates = day.trading_date ∷ seen.dates;
          proposal_ids = ids;
        },
      )

  -- one round of the loop over the days; a day without a date is passed over
  unfoldable pub day_flags : ℕ → Seen → PaperReplayDayInput W → List RiskFlag × Seen
  day_flags index seen day =
      if is_blank day.trading_date
      then (critical (day_code index "trading_date_missing") "Trading date is required." ∷ [], seen)
      else elim (parse_strict_iso_date parse day.trading_date) [
        | none ↦ (
          critical (day_code index "trading_date_invalid") "Trading date must use YYYY-MM-DD." ∷ [],
          seen,
        )
        | some parsed ↦ dated_flags seen day parsed
      ]

  unfoldable pub days_flags : ℕ → Seen → List (PaperReplayDayInput W) → List RiskFlag
  days_flags index seen [] = []
  days_flags index seen (day ∷ days) =
      let (flags, seen') = day_flags index seen day in flags ++ days_flags (suc index) seen' days

  unfoldable pub validate_replay_inputs :
      List (PaperReplayDayInput W) → AccountProfile W → List RiskFlag
  validate_replay_inputs days profile =
      let preflight = run_account_profile_preflight profile false false in
      (if preflight.ok
        then []
        else account_warnings "Account preflight warning for paper replay: " preflight.risk_flags)
      ++ days_flags 0 nothing_seen days
