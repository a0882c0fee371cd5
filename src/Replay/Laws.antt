-- ===== src/Replay/Laws.antt =====
-- What holds of the loop over the days of src/quantpilot_core/multi_day_paper_replay/replay.py.
use quant_pilot_ai_next.Replay.Preflight.{ParseDate, validate_replay_inputs}
use quant_pilot_ai_next.Replay.Carry.{
  carry_successful_results_agrees, build_daily_account_profile-positions,
}
use quant_pilot_ai_next.DryRun.Run.{dry_run, run_paper_ledger_dry_run, initial_positions}
use quant_pilot_ai_next.DryRun.Laws.{NoShort, dry_run-NoShort}
use quant_pilot_ai_next.ActionBridge.Contracts.{PaperLedgerCandidateInstruction}
use quant_pilot_ai_next.LegacyEngine.{
  use_legacy_engine_default, require_legacy_engine, legacy_engine_enabled,
}
use quant_pilot_ai_next.Replay.Contracts.{
  PaperReplayDayResult, PaperReplayDayInput, PaperReplayResult,
}
use quant_pilot_ai_next.Replay.Days.{
  Carried, carry_successful_results, build_daily_account_profile, released,
}
use quant_pilot_ai_next.Dict.{Dict}
use quant_pilot_ai_next.AccountProfile.Contracts.{AccountProfile}
use quant_pilot_ai_next.Replay.Run.{
  replay_day, ReplayState, is_executed, replay_step, replay_from, day_status, replay_round,
  run_multi_day_paper_replay, skipped_day, replay_days, start_replay, finish_replay,
}
use quant_pilot_ai_next.Base.{
  ◌≡◌, refl, true, false, [], ◌∷◌, none, Returns, Option, String, List, Bool, Bool-cases,
  Returns-map, inl, Returns-bind, inr, returned,
}
use quant_pilot_ai_next.Int.{ℤ}
use quant_pilot_ai_next.Float.{Float}
use quant_pilot_ai_next.RiskFlags.{has_critical}

module _ {W : Type 0} where
  -- the days follow on each other: each starts with the cash and the positions that the one before it
  -- ended with, one that is not executed changes nothing, and none ends with a short position
  abbrev pub IsChained : W → Dict ℤ → List (PaperReplayDayResult W) → W → Dict ℤ → Type 0
  IsChained cash positions [] final_cash final_positions =
      (cash ≡ final_cash) × (positions ≡ final_positions)
  IsChained cash positions (r ∷ rs) final_cash final_positions =
      (cash ≡ r.cash_start)
      × (positions ≡ r.positions_start)
      × (is_executed r.status ≡ false
          → (r.cash_end ≡ r.cash_start) × (r.positions_end ≡ r.positions_start))
      × NoShort r.positions_end
      × IsChained r.cash_end r.positions_end rs final_cash final_positions

  -- the result of a day against the variables before and after it
  record Links (c : Carried W) (r : PaperReplayDayResult W) (c' : Carried W) : Type 0 where
    start : (c.cash ≡ r.cash_start) × (c.positions ≡ r.positions_start)
    unchanged :
        is_executed r.status ≡ false
        → (r.cash_end ≡ r.cash_start) × (r.positions_end ≡ r.positions_start)
    no_short : NoShort r.positions_end
    end : (r.cash_end ≡ c'.cash) × (r.positions_end ≡ c'.positions)

module _ {W : Type 0} ⦃F : Float W⦄ where
  -- where the environment enables the legacy engine, the dry run of a day returns
  run_enabled :
      (variable : Option String) (instructions : List (PaperLedgerCandidateInstruction W))
      (profile : AccountProfile W) (allow fail_fast : Bool)
      → use_legacy_engine_default variable ≡ true
      → run_paper_ledger_dry_run variable instructions profile allow fail_fast none
        ≡ returned (dry_run instructions profile allow fail_fast)
  unfolding run_paper_ledger_dry_run require_legacy_engine legacy_engine_enabled
  run_enabled variable instructions profile allow fail_fast e = rw e refl

  carried-NoShort :
      (profile : AccountProfile W) (c : Carried W)
      (instructions : List (PaperLedgerCandidateInstruction W)) (allow fail_fast : Bool)
      → NoShort c.positions
      → NoShort
          (carry_successful_results c
            (dry_run instructions
              (build_daily_account_profile profile c)
              allow
              fail_fast).instruction_results).positions
  carried-NoShort profile c instructions allow fail_fast h symbol =
      rw ((carry_successful_results_agrees profile c instructions allow fail_fast).1 symbol) (
        dry_run-NoShort instructions (build_daily_account_profile profile c) allow fail_fast
          (λ j. rw (build_daily_account_profile-positions profile c j) (h j)) symbol)

  replay_day-Links :
      (profile : AccountProfile W) (allow fail_fast : Bool) (s : ReplayState W)
      (day : PaperReplayDayInput W)
      → NoShort s.carried.positions
      → let dry =
          dry_run day.instructions
            (build_daily_account_profile profile s.carried)
            allow
            fail_fast in
        let (r, s') = replay_day fail_fast s day dry in Links s.carried r s'.carried
  unfolding replay_day
  replay_day-Links profile allow fail_fast s day h =
      let dry =
        dry_run day.instructions (build_daily_account_profile profile s.carried) allow fail_fast in
      record {
        start = (refl, refl);
        unchanged = λ e. rw e (refl, refl);
        no_short = elim (Bool-cases (is_executed (day_status dry.decision))) [
          | inl e ↦ rw e (carried-NoShort profile s.carried day.instructions allow fail_fast h)
          | inr e ↦ rw e h
        ];
        end = (refl, refl);
      }

  module _ (variable : Option String) (profile : AccountProfile W) (allow fail_fast : Bool)
      (enabled : use_legacy_engine_default variable ≡ true) where
    replay_round-Links :
        (skips : Bool) (s : ReplayState W) (day : PaperReplayDayInput W)
        → NoShort s.carried.positions
        → Returns
            (λ x. Links s.carried x.0 x.1.carried)
            (replay_round variable profile allow fail_fast skips s day)
    unfolding replay_round skipped_day
    replay_round-Links true s day h = record {
      start = (refl, refl);
      unchanged = λ e. (refl, refl);
      no_short = h;
      end = (refl, refl);
    }
    replay_round-Links false s day h =
        rw
          (run_enabled variable day.instructions (build_daily_account_profile profile s.carried)
            allow fail_fast enabled)
          (replay_day-Links profile allow fail_fast s day h)

    replay_step-Links :
        (s : ReplayState W) (day : PaperReplayDayInput W)
        → NoShort s.carried.positions
        → Returns
            (λ x. Links s.carried x.0 x.1.carried)
            (replay_step variable profile allow fail_fast s day)
    unfolding replay_step
    replay_step-Links s day h =
        Returns-map (λ x. Links (released s.carried) x.0 x.1.carried)
          (λ x. Links s.carried x.0 x.1.carried) _
          (replay_round-Links s.skipping (record s { carried = released s.carried }) day h)
          (λ x links. record {
            start = links.start;
            unchanged = links.unchanged;
            no_short = links.no_short;
            end = links.end;
          })

    replay_from-IsChained :
        (s : ReplayState W) (days : List (PaperReplayDayInput W))
        → NoShort s.carried.positions
        → Returns
            (λ x.
              IsChained s.carried.cash s.carried.positions x.0 x.1.carried.cash
                x.1.carried.positions)
            (replay_from variable profile allow fail_fast s days)
    unfolding replay_from
    replay_from-IsChained s [] h = (refl, refl)
    replay_from-IsChained s (day ∷ days) h =
        Returns-bind (λ x. Links s.carried x.0 x.1.carried) _
          (replay_step variable profile allow fail_fast s day) _ (replay_step-Links s day h)
          (λ x links.
            Returns-bind
              (λ y.
                IsChained x.1.carried.cash x.1.carried.positions y.0 y.1.carried.cash
                  y.1.carried.positions)
              _ (replay_from variable profile allow fail_fast x.1 days) _
              (replay_from-IsChained x.1 days (rw (← links.end.1) links.no_short))
              (λ y chained. (
                links.start.0,
                links.start.1,
                links.unchanged,
                links.no_short,
                rw (links.end.0, links.end.1) chained,
              )))

  -- A replay of an account without short positions, run where the environment enables the legacy engine
  -- and the inputs have no critical flag, returns, and its days follow on each other: the first starts
  -- with the account's cash and positions, each other one with those that the day before it ended with,
  -- a day that is blocked or skipped changes neither, none ends with a short position, and the last one
  -- ends with the replay's final cash and positions.
  pub run_multi_day_paper_replay-IsChained :
      (parse : ParseDate) (variable : Option String) (days : List (PaperReplayDayInput W))
      (profile : AccountProfile W) (allow fail_fast : Bool)
      → use_legacy_engine_default variable ≡ true
      → has_critical (validate_replay_inputs parse days profile) ≡ false
      → NoShort (initial_positions profile)
      → Returns
          (λ (result : PaperReplayResult W).
            IsChained profile.cash.available_cash
              (initial_positions profile)
              result.day_results
              result.final_cash
              result.final_positions)
          (run_multi_day_paper_replay parse variable days profile allow fail_fast none)
  unfolding run_multi_day_paper_replay replay_days start_replay finish_replay require_legacy_engine
      legacy_engine_enabled
  run_multi_day_paper_replay-IsChained parse variable days profile allow fail_fast enabled clean h =
      rw (enabled, clean)
        (Returns-bind _ _
          (replay_from variable profile allow fail_fast
            (start_replay profile (validate_replay_inputs parse days profile)) days)
          _
          (replay_from-IsChained variable profile allow fail_fast enabled
            (start_replay profile (validate_replay_inputs parse days profile)) days h)
          (λ x chained. chained))
