-- ===== src/Replay/Inputs.antt =====
-- What src/quantpilot_core/multi_day_paper_replay/preflight.py makes sure of, and the switch
-- `use_legacy_engine` of src/quantpilot_core/multi_day_paper_replay/replay.py.
use quant_pilot_ai_next.DryRun.Run.{run_paper_ledger_dry_run}
use quant_pilot_ai_next.LegacyEngine.{
  require_legacy_engine, legacy_engine_enabled, use_legacy_engine_default,
  legacy_engine_disabled_reason,
}
use quant_pilot_ai_next.AccountProfile.Preflight.{run_account_profile_preflight}
use quant_pilot_ai_next.AccountProfile.Contracts.{AccountProfile}
use quant_pilot_ai_next.ActionBridge.Contracts.{PaperLedgerCandidateInstruction}
use quant_pilot_ai_next.Replay.Contracts.{PaperReplayDayInput}
use quant_pilot_ai_next.Replay.Preflight.{
  ParseDate, dated_flags, validate_replay_inputs, day_flags, Seen, days_flags, proposal_flags,
  parse_strict_iso_date, nothing_seen, not_after,
}
use quant_pilot_ai_next.Replay.Run.{
  run_multi_day_paper_replay, replay_days, replay_from, replay_step, replay_round, start_replay,
  blocked_replay,
}
use quant_pilot_ai_next.Base.{
  ◌≡◌, refl, sym, ap, ◌∙◌, true, false, [], ◌∷◌, ◌++◌, arith, none, some, suc, raised,
  runtime_error, String, List, Option, ℕ, All, Bool-cases, if◌then◌else◌, only_if, inl, inr,
  Option-cases, Bool, returned,
}
use quant_pilot_ai_next.Text.{◌==◌, eq_iff, contains, Distinct, eq_refl, is_blank}
use quant_pilot_ai_next.Float.{Float}
use quant_pilot_ai_next.RiskFlags.{has_critical, has_critical-append}

-- no text of the list was seen before it or occurs earlier in it
abbrev AreNew : List String → List String → Type 0
AreNew seen [] = Unit
AreNew seen (id ∷ ids) = (contains id seen ≡ false) × AreNew (id ∷ seen) ids

AreNew-unseen :
    (x : String) (seen ids : List String)
    → AreNew seen ids
    → contains x seen ≡ true
    → All (λ y. x == y ≡ false) ids
AreNew-unseen x seen [] h e = tt
AreNew-unseen x seen (id ∷ ids) (new, rest) e =
    (ground (arith, eq_iff x id), AreNew-unseen x (id ∷ seen) ids rest (rw e (ground arith)))

AreNew-Distinct : (seen ids : List String) → AreNew seen ids → Distinct ids
AreNew-Distinct seen [] h = tt
AreNew-Distinct seen (id ∷ ids) (new, rest) = (
  AreNew-unseen id (id ∷ seen) ids rest (ground (arith, eq_refl id)),
  AreNew-Distinct (id ∷ seen) ids rest,
)

module _ {W : Type 0} where
  abbrev pub proposal_ids_of : List (PaperLedgerCandidateInstruction W) → List String
  proposal_ids_of [] = []
  proposal_ids_of (instruction ∷ instructions) =
      instruction.proposal_id ∷ proposal_ids_of instructions

  -- the proposals of all days, in order
  abbrev pub all_ids : List (PaperReplayDayInput W) → List String
  all_ids [] = []
  all_ids (day ∷ days) = proposal_ids_of day.instructions ++ all_ids days

module _ {W : Type 0} ⦃F : Float W⦄ (parse : ParseDate) where
  -- every date is a date, and each is later than the one before it
  abbrev pub AreOrdered : Option ℕ → List (PaperReplayDayInput W) → Type 0
  AreOrdered previous [] = Unit
  AreOrdered previous (day ∷ days) =
      (date : ℕ) × (parse_strict_iso_date parse day.trading_date ≡ some date)
      × (not_after date previous ≡ false)
      × AreOrdered (some date) days

  proposal_flags-AreNew :
      (seen rest : List String) (instructions : List (PaperLedgerCandidateInstruction W))
      → let (flags, seen') = proposal_flags parse seen instructions in
        has_critical flags ≡ false
        → AreNew seen' rest
        → AreNew seen (proposal_ids_of instructions ++ rest)
  unfolding proposal_flags
  proposal_flags-AreNew seen rest [] e h = h
  proposal_flags-AreNew seen rest (instruction ∷ instructions) e h =
      let (here, later) =
        has_critical-append (only_if (contains instruction.proposal_id seen) _) _ e in
      (
        ground arith,
        proposal_flags-AreNew (instruction.proposal_id ∷ seen) rest instructions later h,
      )

  -- what is clean about a day, from its flags
  record CleanDay (s : Seen) (day : PaperReplayDayInput W) (s' : Seen) : Type 0 where
    date : ℕ
    parsed : parse_strict_iso_date parse day.trading_date ≡ some date
    later : not_after date s.previous_date ≡ false
    remembered : s'.previous_date ≡ some date
    new :
        (rest : List String)
        → AreNew s'.proposal_ids rest
        → AreNew s.proposal_ids (proposal_ids_of day.instructions ++ rest)

  dated_flags-CleanDay :
      (s : Seen) (day : PaperReplayDayInput W) (date : ℕ)
      → parse_strict_iso_date parse day.trading_date ≡ some date
      → let (flags, s') = dated_flags parse s day date in
        has_critical flags ≡ false → CleanDay s day s'
  unfolding dated_flags
  dated_flags-CleanDay s day date parsed e =
      let (dates, rest) = has_critical-append (only_if (contains day.trading_date s.dates) _) _ e in
      let (order, proposals) =
        has_critical-append (only_if (not_after date s.previous_date) _) _ rest in
      record {
        date = date;
        parsed = parsed;
        later = ground arith;
        remembered = refl;
        new = λ ids h. proposal_flags-AreNew s.proposal_ids ids day.instructions proposals h;
      }

  day_flags-CleanDay :
      (index : ℕ) (s : Seen) (day : PaperReplayDayInput W)
      → let (flags, s') = day_flags parse index s day in
        has_critical flags ≡ false → CleanDay s day s'
  unfolding day_flags
  day_flags-CleanDay index s day e = elim (Bool-cases (is_blank day.trading_date)) [
    | inl blank ↦ absurd (ground arith)
    | inr dated ↦ elim (Option-cases (parse_strict_iso_date parse day.trading_date)) [
      | inl none_parsed ↦ absurd (ground arith)
      | inr (date, parsed) ↦
          let same : day_flags parse index s day ≡ dated_flags parse s day date =
            rw (day_flags, dated, parsed) refl in
          rw (same)
            (dated_flags-CleanDay s day date parsed (ap (λ x. has_critical x.0) (sym same) ∙ e))
    ]
  ]

  days_flags-clean :
      (index : ℕ) (s : Seen) (days : List (PaperReplayDayInput W))
      → has_critical (days_flags parse index s days) ≡ false
      → AreOrdered s.previous_date days × AreNew s.proposal_ids (all_ids days)
  unfolding days_flags
  days_flags-clean index s [] e = (tt, tt)
  days_flags-clean index s (day ∷ days) e =
      let (flags, s') = day_flags parse index s day in
      let (here, later) = has_critical-append flags _ e in
      let clean = day_flags-CleanDay index s day here in
      let (ordered, new) = days_flags-clean (suc index) s' days later in
      (
        (clean.date, clean.parsed, clean.later, rw (← clean.remembered) ordered),
        clean.new (all_ids days) new,
      )

  -- Where the inputs of a replay have no critical flag, every trading date is a date, each is later than
  -- the one before it, and no proposal occurs twice, on one day or on different ones.
  pub validate_replay_inputs-AreOrdered :
      (days : List (PaperReplayDayInput W)) (profile : AccountProfile W)
      → has_critical (validate_replay_inputs parse days profile) ≡ false
      → AreOrdered none days × Distinct (all_ids days)
  unfolding validate_replay_inputs
  validate_replay_inputs-AreOrdered days profile e =
      let (ordered, new) =
        days_flags-clean 0 nothing_seen days
          (has_critical-append
            (if (run_account_profile_preflight profile false false).ok then [] else _) _ e).1 in
      (ordered, AreNew-Distinct [] (all_ids days) new)

module _ {W : Type 0} ⦃F : Float W⦄ where
  -- A replay of at least one day that asks for the legacy engine explicitly raises all the same where
  -- the environment does not enable it, unless its inputs have a critical flag, with which it returns a
  -- blocked result.
  pub run_multi_day_paper_replay_explicit :
      (parse : ParseDate) (variable : Option String) (day : PaperReplayDayInput W)
      (days : List (PaperReplayDayInput W)) (profile : AccountProfile W) (allow fail_fast : Bool)
      → use_legacy_engine_default variable ≡ false
      → let flags = validate_replay_inputs parse (day ∷ days) profile in
        run_multi_day_paper_replay parse variable (day ∷ days) profile allow fail_fast (some true)
        ≡ (if has_critical flags
            then returned (blocked_replay (day ∷ days) profile flags)
            else raised (runtime_error legacy_engine_disabled_reason))
  unfolding run_multi_day_paper_replay replay_days replay_from replay_step replay_round start_replay
      require_legacy_engine legacy_engine_enabled run_paper_ledger_dry_run
  run_multi_day_paper_replay_explicit parse variable day days profile allow fail_fast disabled =
      rw disabled refl
