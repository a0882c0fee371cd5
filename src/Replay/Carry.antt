-- ===== src/Replay/Carry.antt =====
-- What src/quantpilot_core/multi_day_paper_replay/replay.py carries over from a day is what the day's dry
-- run ended with: `_build_daily_account_profile` and `_carry_successful_results`.
use quant_pilot_ai_next.ActionBridge.Contracts.{PaperLedgerCandidateInstruction}
use quant_pilot_ai_next.DryRun.Laws.{
  add_position-get_or, cash_after, position_change, shifted, dry_run_accounts,
}
use quant_pilot_ai_next.DryRun.Contracts.{PaperLedgerDryRunInstructionResult}
use quant_pilot_ai_next.DryRun.Run.{quantity_of, initial_positions, is_simulated, dry_run}
use quant_pilot_ai_next.AccountProfile.Limits.{symbol_of}
use quant_pilot_ai_next.AccountProfile.Contracts.{AccountPosition, AccountProfile}
use quant_pilot_ai_next.Replay.Days.{
  sorted, keys, insert_sorted, carry_one, carry_successful_results, daily_position,
  build_daily_account_profile, Carried,
}
use quant_pilot_ai_next.Dict.{
  dict_from, get_or, lookup, Dict, insert, get_or-insert, lookup-insert, dict_of,
}
use quant_pilot_ai_next.Base.{
  ◌≡◌, refl, sym, ap, ◌∙◌, true, false, [], ◌∷◌, arith, ◌||◌, ◌&&◌, some, map, String, List,
  if◌then◌else◌, Option-cases, inl, inr, Bool,
}
use quant_pilot_ai_next.Int.{pos, +ℤ-zero, ℤ, ◌+ℤ◌}
use quant_pilot_ai_next.Text.{◌==◌, eq_iff, contains}
use quant_pilot_ai_next.Float.{Float, ◌⊕◌, round}

contains-insert_sorted :
    (j s : String) (ts : List String) → contains j (insert_sorted s ts) ≡ (s == j || contains j ts)
unfolding insert_sorted
contains-insert_sorted j s [] = refl
contains-insert_sorted j s (t ∷ ts) = ground (arith, contains-insert_sorted j s ts)

contains-sorted : (j : String) (ts : List String) → contains j (sorted ts) ≡ contains j ts
unfolding sorted
contains-sorted j [] = refl
contains-sorted j (t ∷ ts) =
    ground (arith, contains-insert_sorted j t (sorted ts), contains-sorted j ts)

-- a symbol that is no key has no shares
get_or-keys :
    (j : String) (d : Dict ℤ)
    → (if contains j (keys d) then get_or (pos 0) j d else get_or (pos 0) j []) ≡ get_or (pos 0) j d
unfolding get_or lookup
get_or-keys j [] = refl
get_or-keys j ((k, v) ∷ d) = ground (arith, get_or-keys j d)

module _ {W : Type 0} where
  -- the positions that are built for a list of symbols give every symbol its value
  dict_from-map :
      (f : String → AccountPosition W) (g : String → ℤ)
      → ((k : String) → symbol_of (f k) ≡ k)
      → ((k : String) → quantity_of (f k) ≡ g k)
      → (d : Dict ℤ) (ks : List String) (j : String)
      → get_or (pos 0) j (dict_from symbol_of quantity_of d (map f ks))
        ≡ (if contains j ks then g j else get_or (pos 0) j d)
  unfolding dict_from
  dict_from-map f g named valued d [] j = refl
  dict_from-map f g named valued d (k ∷ ks) j =
      let rest = dict_from-map f g named valued (insert k (g k) d) ks j in
      rw (named k, valued k) (ground (arith, rest, get_or-insert (pos 0) k j (g k) d, eq_iff k j))

  no_entry : (j : String) (q : AccountPosition W) → lookup j [] ≡ some q → q.symbol ≡ j
  unfolding lookup
  no_entry j q f = absurd (ground arith)

  -- a position that is found under a symbol has that symbol
  lookup-symbol :
      (d : Dict (AccountPosition W)) (ps : List (AccountPosition W)) (k : String)
      (position : AccountPosition W)
      → ((j : String) (p : AccountPosition W) → lookup j d ≡ some p → p.symbol ≡ j)
      → lookup k (dict_from symbol_of (λ p. p) d ps) ≡ some position
      → position.symbol ≡ k
  unfolding dict_from
  lookup-symbol d [] k position h e = h k position e
  lookup-symbol d (p ∷ ps) k position h e =
      lookup-symbol (insert p.symbol p d) ps k position
        (λ j q f. ground (arith, lookup-insert p.symbol j p d, eq_iff p.symbol j, h j q)) e

module _ {W : Type 0} ⦃F : Float W⦄ where
  daily_position-symbol :
      (profile : AccountProfile W) (positions sellable : Dict ℤ) (k : String)
      → (daily_position
          (dict_of symbol_of (λ position. position) profile.positions)
          positions
          sellable
          k).symbol
        ≡ k
  unfolding daily_position dict_of
  daily_position-symbol profile positions sellable k =
      elim (Option-cases (lookup k (dict_of symbol_of (λ position. position) profile.positions))) [
        | inl e ↦ rw (daily_position, e) refl
        | inr (p, e) ↦
            rw (daily_position, e)
              (lookup-symbol [] profile.positions k p (λ j q f. no_entry j q f) e)
      ]

  daily_position-quantity :
      (existing : Dict (AccountPosition W)) (positions sellable : Dict ℤ) (k : String)
      → (daily_position existing positions sellable k).quantity ≡ get_or (pos 0) k positions
  unfolding daily_position
  daily_position-quantity existing positions sellable k = elim (Option-cases (lookup k existing)) [
    | inl e ↦ rw (daily_position, e) refl
    | inr (p, e) ↦ rw (daily_position, e) refl
  ]

  -- the profile of a day has the positions that are carried
  pub build_daily_account_profile-positions :
      (profile : AccountProfile W) (c : Carried W) (symbol : String)
      → get_or (pos 0) symbol (initial_positions (build_daily_account_profile profile c))
        ≡ get_or (pos 0) symbol c.positions
  unfolding build_daily_account_profile dict_of
  build_daily_account_profile-positions profile c symbol =
      dict_from-map
        (daily_position (dict_of symbol_of (λ position. position) profile.positions) c.positions
          c.sellable_by_symbol)
        (λ k. get_or (pos 0) k c.positions)
        (daily_position-symbol profile c.positions c.sellable_by_symbol)
        (daily_position-quantity _ c.positions c.sellable_by_symbol) [] (sorted (keys c.positions))
        symbol
      ∙ rw (contains-sorted symbol (keys c.positions)) (get_or-keys symbol c.positions)

  pub build_daily_account_profile-cash :
      (profile : AccountProfile W) (c : Carried W)
      → (build_daily_account_profile profile c).cash.available_cash ≡ c.cash
  unfolding build_daily_account_profile
  build_daily_account_profile-cash profile c = refl

  carry_one-position :
      (c : Carried W) (r : PaperLedgerDryRunInstructionResult W) (symbol : String)
      → get_or (pos 0) symbol (carry_one c r).positions ≡ (
          if r.symbol == symbol
          then get_or (pos 0) symbol c.positions +ℤ r.estimated_position_delta
          else get_or (pos 0) symbol c.positions)
  unfolding carry_one
  carry_one-position c r symbol =
      add_position-get_or r.symbol symbol r.estimated_position_delta c.positions

  carried-cash :
      (b : Bool) (c : Carried W) (r : PaperLedgerDryRunInstructionResult W)
      → (if b then carry_one c r else c).cash
        ≡ (if b then round (c.cash ⊕ r.estimated_cash_delta) 4 else c.cash)
  unfolding carry_one
  carried-cash true c r = refl
  carried-cash false c r = refl

  carried-position :
      (b : Bool) (c : Carried W) (r : PaperLedgerDryRunInstructionResult W) (symbol : String)
      → get_or (pos 0) symbol (if b then carry_one c r else c).positions ≡ (
          if b && r.symbol == symbol
          then get_or (pos 0) symbol c.positions +ℤ r.estimated_position_delta
          else get_or (pos 0) symbol c.positions)
  carried-position true c r symbol = carry_one-position c r symbol
  carried-position false c r symbol = refl

  -- the cash and the positions carried are those of the books of a dry run
  carry_successful_results-accounts :
      (c : Carried W) (rs : List (PaperLedgerDryRunInstructionResult W))
      → let c' = carry_successful_results c rs in
        (c'.cash ≡ cash_after c.cash rs)
        × ((symbol : String)
            → get_or (pos 0) symbol c'.positions
              ≡ get_or (pos 0) symbol c.positions +ℤ position_change symbol rs)
  unfolding carry_successful_results
  carry_successful_results-accounts c [] =
      (refl, λ symbol. sym (+ℤ-zero (get_or (pos 0) symbol c.positions)))
  carry_successful_results-accounts c (r ∷ rs) =
      let (cash, position) =
        carry_successful_results-accounts (if is_simulated r then carry_one c r else c) rs in
      (
        cash ∙ ap (λ x. cash_after x rs) (carried-cash (is_simulated r) c r),
        λ symbol.
            position symbol
            ∙ shifted (is_simulated r && r.symbol == symbol) _ _ r.estimated_position_delta
                (position_change symbol rs) (carried-position (is_simulated r) c r symbol),
      )

  -- What a replay carries over from a day is what the day's dry run ended with: the same cash, and the
  -- same number of shares of every symbol, although the replay computes both again from the results and
  -- the dry run from the day's profile.
  pub carry_successful_results_agrees :
      (profile : AccountProfile W) (c : Carried W)
      (instructions : List (PaperLedgerCandidateInstruction W)) (allow fail_fast : Bool)
      → let dry = dry_run instructions (build_daily_account_profile profile c) allow fail_fast in
        let c' = carry_successful_results c dry.instruction_results in
        (c'.cash ≡ dry.simulated_cash_after)
        × ((symbol : String)
            → get_or (pos 0) symbol c'.positions
              ≡ get_or (pos 0) symbol dry.simulated_positions_after)
  carry_successful_results_agrees profile c instructions allow fail_fast =
      let daily = build_daily_account_profile profile c in
      let results = (dry_run instructions daily allow fail_fast).instruction_results in
      let (cash, position) = carry_successful_results-accounts c results in
      let (dry_cash, dry_position) = dry_run_accounts instructions daily allow fail_fast in
      (
        cash
            ∙ ap (λ x. cash_after x results) (sym (build_daily_account_profile-cash profile c))
            ∙ sym dry_cash,
        λ symbol.
            position symbol
            ∙ ap (λ n. n +ℤ position_change symbol results)
                (sym (build_daily_account_profile-positions profile c symbol))
            ∙ sym (dry_position symbol),
      )
