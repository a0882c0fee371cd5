-- ===== src/MarketRules/Laws.antt =====
-- What the violations of src/quantpilot_core/market_rules/a_share.py say about an order intent.
use quant_pilot_ai_next.Dict.{lookup}
use quant_pilot_ai_next.Base.{
  ◌≡◌, refl, ◌∙◌, ap, true, false, some, List, ◌++◌, arith, any, any-append, Call, returned, raised,
  zero_division_error, ◌>>=◌, ◌↔◌, Option-cases, inl, inr, ◌⊎◌, none,
}
use quant_pilot_ai_next.Int.{ℤ, pos, ◌≤ℤ◌, mod_ℤ, mod_ℤ-zero, mod_ℤ-none, eq_of_parts}
use quant_pilot_ai_next.Float.{Float, le, zero_float, lt, ◌⊗◌, ◌⊕◌, ◌⊖◌}
use quant_pilot_ai_next.MarketRules.Types.{
  buy, sell, OrderIntent, RuleViolation, LotRules, Profile, is_error, PriceLimitRules, risk_value,
  board_value,
}
use quant_pilot_ai_next.MarketRules.AShare.{
  lot_size, lot_increment, validate_lot, validate_quantity, validate_t_plus, validate_price_sanity,
  validate_price_limit, limit_violations, resolve_price_limit, validate_suspension,
  later_violations, validate_order_intent,
}

-- none of the violations is an error
abbrev pub IsErrorFree : List RuleViolation → Type 0
IsErrorFree violations = any is_error violations ≡ false

append-IsErrorFree :
    (xs ys : List RuleViolation) → IsErrorFree (xs ++ ys) → IsErrorFree xs × IsErrorFree ys
append-IsErrorFree xs ys h = ground (arith, any-append is_error xs ys)

validate_lot-whole :
    (quantity : ℤ) (rules : LotRules) (violations : List RuleViolation)
    → validate_lot buy quantity rules ≡ returned violations
    → IsErrorFree violations
    → (lot_size rules ≤ℤ quantity) × (mod_ℤ quantity (lot_increment rules) ≡ some (pos 0))
unfolding validate_lot
validate_lot-whole quantity rules violations e h =
    elim (Option-cases (mod_ℤ quantity (lot_increment rules))) [
      | inl none_left ↦ ground arith
      | inr (rest, found) ↦
          (ground arith, found ∙ ap some (eq_of_parts rest (pos 0) (ground arith)))
    ]

module _ {W : Type 0} ⦃F : Float W⦄ where
  -- The profile sets a limit for the order: that of its risk flag, or where its risk flag has none,
  -- without a key or with a null under it, that of its board.
  abbrev pub HasLimit : OrderIntent W → PriceLimitRules W → W → Type 0
  HasLimit intent rules limit =
      let of_flag = lookup (risk_value intent.risk_flag) rules.risk_flag_limits in
      (of_flag ≡ some (some limit))
      ⊎ (((of_flag ≡ none) ⊎ (of_flag ≡ some none))
          × (lookup (board_value intent.board) rules.board_limits ≡ some (some limit)))

  -- The price is from previous_close * (1 - limit) - 10^-8 to previous_close * (1 + limit) + 10^-8.
  abbrev pub IsWithin : OrderIntent W → W → Type 0
  IsWithin intent limit =
      (lt (intent.previous_close ⊗ (F.of_int (pos 1) ⊕ limit) ⊕ F.lit 1 8) intent.price ≡ false)
      × (lt intent.price (intent.previous_close ⊗ (F.of_int (pos 1) ⊖ limit) ⊖ F.lit 1 8) ≡ false)

  -- What a profile asks of an order: a positive quantity, in whole lots for a buy; no share sold that
  -- was acquired today; prices that are positive and within the limit of the risk flag or board; a
  -- symbol that is traded.
  pub record IsCompliant (intent : OrderIntent W) (profile : Profile W) : Type 0 where
    pub positive : pos 1 ≤ℤ intent.quantity
    pub lot :
        intent.side ≡ buy
        → (lot_size profile.lot_rules ≤ℤ intent.quantity)
          × (mod_ℤ intent.quantity (lot_increment profile.lot_rules) ≡ some (pos 0))
    pub t_plus :
        profile.t_plus_enabled ≡ true
        → profile.sell_same_day_acquired_forbidden ≡ true
        → intent.side ≡ sell
        → intent.acquired_today_quantity ≤ℤ pos 0
    pub priced : le intent.price zero_float ≡ false
    pub closed :
        profile.price_limit_rules.enabled ≡ true → le intent.previous_close zero_float ≡ false
    pub limited :
        (limit : W)
        → profile.price_limit_rules.enabled ≡ true
        → HasLimit intent profile.price_limit_rules limit
        → IsWithin intent limit
    pub traded : profile.block_if_suspended ≡ true → intent.is_suspended ≡ false

  t_plus-sellable :
      (intent : OrderIntent W) (profile : Profile W)
      → IsErrorFree (validate_t_plus intent profile)
      → profile.t_plus_enabled ≡ true
      → profile.sell_same_day_acquired_forbidden ≡ true
      → intent.side ≡ sell
      → intent.acquired_today_quantity ≤ℤ pos 0
  unfolding validate_t_plus
  t_plus-sellable intent profile h e f g = ground arith

  price_sanity-positive :
      (intent : OrderIntent W) (profile : Profile W)
      → IsErrorFree (validate_price_sanity intent profile)
      → (le intent.price zero_float ≡ false)
        × (profile.price_limit_rules.enabled ≡ true → le intent.previous_close zero_float ≡ false)
  unfolding validate_price_sanity
  price_sanity-positive intent profile h = (ground arith, λ e. ground arith)

  pub resolve_price_limit-HasLimit :
      (intent : OrderIntent W) (rules : PriceLimitRules W) (limit : W)
      → (resolve_price_limit intent rules ≡ some limit) ↔ HasLimit intent rules limit
  unfolding resolve_price_limit
  resolve_price_limit-HasLimit intent rules limit = (λ e. ground arith, λ h. ground arith)

  limit_violations-IsWithin :
      (intent : OrderIntent W) (limit : W)
      → IsErrorFree (limit_violations intent (some limit))
      → IsWithin intent limit
  unfolding limit_violations
  limit_violations-IsWithin intent limit h = ground arith

  price_limit-IsWithin :
      (intent : OrderIntent W) (profile : Profile W) (limit : W)
      → IsErrorFree (validate_price_limit intent profile)
      → profile.price_limit_rules.enabled ≡ true
      → HasLimit intent profile.price_limit_rules limit
      → IsWithin intent limit
  unfolding validate_price_limit
  price_limit-IsWithin intent profile limit h e f =
      let found = (resolve_price_limit-HasLimit intent profile.price_limit_rules limit).1 f in
      ground (arith, limit_violations-IsWithin intent limit)

  suspension-traded :
      (intent : OrderIntent W) (profile : Profile W)
      → IsErrorFree (validate_suspension intent profile)
      → profile.block_if_suspended ≡ true
      → intent.is_suspended ≡ false
  unfolding validate_suspension
  suspension-traded intent profile h e = ground arith

  later-parts :
      (intent : OrderIntent W) (profile : Profile W)
      → IsErrorFree (later_violations intent profile)
      → IsErrorFree (validate_t_plus intent profile)
        × IsErrorFree (validate_price_sanity intent profile)
        × IsErrorFree (validate_price_limit intent profile)
        × IsErrorFree (validate_suspension intent profile)
  unfolding later_violations
  later-parts intent profile h =
      let (t_plus, after_t_plus) = append-IsErrorFree (validate_t_plus intent profile) _ h in
      let (sanity, after_sanity) =
        append-IsErrorFree (validate_price_sanity intent profile) _ after_t_plus in
      let (limit, after_limit) =
        append-IsErrorFree (validate_price_limit intent profile) _ after_sanity in
      let (suspension, after_suspension) =
        append-IsErrorFree (validate_suspension intent profile) _ after_limit in
      (t_plus, sanity, limit, suspension)

  quantity-lots :
      (intent : OrderIntent W) (profile : Profile W) (violations : List RuleViolation)
      → validate_quantity intent profile ≡ returned violations
      → IsErrorFree violations
      → (pos 1 ≤ℤ intent.quantity)
        × (intent.side ≡ buy
            → (lot_size profile.lot_rules ≤ℤ intent.quantity)
              × (mod_ℤ intent.quantity (lot_increment profile.lot_rules) ≡ some (pos 0)))
  unfolding validate_quantity
  quantity-lots intent profile violations e h = (
    ground arith,
    λ b. ground (arith, validate_lot-whole intent.quantity profile.lot_rules violations),
  )

  -- An order whose violations are no errors is one that the profile allows: a positive quantity, in
  -- whole lots for a buy; no share sold that was acquired today, where T+1 is in force; a positive
  -- price; where price limits are in force, a positive previous close, and a price within the limit
  -- around it that is set for the risk flag, or else for the board, if one is, up to 10^-8; and a symbol
  -- that is not suspended, where that blocks.
  pub validate_order_intent-IsCompliant :
      (intent : OrderIntent W) (profile : Profile W) (violations : List RuleViolation)
      → validate_order_intent intent profile ≡ returned violations
      → IsErrorFree violations
      → IsCompliant intent profile
  unfolding validate_order_intent
  validate_order_intent-IsCompliant intent profile violations e h =
      compliant (validate_quantity intent profile) refl e
    where
      compliant :
          (r : Call (List RuleViolation))
          → validate_quantity intent profile ≡ r
          → (r >>= λ quantity. returned (quantity ++ later_violations intent profile))
            ≡ returned violations
          → IsCompliant intent profile
      compliant (raised problem) found g = absurd (ground arith)
      compliant (returned quantity) found g =
          let (quantity_free, later_free) =
            append-IsErrorFree quantity (later_violations intent profile) (ground arith) in
          let (t_plus, sanity, limit, suspension) = later-parts intent profile later_free in
          let (positive, lot) = quantity-lots intent profile quantity found quantity_free in
          let (priced, closed) = price_sanity-positive intent profile sanity in
          record {
            positive = positive;
            lot = lot;
            t_plus = t_plus-sellable intent profile t_plus;
            priced = priced;
            closed = closed;
            limited = λ bound. price_limit-IsWithin intent profile bound limit;
            traded = suspension-traded intent profile suspension;
          }

  lot-raises :
      (intent : OrderIntent W) (profile : Profile W)
      → (validate_quantity intent profile ≡ raised zero_division_error) ↔ (
          (intent.side ≡ buy)
          × (pos 1 ≤ℤ intent.quantity)
          × (lot_increment profile.lot_rules ≡ pos 0))
  unfolding validate_quantity validate_lot
  lot-raises intent profile = (
    λ e. ground (arith, mod_ℤ-none intent.quantity (lot_increment profile.lot_rules)),
    λ (side, positive, zero_lot). ground (arith, mod_ℤ-zero intent.quantity),
  )

  quantity-raises :
      (intent : OrderIntent W) (profile : Profile W)
      → ((violations : List RuleViolation) × (validate_quantity intent profile
            ≡ returned violations))
        ⊎ (validate_quantity intent profile ≡ raised zero_division_error)
  unfolding validate_quantity validate_lot
  quantity-raises intent profile = ground arith

  pub validate_order_intent_raises :
      (intent : OrderIntent W) (profile : Profile W)
      → ((validate_order_intent intent profile ≡ raised zero_division_error) ↔ (
          (intent.side ≡ buy)
          × (pos 1 ≤ℤ intent.quantity)
          × (lot_increment profile.lot_rules ≡ pos 0)))
        × (((violations : List RuleViolation) × (validate_order_intent intent profile
                ≡ returned violations))
            ⊎ (validate_order_intent intent profile ≡ raised zero_division_error))
  unfolding validate_order_intent
  validate_order_intent_raises intent profile = (
    ground (arith, lot-raises intent profile),
    elim (quantity-raises intent profile) [
      | inl (violations, e) ↦ rw (validate_order_intent, e) (inl (_, refl))
      | inr e ↦ rw (validate_order_intent, e) (inr refl)
    ],
  )
