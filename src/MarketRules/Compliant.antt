-- ===== src/MarketRules/Compliant.antt =====
-- An order that a profile allows has no error among its violations under
-- src/quantpilot_core/market_rules/a_share.py.
use quant_pilot_ai_next.Base.{
  ◌≡◌, refl, false, some, List, ◌++◌, arith, any-append, Call, returned, raised, Returns, ◌>>=◌,
  Option-cases, inl, inr,
}
use quant_pilot_ai_next.Int.{ℤ, pos, ◌≤ℤ◌, leb_ℤ, mod_ℤ}
use quant_pilot_ai_next.Float.{Float}
use quant_pilot_ai_next.MarketRules.Types.{
  MarketSide, buy, sell, OrderIntent, RuleViolation, LotRules, Profile, is_error,
}
use quant_pilot_ai_next.MarketRules.AShare.{
  lot_size, lot_increment, lot_violations, validate_lot, validate_quantity, validate_t_plus,
  validate_price_sanity, validate_price_limit, limit_violations, resolve_price_limit,
  validate_suspension, validate_liquidity, validate_cost_placeholders, later_violations,
  validate_order_intent,
}
use quant_pilot_ai_next.MarketRules.Laws.{IsErrorFree, IsCompliant, resolve_price_limit-HasLimit}

IsErrorFree-append :
    (xs ys : List RuleViolation) → IsErrorFree xs → IsErrorFree ys → IsErrorFree (xs ++ ys)
IsErrorFree-append xs ys h k = ground (arith, any-append is_error xs ys)

lot_violations-IsErrorFree :
    (quantity size : ℤ) → size ≤ℤ quantity → IsErrorFree (lot_violations quantity size (pos 0))
lot_violations-IsErrorFree quantity size h = ground arith

validate_lot-IsErrorFree :
    (side : MarketSide) (quantity : ℤ) (rules : LotRules)
    → (side ≡ buy
        → (lot_size rules ≤ℤ quantity) × (mod_ℤ quantity (lot_increment rules) ≡ some (pos 0)))
    → Returns IsErrorFree (validate_lot side quantity rules)
unfolding validate_lot
validate_lot-IsErrorFree sell quantity rules h = ground arith
validate_lot-IsErrorFree buy quantity rules h =
    let (large, whole) = h refl in
    rw (validate_lot, whole) (lot_violations-IsErrorFree quantity (lot_size rules) large)

module _ {W : Type 0} ⦃F : Float W⦄ (intent : OrderIntent W) (profile : Profile W) where
  validate_t_plus-IsErrorFree :
      IsCompliant intent profile → IsErrorFree (validate_t_plus intent profile)
  unfolding validate_t_plus
  validate_t_plus-IsErrorFree h = ground (arith, h.t_plus)

  validate_price_sanity-IsErrorFree :
      IsCompliant intent profile → IsErrorFree (validate_price_sanity intent profile)
  unfolding validate_price_sanity
  validate_price_sanity-IsErrorFree h = ground (arith, h.priced, h.closed)

  validate_price_limit-IsErrorFree :
      IsCompliant intent profile → IsErrorFree (validate_price_limit intent profile)
  unfolding validate_price_limit limit_violations
  validate_price_limit-IsErrorFree h =
      elim (Option-cases (resolve_price_limit intent profile.price_limit_rules)) [
        | inl unknown ↦ ground arith
        | inr (limit, found) ↦
            let has =
              (resolve_price_limit-HasLimit intent profile.price_limit_rules limit).0 found in
            ground (arith, h.limited limit)
      ]

  validate_suspension-IsErrorFree :
      IsCompliant intent profile → IsErrorFree (validate_suspension intent profile)
  unfolding validate_suspension
  validate_suspension-IsErrorFree h = ground (arith, h.traded)

  validate_liquidity-IsErrorFree : IsErrorFree (validate_liquidity intent profile)
  unfolding validate_liquidity
  validate_liquidity-IsErrorFree = ground arith

  validate_cost_placeholders-IsErrorFree : IsErrorFree (validate_cost_placeholders profile)
  unfolding validate_cost_placeholders
  validate_cost_placeholders-IsErrorFree = ground arith

  later_violations-IsErrorFree :
      IsCompliant intent profile → IsErrorFree (later_violations intent profile)
  unfolding later_violations
  later_violations-IsErrorFree h =
      IsErrorFree-append (validate_t_plus intent profile) _ (validate_t_plus-IsErrorFree h) (
        IsErrorFree-append (validate_price_sanity intent profile) _
          (validate_price_sanity-IsErrorFree h)
          (IsErrorFree-append (validate_price_limit intent profile) _
            (validate_price_limit-IsErrorFree h)
            (IsErrorFree-append (validate_suspension intent profile) _
              (validate_suspension-IsErrorFree h)
              (IsErrorFree-append (validate_liquidity intent profile) _
                validate_liquidity-IsErrorFree validate_cost_placeholders-IsErrorFree))))

  validate_quantity-IsErrorFree :
      IsCompliant intent profile → Returns IsErrorFree (validate_quantity intent profile)
  unfolding validate_quantity
  validate_quantity-IsErrorFree h =
      let positive : leb_ℤ intent.quantity (pos 0) ≡ false = ground (arith, h.positive) in
      rw (validate_quantity, positive)
        (validate_lot-IsErrorFree intent.side intent.quantity profile.lot_rules h.lot)

  -- An order that the profile allows is validated without an exception and without an error: one of a
  -- positive quantity, in whole lots for a buy; that sells no share acquired today, where T+1 is in
  -- force; of a positive price; where price limits are in force, with a positive previous close and
  -- within the limit around it that is set for the risk flag, or else for the board, if one is, up to
  -- 10^-8; and of a symbol that is not suspended, where that blocks.
  pub validate_order_intent-IsErrorFree :
      IsCompliant intent profile → Returns IsErrorFree (validate_order_intent intent profile)
  unfolding validate_order_intent
  validate_order_intent-IsErrorFree h =
      joined (validate_quantity intent profile) (validate_quantity-IsErrorFree h)
    where
      joined :
          (r : Call (List RuleViolation))
          → Returns IsErrorFree r
          → Returns IsErrorFree
              (r >>= λ quantity. returned (quantity ++ later_violations intent profile))
      joined (returned quantity) e =
          IsErrorFree-append quantity _ e (later_violations-IsErrorFree h)
      joined (raised problem) e = e
