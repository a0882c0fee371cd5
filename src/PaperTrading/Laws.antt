-- ===== src/PaperTrading/Laws.antt =====
-- The fills of src/quantpilot_core/paper_trading/simulator.py against an abstract account: cash, and a
-- number of shares for every symbol.
use quant_pilot_ai_next.PaperTrading.Reasons.{reasons_for-IsFillable}
use quant_pilot_ai_next.DryRun.Laws.{add_position-get_or}
use quant_pilot_ai_next.Dict.{Dict, get_or, get_or-remove, insert, get_or-insert}
use quant_pilot_ai_next.PaperTrading.Intents.{
  is_off_lot, is_buy, is_sell, reasons_for, shares_or_zero, build_trade, side_of,
}
use quant_pilot_ai_next.PaperTrading.Simulator.{
  moved_positions, SimulatorState, FillOutcome, settle_trade, filled_state, filled, refused,
  short_of_cash, simulate_from, simulate_intent, fills_of, fill_intent, simulate_fills, start_fills,
}
use quant_pilot_ai_next.Base.{
  ◌≡◌, refl, sym, ap, ◌∙◌, true, false, [], ◌∷◌, arith, ◌||◌, some, inl, inr, ◌⊎◌, String, List,
  is_empty, if◌then◌else◌, Bool-cases,
}
use quant_pilot_ai_next.Text.{◌==◌, eq_iff}
use quant_pilot_ai_next.Int.{ℤ, pos, ◌+ℤ◌, ◌-ℤ◌, ◌≤ℤ◌, int_laws, eq_of_parts, ltb_ℤ}
use quant_pilot_ai_next.Float.{Float, ◌⊕◌, round, le, zero_float, lt}
use quant_pilot_ai_next.PaperTrading.Contracts.{
  OrderIntentSide, buy, sell, hold, PaperTrade, OrderIntent, RejectedPaperFill, side_value,
  PaperFillCostAssumptions, PaperAccount,
}

none_left : (q p : ℤ) → q ≤ℤ p → p -ℤ q ≤ℤ pos 0 → p -ℤ q ≡ pos 0
none_left q p h k = eq_of_parts _ _ (omega (int_laws, h, k))

pub moved_positions-sell :
    (symbol other : String) (q : ℤ) (positions : Dict ℤ)
    → q ≤ℤ get_or (pos 0) symbol positions
    → get_or (pos 0) other (moved_positions sell symbol q positions) ≡ (
        if symbol == other
        then get_or (pos 0) other positions -ℤ q
        else get_or (pos 0) other positions)
unfolding moved_positions
moved_positions-sell symbol other q positions h =
    let left = get_or (pos 0) symbol positions -ℤ q in
    ground (
      arith,
      eq_iff symbol other,
      get_or-remove (pos 0) symbol other (insert symbol left positions),
      get_or-insert (pos 0) symbol other left positions,
      none_left q (get_or (pos 0) symbol positions) h,
    )

module _ {W : Type 0} ⦃F : Float W⦄ where
  -- the shares after a trade
  abbrev pub shares_after : (String → ℤ) → PaperTrade W → String → ℤ
  shares_after shares trade symbol =
      if trade.symbol == symbol
      then if trade.side == "buy"
        then shares symbol +ℤ trade.quantity
        else shares symbol -ℤ trade.quantity
      else shares symbol

  -- a trade of whole lots at a positive price that the cash or the shares cover
  pub record IsCoveredTrade (lot_size : ℤ) (cash : W) (shares : String → ℤ) (trade : PaperTrade W)
      : Type 0 where
    pub positive : pos 1 ≤ℤ trade.quantity
    pub whole_lot : is_off_lot trade.quantity lot_size ≡ false
    pub priced : le trade.reference_price zero_float ≡ false
    pub covered :
        ((trade.side ≡ "buy") × (lt cash (F.abs trade.cash_impact) ≡ false))
        ⊎ ((trade.side ≡ "sell") × (trade.quantity ≤ℤ shares trade.symbol))

  -- trades that an account can make one after the other
  abbrev pub AreLegal : ℤ → W → (String → ℤ) → List (PaperTrade W) → Type 0
  AreLegal lot_size cash shares [] = Unit
  AreLegal lot_size cash shares (trade ∷ trades) =
      IsCoveredTrade lot_size cash shares trade
      × AreLegal lot_size (round (cash ⊕ trade.cash_impact) 6) (shares_after shares trade) trades

  -- the variables hold the cash and the shares
  record Holds (s : SimulatorState W) (cash : W) (shares : String → ℤ) : Type 0 where
    has_cash : s.available_cash ≡ some cash
    has_shares : (symbol : String) → get_or (pos 0) symbol s.positions ≡ shares symbol

  data Round (lot_size : ℤ) (s : SimulatorState W) (cash : W) (shares : String → ℤ)
      : FillOutcome W → SimulatorState W → Type 0 where
    fills :
        {trade : PaperTrade W} {s' : SimulatorState W}
        → IsCoveredTrade lot_size cash shares trade
        → Holds s' (round (cash ⊕ trade.cash_impact) 6) (shares_after shares trade)
        → Round lot_size s cash shares (filled trade) s'
    refuses : {rejection : RejectedPaperFill W} → Round lot_size s cash shares (refused rejection) s

  module _ (lot_size : ℤ) (s : SimulatorState W) (cash : W) (shares : String → ℤ)
      (holds : Holds s cash shares) where
    enough_cash :
        (impact : W)
        → short_of_cash s.available_cash impact ≡ false
        → lt cash (F.abs impact) ≡ false
    enough_cash impact h = ap (λ c. short_of_cash c impact) (sym holds.has_cash) ∙ h

    bought :
        (trade : PaperTrade W)
        → trade.side ≡ "buy"
        → (symbol : String)
        → get_or (pos 0) symbol (moved_positions buy trade.symbol trade.quantity s.positions)
          ≡ shares_after shares trade symbol
    unfolding moved_positions
    bought trade e symbol =
        rw (e, ← holds.has_shares symbol)
          (add_position-get_or trade.symbol symbol trade.quantity s.positions)

    sold_off :
        (trade : PaperTrade W)
        → trade.side ≡ "sell"
        → trade.quantity ≤ℤ get_or (pos 0) trade.symbol s.positions
        → (symbol : String)
        → get_or (pos 0) symbol (moved_positions sell trade.symbol trade.quantity s.positions)
          ≡ shares_after shares trade symbol
    sold_off trade e h symbol =
        rw (e, ← holds.has_shares symbol)
          (moved_positions-sell trade.symbol symbol trade.quantity s.positions h)

    settle_trade-Round :
        (intent : OrderIntent W) (side : OrderIntentSide) (trade : PaperTrade W)
        → trade.symbol ≡ intent.symbol
        → trade.side ≡ side_value side
        → is_buy side || is_sell side ≡ true
        → pos 1 ≤ℤ trade.quantity
        → is_off_lot trade.quantity lot_size ≡ false
        → le trade.reference_price zero_float ≡ false
        → let (outcome, s') = settle_trade s intent side trade in
          Round lot_size s cash shares outcome s'
    unfolding settle_trade filled_state
    settle_trade-Round intent buy trade same side trades positive whole priced =
        elim (Bool-cases (short_of_cash s.available_cash trade.cash_impact)) [
          | inl short ↦ rw short Round.refuses
          | inr enough ↦ rw enough (
              Round.fills
                (record {
                  positive = positive;
                  whole_lot = whole;
                  priced = priced;
                  covered = inl (side, enough_cash trade.cash_impact enough);
                })
                (record {
                  has_cash = rw (holds.has_cash) refl;
                  has_shares = λ symbol. bought trade side symbol;
                }))
        ]
    settle_trade-Round intent sell trade same side trades positive whole priced =
        elim (Bool-cases (ltb_ℤ (get_or (pos 0) intent.symbol s.positions) trade.quantity)) [
          | inl short ↦ rw (holds.has_cash, short) Round.refuses
          | inr enough ↦
              let fits : trade.quantity ≤ℤ get_or (pos 0) trade.symbol s.positions =
                rw same (ground arith) in
              rw (holds.has_cash, enough)
                (Round.fills
                  (record {
                    positive = positive;
                    whole_lot = whole;
                    priced = priced;
                    covered = inr (side, rw (← holds.has_shares trade.symbol) fits);
                  })
                  (record {
                    has_cash = refl;
                    has_shares = λ symbol. sold_off trade side fits symbol;
                  }))
        ]
    settle_trade-Round intent hold trade same side trades positive whole priced =
        absurd (ground arith)

  legal_after :
      (lot_size : ℤ) (s : SimulatorState W) (cash : W) (shares : String → ℤ)
      → Holds s cash shares
      → (outcome : FillOutcome W) (s' : SimulatorState W) (rest : List (FillOutcome W))
      → Round lot_size s cash shares outcome s'
      → ((cash' : W) (shares' : String → ℤ)
          → Holds s' cash' shares'
          → AreLegal lot_size cash' shares' (fills_of rest))
      → AreLegal lot_size cash shares (fills_of (outcome ∷ rest))
  unfolding fills_of
  legal_after lot_size s cash shares holds _ _ rest (Round.fills covered after) later =
      (covered, later _ _ after)
  legal_after lot_size s cash shares holds _ _ rest Round.refuses later = later cash shares holds

  module _ (assumptions : PaperFillCostAssumptions W) (prices : Dict W) where
    simulate_intent-Round :
        (s : SimulatorState W) (cash : W) (shares : String → ℤ)
        → Holds s cash shares
        → (intent : OrderIntent W)
        → let (outcome, s') = simulate_intent assumptions prices s intent in
          Round assumptions.lot_size s cash shares outcome s'
    unfolding simulate_intent fill_intent build_trade
    simulate_intent-Round s cash shares holds intent =
        elim (Bool-cases (
          is_empty
            (reasons_for (side_of intent.side) intent prices s.positions assumptions.lot_size))) [
              | inr reasons ↦ rw reasons Round.refuses
              | inl none_given ↦
                  let fillable =
                    reasons_for-IsFillable (side_of intent.side) intent prices s.positions
                      assumptions.lot_size none_given in
                  rw (none_given, fillable.directed, fillable.found)
                    (settle_trade-Round assumptions.lot_size s cash shares holds intent
                      fillable.direction
                      (build_trade assumptions intent fillable.direction
                        (shares_or_zero intent.target_shares) fillable.price)
                      refl refl fillable.trades fillable.positive fillable.whole_lot
                      fillable.priced)
            ]

    simulate_from-AreLegal :
        (s : SimulatorState W) (cash : W) (shares : String → ℤ)
        → Holds s cash shares
        → (intents : List (OrderIntent W))
        → AreLegal assumptions.lot_size cash shares
            (fills_of (simulate_from assumptions prices s intents))
    unfolding simulate_from fills_of
    simulate_from-AreLegal s cash shares holds [] = tt
    simulate_from-AreLegal s cash shares holds (intent ∷ intents) =
        let s' = (simulate_intent assumptions prices s intent).1 in
        legal_after assumptions.lot_size s cash shares holds _ s'
          (simulate_from assumptions prices s' intents)
          (simulate_intent-Round s cash shares holds intent)
          (λ cash' shares' holds'. simulate_from-AreLegal s' cash' shares' holds' intents)

  -- The fills of an account, in the order in which they are made, are trades that it can make one after
  -- the other: each is of a positive number of whole lots at a positive price; a purchase costs no more
  -- than the cash that the trades before it leave, and a sale takes no more shares than they leave,
  -- where each trade changes the cash by its impact and the shares of its symbol by its quantity.
  pub simulate_fills-AreLegal :
      (assumptions : PaperFillCostAssumptions W) (intents : List (OrderIntent W)) (prices : Dict W)
      (account : PaperAccount W)
      → AreLegal assumptions.lot_size account.cash
          (λ symbol. get_or (pos 0) symbol account.positions)
          (simulate_fills assumptions intents prices (some account)).filled_trades
  unfolding simulate_fills start_fills
  simulate_fills-AreLegal assumptions intents prices account =
      simulate_from-AreLegal assumptions prices (start_fills (some account)) account.cash
        (λ symbol. get_or (pos 0) symbol account.positions)
        (record { has_cash = refl; has_shares = λ symbol. refl }) intents
