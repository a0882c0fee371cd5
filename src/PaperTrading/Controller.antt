-- ===== src/PaperTrading/Controller.antt =====
-- The normalization of src/quantpilot_core/order_intent/controller.py; the metadata are left out.
use quant_pilot_ai_next.PaperTrading.Intents.{side_of}
use Prim.Native.String
use quant_pilot_ai_next.Base.{
  String, Option, none, some, List, [], ◌∷◌, Bool, true, ◌*◌, ◌/◌, Call, if◌then◌else◌, returned,
  ◌>>=◌, raise_if, raised, value_error, ◌>>◌,
}
use quant_pilot_ai_next.Int.{ℤ, pos, pos_part, ltb_ℤ, eq_ℤ, leb_ℤ}
use quant_pilot_ai_next.PaperTrading.Contracts.{
  OrderIntentSide, buy, sell, hold, OrderIntent, side_value,
}

pub record OrderIntentProposal (W : Type 0) : Type 0 where
  pub intents : List (OrderIntent W)
  pub proposal_source : String
  pub advisory_only : Bool
  pub created_at : Option String
  pub run_label : Option String

-- `(shares // lot_size) * lot_size` of positive numbers
abbrev pub whole_lots : ℤ → ℤ → ℤ
whole_lots shares lot_size = pos (pos_part shares / pos_part lot_size * pos_part lot_size)

-- `x or None`
abbrev pub non_zero : ℤ → Option ℤ
non_zero x = if eq_ℤ x (pos 0) then none else some x

-- `_normalize_shares`, for the positive lot size that the constructor asks for
unfoldable pub normalize_shares : ℤ → Option ℤ → Option ℤ
normalize_shares lot_size none = none
normalize_shares lot_size (some shares) =
    if leb_ℤ shares (pos 0) then none else non_zero (whole_lots shares lot_size)

-- `target_shares if target_shares and target_shares > 0 else None`
abbrev pub positive_or_none : Option ℤ → Option ℤ
positive_or_none none = none
positive_or_none (some shares) = if ltb_ℤ (pos 0) shares then some shares else none

-- the shares of an intent by its side
unfoldable pub shares_for : OrderIntentSide → Option ℤ → Option ℤ
shares_for buy shares = shares
shares_for sell shares = shares
shares_for hold shares = positive_or_none shares

module _ {W : Type 0} where
  abbrev pub with_side : ℤ → OrderIntent W → OrderIntentSide → OrderIntent W
  with_side lot_size intent side = record intent {
    side = side_value side;
    target_shares = shares_for side (normalize_shares lot_size intent.target_shares);
  }

  -- `normalize_intent`, from the side that `_normalize_side` finds
  unfoldable pub normalized : ℤ → OrderIntent W → Option OrderIntentSide → Call (OrderIntent W)
  unfolding shares_for normalize_shares
  normalized lot_size intent none =
      raised (value_error (String.◌++◌ "unsupported order intent side: " intent.side))
  normalized lot_size intent (some side) = returned (with_side lot_size intent side)

  unfoldable pub normalize_intent : ℤ → OrderIntent W → Call (OrderIntent W)
  unfolding side_of normalized
  normalize_intent lot_size intent = normalized lot_size intent (side_of intent.side)

  unfoldable pub normalize_intents : ℤ → List (OrderIntent W) → Call (List (OrderIntent W))
  unfolding normalize_intent
  normalize_intents lot_size [] = returned []
  normalize_intents lot_size (intent ∷ intents) = normalize_intent lot_size intent >>= λ first.
      normalize_intents lot_size intents >>= λ rest. returned (first ∷ rest)

  unfoldable pub normalize_proposal : ℤ → OrderIntentProposal W → Call (OrderIntentProposal W)
  unfolding normalize_intents
  normalize_proposal lot_size proposal = normalize_intents lot_size proposal.intents >>= λ intents.
      returned (record proposal { intents = intents; advisory_only = true })

  -- `OrderIntentController(lot_size=lot_size).normalize_proposal(proposal)`
  unfoldable pub run_order_intent_controller :
      ℤ → OrderIntentProposal W → Call (OrderIntentProposal W)
  unfolding normalize_proposal
  run_order_intent_controller lot_size proposal =
      raise_if (leb_ℤ lot_size (pos 0)) (value_error "lot_size must be positive")
      >> normalize_proposal lot_size proposal
